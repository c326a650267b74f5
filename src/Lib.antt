-- ===== src/Lib.antt =====
-- kaycc: a network library in the reactor style. A TcpServer accepts connections, or a TcpClient
-- makes one with a Connector; each TcpConnection owns a Channel and two Buffers and lives in one
-- EventLoop. The loop waits in a Poller, has its channels run their callbacks, and then runs the
-- functors that other threads have queued.
--
-- Buffer models net/buffer.h, net/buffer.cpp and net/endian.h: a list of bytes and two indices, with
--   `size_t` arithmetic modulo 2 ^ 64 written out. Its children are Search (findCRLF, findEOL),
--   Region, Growth (makeSpace, append), Consume (retrieve, prepend), Integers (appendInt32 and its
--   kin), Shrink and Fd (readFd).
-- Channel models net/channel.h and net/channel.cpp: what a descriptor waits for, and which callbacks
--   an event runs, and events as text (Text).
-- Epoll models net/poller/epollpoller.cpp: the map of channels, a heap of channels, and the kernel's
--   interest list behind epoll_ctl.
-- Poller models net/poller.h, behind which both pollers stand.
-- PollPoller models net/poller/pollpoller.cpp: the same over the array of poll(2).
-- EventLoop models the functors, the wakeup descriptor and quit() of net/eventloop.cpp: its own
--   thread and others are interleaved by a step relation. EventLoop/Dispatch models how a round of
--   loop() handles the channels that `poll` returned, over the interface of Poller/Backend, which both
--   pollers implement. EventLoop/Life has its constructor and destructor, over the same.
-- TcpConnection models net/tcpconnection.cpp: one connection, with what it has sent and which
--   callbacks it has run, and how it ends (Life).
-- Connector models net/connector.cpp: the state machine of an attempt to connect, its retries and
--   its descriptors.
-- TcpClient models net/tcpclient.cpp: a connector and the connections that it leads to, one at a time.
-- Acceptor models net/acceptor.cpp and `sockets::accept`: the way of each descriptor, and over the loop of
--   EventLoop/Life its whole life (Whole).
-- InetAddress models net/inetaddress.cpp and the functions of net/socketsops.cpp on addresses;
--   inet_ntop and inet_pton are the record Inet.
-- Socket models net/socket.cpp: the options of a socket, and its statistics as text (Info).
-- Timestamp models base/timestamp.h and base/timestamp.cpp.
-- TimerQueue models net/timerqueue.cpp and net/timer.cpp: the two ordered sets of timers (its child Sets
--   is `std::set`), a heap of timers, expiry with callbacks that use the queue, repetition, and the requests of any
--   thread in the order of the loop's functors (Requests).
-- ThreadPool models base/threadpool.cpp: workers and callers over one bounded queue, interleaved by a
--   step relation; Members has the rest of the pool.
-- Mutex models base/mutex.h with Condition::wait: which thread is noted as the holder.
-- Condition models the wait with a limit of base/condition.cpp.
-- CountDownLatch and Thread model base/count_down_latch.cpp and the start of a thread in base/thread.cpp;
--   Thread/Names has their default names, and CurrentThread models base/current_thread.h.
--   EventLoopThread models net/eventloopthread.cpp, where the new thread makes a loop and hands it over.
--   Each is a step relation of the threads that take part.
-- EventLoopThreadPool models net/eventloopthreadpool.cpp: the loops of a server, taken in turn.
-- TcpServer models net/tcpserver.cpp: the map of connections, by the names that snprintf makes of the
--   number of a connection (Names), and one connection from newConnection to its end (Sessions), where
--   TcpServer and TcpConnection meet.
-- Atomic models base/atomic.h, on patterns of bits.
-- Prelude has the helpers that these share; Prelude.Faults the results of code with assertions.
--
-- A function of the source is the definition of the same name in snake case; a method takes its object
-- as the last argument or, in Buffer, the first, and returns the new one. A failed `assert`, an
-- exception, a call of `abort` or an undefined value is an error of `Checked`. What the kernel answers is an argument: a
-- result of `write`, `readv` or `connect`, or the record of `epoll_ctl`'s documented behaviour. The
-- conversions of glibc are the record Host. No definition needs fuel.
--
-- Not modelled are the other wrappers of pthread and of socket calls, Singleton, weak
-- callbacks, and logging, whose effect on `errno` is a parameter of Acceptor.
-- `assertInLoopThread` is taken to hold of each function that runs in its loop, but for EventLoop/Life and Acceptor,
-- whose `listen` and destructor run over it.
pub mod Acceptor
pub mod Atomic
pub mod Buffer
pub mod Channel
pub mod Condition
pub mod Connector
pub mod CountDownLatch
pub mod CurrentThread
pub mod Epoll
pub mod EventLoop
pub mod EventLoopThread
pub mod EventLoopThreadPool
pub mod InetAddress
pub mod Mutex
pub mod PollPoller
pub mod Poller
pub mod Prelude
pub mod Socket
pub mod TcpClient
pub mod TcpConnection
pub mod TcpServer
pub mod Thread
pub mod ThreadPool
pub mod TimerQueue
pub mod Timestamp
