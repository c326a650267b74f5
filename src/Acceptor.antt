-- ===== src/Acceptor.antt =====
-- net/acceptor.h and acceptor.cpp, with `sockets::accept` of net/socketsops.cpp and `Socket::accept`.
-- What the kernel answers is an argument; `socket` is taken to succeed. `log` is what `errno` is after a
-- line has been printed. The loop is the one of EventLoop.Life. `opened`, `closed` and `handed` are the descriptors that the kernel gave, that
-- were closed, and that went to the callback.
pub mod Descriptors
pub mod Whole
mod Tests
use kaycc.Prelude.{
  ℕ, ◌+◌, Bool, true, false, List, [], ◌∷◌, ◌++◌, ltb, if◌then◌else◌, Checked, ok, ◌>>=◌, ◌>>◌,
  assert, ℤ, pos, negsuc,
}
use kaycc.Channel.{enable_reading, disable_all}
use kaycc.Poller.Backend.{Backend}
use kaycc.EventLoop.Life.{
  Loop, assert_in_loop_thread, update_channel, remove_channel, destruct_channel,
}
use kaycc.InetAddress.{InetAddress, zeroed}

-- The errors that `sockets::accept` names.
pub data Errno : Type 0 where
  no_error : Errno
  eagain econnaborted eintr eproto eperm emfile : Errno
  ebadf efault einval enfile enobufs enomem enotsock eopnotsupp : Errno
  unknown : Errno

abbrev pub is_emfile : Errno → Bool
is_emfile emfile = true
is_emfile _ = false

-- The first group of the `switch`.
unfoldable pub is_expected : Errno → Bool
is_expected eagain = true
is_expected econnaborted = true
is_expected eintr = true
is_expected eproto = true
is_expected eperm = true
is_expected emfile = true
is_expected _ = false

-- What `accept4` answers: a descriptor and the address of the peer, or an error.
pub data Accepted : Type 0 where
  accepted : ℕ → InetAddress → Accepted
  refused : Errno → Accepted

pub record Acceptor : Type 0 where
  pub listenning : Bool
  pub sockfd : ℕ
  -- The place of `acceptChannel_` among the channels of the loop.
  pub channel : ℕ
  pub idle_fd : ℤ
  pub has_callback : Bool
  pub errno : Errno
  pub opened : List ℕ
  pub closed : List ℕ
  pub handed : List ℕ
  -- The addresses that went with them.
  pub peers : List InetAddress

-- A descriptor from the kernel, or -1.
abbrev pub opening : ℤ → Acceptor → Acceptor
opening (pos fd) s = record s { opened = s.opened ++ fd ∷ [] }
opening (negsuc n) s = s

-- `close(fd)`, which does nothing to -1.
abbrev pub close : ℤ → Acceptor → Acceptor
close (pos fd) s = record s { closed = s.closed ++ fd ∷ [] }
close (negsuc n) s = s

abbrev pub not_negative : ℤ → Bool
not_negative (pos n) = true
not_negative (negsuc n) = false

abbrev pub is_positive : ℤ → Bool
is_positive (pos n) = ltb 0 n
is_positive (negsuc n) = false

-- The constructor, given the place of the channel, which gets `handleRead` as its callback, and the
-- descriptors of `socket` and `open`.
unfoldable pub construct : ℕ → ℕ → ℤ → Checked Acceptor
construct channel sockfd idle_fd = do
  assert (not_negative idle_fd)
  ok (
      opening idle_fd (record {
        listenning = false;
        sockfd = sockfd;
        channel = channel;
        idle_fd = idle_fd;
        has_callback = false;
        errno = no_error;
        opened = sockfd ∷ [];
        closed = [];
        handed = [];
        peers = [];
      }))

unfoldable pub set_new_connection_callback : Acceptor → Acceptor
set_new_connection_callback s = record s { has_callback = true }

-- `listen` and the destructor run in a thread, and change the loop beside the acceptor.
module _ (B : Backend) (thread : ℕ) where
  unfoldable pub listen : Loop B → Acceptor → Checked (Loop B × Acceptor)
  listen l s = do
    assert_in_loop_thread B thread l
    m ← update_channel B thread enable_reading s.channel l
    ok (m, record s { listenning = true })

  -- The destructor, then those of `acceptChannel_` and `acceptSocket_`.
  unfoldable pub destruct : Loop B → Acceptor → Checked (Loop B × Acceptor)
  destruct l s = do
    a ← update_channel B thread disable_all s.channel l
    b ← remove_channel B thread s.channel a
    destruct_channel B thread s.channel b
    ok (b, close (pos s.sockfd) (close s.idle_fd s))

module _ (log : Errno → Errno) where
  -- `errno` after the `switch`, if `accept4` has failed.
  abbrev pub errno_after : Errno → Errno
  errno_after saved = if is_expected saved then saved else log (log saved)

  -- `sockets::accept`: the descriptor, and `errno` afterwards.
  unfoldable pub accept : Accepted → Acceptor → ℤ × Acceptor
  accept (accepted fd peer) s = (pos fd, opening (pos fd) s)
  accept (refused e) s = (negsuc 0, record s { errno = errno_after e })

  -- `Socket::accept`: the address of the peer is written if there is one.
  unfoldable pub socket_accept : Accepted → InetAddress → Acceptor → ℤ × InetAddress × Acceptor
  unfolding accept
  socket_accept (accepted fd addr) peer s = (pos fd, addr, (accept (accepted fd addr) s).1)
  socket_accept (refused e) peer s = (negsuc 0, peer, (accept (refused e) s).1)

  -- The spare descriptor makes room for one connection, which is closed at once; `second` and
  -- `reopened` are the results of `accept` and of `open`.
  unfoldable pub shed : ℤ → ℤ → Acceptor → Acceptor
  shed second reopened s =
      let a = close s.idle_fd s in
      let b = close second (opening second a) in record (opening reopened b) { idle_fd = reopened }

  unfoldable pub hand_on : ℤ → InetAddress → Acceptor → Acceptor
  hand_on (pos fd) peer s =
      if s.has_callback
      then record s { handed = s.handed ++ fd ∷ []; peers = s.peers ++ peer ∷ [] }
      else close (pos fd) s
  hand_on (negsuc n) peer s = s

  unfoldable pub handle_read : Accepted → ℤ → ℤ → Acceptor → Acceptor
  handle_read first second reopened s =
      let (connfd, peer, s') = socket_accept first zeroed s in
      if is_positive connfd
      then hand_on connfd peer s'
      else (let s'' : Acceptor = record s' { errno = log s'.errno } in
          if is_emfile s''.errno then shed second reopened s'' else s'')
