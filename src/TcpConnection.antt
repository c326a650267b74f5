-- ===== src/TcpConnection.antt =====
-- net/tcpconnection.h and tcpconnection.cpp: one connection, in its loop. What the kernel answers to
-- `write` and `readv` is an argument; `sent` and `write_shut` are what the connection has done to
-- its socket, `ran` the user's callbacks that were called and `queued` what was handed to
-- `queueInLoop` and `runAfter`. `assertInLoopThread` holds of a function that runs in the loop; the
-- channel's way to the poller is the subject of `Epoll`.
mod Types
pub mod Stream
pub mod Drain
pub mod States
pub mod Access
pub mod Life
mod Tests
pub use Types.*
use kaycc.Prelude.{
  ℕ, ◌+◌, ◌*◌, Bool, true, false, not, ◌&&◌, ◌||◌, List, [], ◌∷◌, ◌++◌, length, take, drop, ltb,
  leb, ◌==◌, if◌then◌else◌, Checked, ok, ◌>>=◌, ◌>>◌, assert, Option, none, some,
}
use kaycc.Buffer
use kaycc.Buffer.{Buffer, initial_size, sub_size, add_size, readable_bytes, content}
use kaycc.Buffer.Fd.{Readv, failed, filled, read_fd}
use kaycc.Channel.{
  Channel, Interest, enable_reading, disable_reading, enable_writing, disable_writing, disable_all,
  apply_interest, detach, is_writing, is_reading,
}
use kaycc.Channel

-- The constructor; the user sets the callbacks of the last two arguments before the first event.
unfoldable pub construct : ℕ → Bool → Bool → Checked TcpConnection
construct sockfd write_complete high_water_mark = do
  input ← Buffer.construct initial_size
  output ← Buffer.construct initial_size
  let channel : Channel = record (Channel.construct sockfd) {
    read_callback = true;
    write_callback = true;
    close_callback = true;
    error_callback = true;
  }
  ok (record {
    state = connecting;
    reading = true;
    channel = channel;
    input_buffer = input;
    output_buffer = output;
    high_water_mark = 64 * 1024 * 1024;
    write_complete_callback = write_complete;
    high_water_mark_callback = high_water_mark;
    sent = [];
    write_shut = false;
    ran = [];
    queued = [];
  })

after_write : List ℕ → Write → TcpConnection → Attempt
after_write src (wrote n) c =
    let c' : TcpConnection = record c { sent = c.sent ++ take n src } in
    record {
      nwrote = n;
      fault_error = false;
      conn =
          if sub_size (length src) n == 0 && c.write_complete_callback
          then queue write_complete_task c'
          else c';
    }
after_write src (write_failed errno) c = record {
  nwrote = 0;
  fault_error = is_fault errno;
  conn = c;
}

-- The direct write of `sendInLoop`: only with nothing queued before it.
unfoldable pub try_write : List ℕ → Write → TcpConnection → Attempt
unfolding after_write
try_write src w c =
    if not (writing c) && readable_bytes c.output_buffer == 0
    then after_write src w c
    else record { nwrote = 0; fault_error = false; conn = c }

-- The rest goes to the output buffer, and the channel waits to write.
unfoldable pub keep_rest : List ℕ → TcpConnection → Checked TcpConnection
keep_rest rest c = do
  let old = readable_bytes c.output_buffer
  let total = add_size old (length rest)
  let warned : TcpConnection =
      if leb c.high_water_mark total && (ltb old c.high_water_mark && c.high_water_mark_callback)
      then queue (high_water_mark_task total) c
      else c
  output ← Buffer.append c.output_buffer rest
  let kept : TcpConnection = record warned { output_buffer = output }
  ok (if not (writing kept) then set_interest enable_writing kept else kept)

unfoldable pub send_in_loop : List ℕ → Write → TcpConnection → Checked TcpConnection
send_in_loop src w c = if same_state c.state disconnected then ok c else do
  let a = try_write src w c
  let remaining = sub_size (length src) a.nwrote
  assert (leb remaining (length src))
  (if not a.fault_error && ltb 0 remaining then keep_rest (drop a.nwrote src) a.conn else ok a.conn)

-- `send(const std::string&)`; `send(const void*, int)` copies its bytes to a string first.
unfoldable pub send : Bool → List ℕ → Write → TcpConnection → Checked TcpConnection
send in_loop message w c =
    if same_state c.state connected
    then (if in_loop then send_in_loop message w c else ok (queue (send_in_loop_task message) c))
    else ok c

-- `send(Buffer*)`, with the buffer that the caller is left with.
unfoldable pub send_buffer :
    Bool → Buffer → Write → TcpConnection → Checked (Buffer × TcpConnection)
send_buffer in_loop buf w c =
    if same_state c.state connected
    then (if in_loop
        then (do c' ← send_in_loop (content buf) w c; ok (Buffer.retrieve_all buf, c'))
        else (do
          (message, rest) ← Buffer.retrieve_all_as_string buf
          ok (rest, queue (send_in_loop_task message) c)))
    else ok (buf, c)

unfoldable pub shutdown_in_loop : TcpConnection → TcpConnection
shutdown_in_loop c = if not (writing c) then record c { write_shut = true } else c

unfoldable pub shutdown : Bool → TcpConnection → TcpConnection
unfolding shutdown_in_loop
shutdown in_loop c =
    if same_state c.state connected
    then (let c' : TcpConnection = record c { state = disconnecting } in
        if in_loop then shutdown_in_loop c' else queue shutdown_task c')
    else c

unfoldable pub handle_close : TcpConnection → Checked TcpConnection
handle_close c = do
  assert (same_state c.state connected || same_state c.state disconnecting)
  let down : TcpConnection = set_interest disable_all (record c { state = disconnected })
  ok (run close_callback (run connection_callback down))

unfoldable pub force_close : TcpConnection → TcpConnection
force_close c =
    if same_state c.state connected || same_state c.state disconnecting
    then queue force_close_in_loop_task (record c { state = disconnecting })
    else c

unfoldable pub force_close_with_delay : ℕ → TcpConnection → TcpConnection
force_close_with_delay seconds c =
    if same_state c.state connected || same_state c.state disconnecting
    then queue (force_close_after seconds) (record c { state = disconnecting })
    else c

unfoldable pub force_close_in_loop : TcpConnection → Checked TcpConnection
force_close_in_loop c =
    if same_state c.state connected || same_state c.state disconnecting
    then handle_close c
    else ok c

unfoldable pub start_read_in_loop : TcpConnection → TcpConnection
start_read_in_loop c =
    if not c.reading || not (is_reading c.channel)
    then record (set_interest enable_reading c) { reading = true }
    else c

unfoldable pub start_read : Bool → TcpConnection → TcpConnection
start_read in_loop c = if in_loop then start_read_in_loop c else queue start_read_task c

unfoldable pub stop_read_in_loop : TcpConnection → TcpConnection
stop_read_in_loop c =
    if c.reading || is_reading c.channel
    then record (set_interest disable_reading c) { reading = false }
    else c

unfoldable pub stop_read : Bool → TcpConnection → TcpConnection
stop_read in_loop c = if in_loop then stop_read_in_loop c else queue stop_read_task c

unfoldable pub connect_established : TcpConnection → Checked TcpConnection
connect_established c = do
  assert (same_state c.state connecting)
  let up : TcpConnection = record c { state = connected; channel = Channel.tie c.channel }
  ok (run connection_callback (set_interest enable_reading up))

-- `channel_->remove()` asserts that the channel waits for nothing.
unfoldable pub connect_destroyed : TcpConnection → Checked TcpConnection
connect_destroyed c = do
  let down : TcpConnection =
      if same_state c.state connected
      then run connection_callback (set_interest disable_all (record c { state = disconnected }))
      else c
  channel ← detach down.channel
  ok (record down { channel = channel })

unfoldable pub handle_read : Readv → TcpConnection → Checked TcpConnection
handle_read r c = do
  read ← read_fd c.input_buffer r
  let c' : TcpConnection = record c { input_buffer = read.buf }
  elim read.n [
    | none ↦ ok c'
    | some n ↦ if n == 0 then handle_close c' else ok (run message_callback c')
  ]

drained : TcpConnection → TcpConnection
drained c =
    let c1 = set_interest disable_writing c in
    let c2 = if c1.write_complete_callback then queue write_complete_task c1 else c1 in
    if same_state c2.state disconnecting then shutdown_in_loop c2 else c2

sent_some : ℕ → TcpConnection → Checked TcpConnection
unfolding drained shutdown_in_loop
sent_some n c = do
  output ← Buffer.retrieve c.output_buffer n
  let c' : TcpConnection = record c {
    output_buffer = output;
    sent = c.sent ++ take n (content c.output_buffer);
  }
  ok (if readable_bytes output == 0 then drained c' else c')

unfoldable pub handle_write : Write → TcpConnection → Checked TcpConnection
unfolding sent_some
handle_write (write_failed errno) c = ok c
handle_write (wrote n) c = if writing c && ltb 0 n then sent_some n c else ok c
