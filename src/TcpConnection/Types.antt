-- ===== src/TcpConnection/Types.antt =====
-- net/tcpconnection.h: the state of a connection.
use kaycc.Prelude.{ℕ, Bool, true, false, List, [], ◌∷◌, ◌++◌}
use kaycc.Buffer.{Buffer}
use kaycc.Channel.{Channel, Interest, apply_interest, is_writing}

-- `enum StateE`
pub data State : Type 0 where
  disconnected connecting connected disconnecting : State

abbrev pub same_state : State → State → Bool
same_state disconnected disconnected = true
same_state connecting connecting = true
same_state connected connected = true
same_state disconnecting disconnecting = true
same_state _ _ = false

pub data Callback : Type 0 where
  connection_callback message_callback close_callback : Callback

pub data Task : Type 0 where
  send_in_loop_task : List ℕ → Task
  shutdown_task : Task
  force_close_in_loop_task : Task
  -- `runAfter(seconds, makeWeakCallback(...forceClose))`
  force_close_after : ℕ → Task
  start_read_task : Task
  stop_read_task : Task
  write_complete_task : Task
  high_water_mark_task : ℕ → Task

pub record TcpConnection : Type 0 where
  pub state : State
  pub reading : Bool
  pub channel : Channel
  pub input_buffer : Buffer
  pub output_buffer : Buffer
  pub high_water_mark : ℕ
  -- Whether the callback has been set.
  pub write_complete_callback : Bool
  pub high_water_mark_callback : Bool
  pub sent : List ℕ
  pub write_shut : Bool
  pub ran : List Callback
  pub queued : List Task

-- What `write` returns: a count, or -1 with `errno`.
pub data Errno : Type 0 where
  ewouldblock epipe econnreset other : Errno

pub data Write : Type 0 where
  wrote : ℕ → Write
  write_failed : Errno → Write

abbrev pub queue : Task → TcpConnection → TcpConnection
queue task c = record c { queued = c.queued ++ task ∷ [] }

abbrev pub run : Callback → TcpConnection → TcpConnection
run callback c = record c { ran = c.ran ++ callback ∷ [] }

abbrev pub set_interest : Interest → TcpConnection → TcpConnection
set_interest i c = record c { channel = apply_interest i c.channel }

-- `channel_->isWriting()`
abbrev pub writing : TcpConnection → Bool
writing c = is_writing c.channel

-- `errno == EPIPE || errno == ECONNRESET`, where it is not `EWOULDBLOCK`.
abbrev pub is_fault : Errno → Bool
is_fault ewouldblock = false
is_fault epipe = true
is_fault econnreset = true
is_fault other = false

pub record Attempt : Type 0 where
  pub nwrote : ℕ
  pub fault_error : Bool
  pub conn : TcpConnection
