-- ===== src/Connector.antt =====
-- net/connector.h and connector.cpp: the client side of connection set-up. The descriptor that
-- `socket` returns and the kernel's answers are arguments. `opened`, `closed` and `handed` are the
-- descriptors that were created, closed, and given to the callback; `tasks` is what was handed to
-- `queueInLoop`, `delays` what was asked of `runAfter`, and `due` how many of those timers are left.
pub mod Backoff
pub mod Sockets
pub mod Handlers
pub mod Runs
pub mod Restart
mod Tests
use kaycc.Prelude.{
  ℕ, suc, ◌+◌, ◌-◌, ◌*◌, min, Bool, true, false, Option, none, some, List, [], ◌∷◌, ◌++◌,
  if◌then◌else◌, Checked, ok, err, undefined, ◌>>◌, ◌>>=◌, assert, is_none, ◌==◌,
}

pub data State : Type 0 where
  disconnected connecting connected : State

abbrev pub same_state : State → State → Bool
same_state disconnected disconnected = true
same_state connecting connecting = true
same_state connected connected = true
same_state _ _ = false

-- What `connect` reports, 0 included, by the names in `Connector::connect`.
pub data Errno : Type 0 where
  no_error einprogress eintr eisconn : Errno
  eagain eaddrinuse eaddrnotavail econnrefused enetunreach : Errno
  eacces eperm eafnosupport ealready ebadf efault enotsock : Errno
  unexpected : Errno

pub data Task : Type 0 where
  start_task stop_task reset_task : Task

abbrev pub max_retry_delay_ms : ℕ
max_retry_delay_ms = 30000

abbrev pub init_retry_delay_ms : ℕ
init_retry_delay_ms = 500

pub record Connector : Type 0 where
  -- `connect_`
  pub wanted : Bool
  pub state : State
  pub retry_delay_ms : ℕ
  -- The descriptor of `channel_`, and whether the poller has the channel.
  pub channel : Option ℕ
  pub registered : Bool
  pub opened : List ℕ
  pub closed : List ℕ
  pub handed : List ℕ
  pub tasks : List Task
  pub delays : List ℕ
  pub due : ℕ

unfoldable pub construct : Connector
construct = record {
  wanted = false;
  state = disconnected;
  retry_delay_ms = init_retry_delay_ms;
  channel = none;
  registered = false;
  opened = [];
  closed = [];
  handed = [];
  tasks = [];
  delays = [];
  due = 0;
}

abbrev pub queue : Task → Connector → Connector
queue task c = record c { tasks = c.tasks ++ task ∷ [] }

abbrev pub close : ℕ → Connector → Connector
close sockfd c = record c { closed = c.closed ++ sockfd ∷ [] }

unfoldable pub retry : ℕ → Connector → Connector
retry sockfd c =
    let c' : Connector = record (close sockfd c) { state = disconnected } in
    if c'.wanted
    then record c' {
      delays = c'.delays ++ c'.retry_delay_ms ∷ [];
      due = c'.due + 1;
      retry_delay_ms = min (c'.retry_delay_ms * 2) max_retry_delay_ms;
    }
    else c'

-- `connecting`
unfoldable pub start_connecting : ℕ → Connector → Checked Connector
start_connecting sockfd c = do
  assert (is_none c.channel)
  ok (record c { state = connecting; channel = some sockfd; registered = true })

pub data Outcome : Type 0 where
  proceed try_later give_up : Outcome

-- The `switch` of `connect`.
unfoldable pub classify : Errno → Outcome
classify no_error = proceed
classify einprogress = proceed
classify eintr = proceed
classify eisconn = proceed
classify eagain = try_later
classify eaddrinuse = try_later
classify eaddrnotavail = try_later
classify econnrefused = try_later
classify enetunreach = try_later
classify eacces = give_up
classify eperm = give_up
classify eafnosupport = give_up
classify ealready = give_up
classify ebadf = give_up
classify efault = give_up
classify enotsock = give_up
classify unexpected = give_up

unfoldable pub connect : ℕ → Errno → Connector → Checked Connector
connect sockfd errno c =
    let c' : Connector = record c { opened = c.opened ++ sockfd ∷ [] } in
    elim (classify errno) [
      | proceed ↦ start_connecting sockfd c'
      | try_later ↦ ok (retry sockfd c')
      | give_up ↦ ok (close sockfd c')
    ]

unfoldable pub start_in_loop : ℕ → Errno → Connector → Checked Connector
start_in_loop sockfd errno c = do
  assert (same_state c.state disconnected)
  (if c.wanted then connect sockfd errno c else ok c)

unfoldable pub start : Bool → ℕ → Errno → Connector → Checked Connector
start in_loop sockfd errno c =
    let c' : Connector = record c { wanted = true } in
    if in_loop then start_in_loop sockfd errno c' else ok (queue start_task c')

-- The channel leaves the poller, and is destroyed once the functors run.
unfoldable pub remove_and_reset_channel : Connector → Checked (ℕ × Connector)
remove_and_reset_channel c = elim c.channel [
  | none ↦ err undefined
  | some sockfd ↦ ok (sockfd, queue reset_task (record c { registered = false }))
]

unfoldable pub reset_channel : Connector → Connector
reset_channel c = record c { channel = none }

unfoldable pub stop_in_loop : Connector → Checked Connector
stop_in_loop c =
    if same_state c.state connecting
    then (do
      (sockfd, c') ← remove_and_reset_channel (record c { state = disconnected })
      ok (retry sockfd c'))
    else ok c

unfoldable pub stop : Connector → Connector
stop c = queue stop_task (record c { wanted = false })

unfoldable pub restart : ℕ → Errno → Connector → Checked Connector
restart sockfd errno c =
    start_in_loop sockfd errno
      (record c { state = disconnected; retry_delay_ms = init_retry_delay_ms; wanted = true })

-- `handleWrite` once the channel has left the poller.
unfoldable pub settle : Bool → Bool → ℕ → Connector → Connector
settle so_error self_connect sockfd c =
    if so_error
    then retry sockfd c
    else (if self_connect
        then retry sockfd c
        else (let up : Connector = record c { state = connected } in
            if up.wanted then record up { handed = up.handed ++ sockfd ∷ [] } else close sockfd up))

-- The arguments are whether `SO_ERROR` is set, and `isSelfConnect`.
unfoldable pub handle_write : Bool → Bool → Connector → Checked Connector
handle_write so_error self_connect c =
    if same_state c.state connecting
    then (do (sockfd, c') ← remove_and_reset_channel c; ok (settle so_error self_connect sockfd c'))
    else do assert (same_state c.state disconnected); ok c

unfoldable pub handle_error : Connector → Checked Connector
handle_error c =
    if same_state c.state connecting
    then (do (sockfd, c') ← remove_and_reset_channel c; ok (retry sockfd c'))
    else ok c

abbrev run_task : Task → ℕ → Errno → Connector → Checked Connector
run_task start_task sockfd errno c = start_in_loop sockfd errno c
run_task stop_task sockfd errno c = stop_in_loop c
run_task reset_task sockfd errno c = ok (reset_channel c)

-- The loop runs the functor at the head of the queue.
unfoldable pub run_first : ℕ → Errno → Connector → Checked Connector
run_first sockfd errno c = elim c.tasks [
  | [] ↦ ok c
  | task ∷ rest ↦ run_task task sockfd errno (record c { tasks = rest })
]

-- A timer of `retry` runs out.
unfoldable pub timer_fires : ℕ → Errno → Connector → Checked Connector
timer_fires sockfd errno c =
    if c.due == 0 then ok c else start_in_loop sockfd errno (record c { due = c.due - 1 })
