-- ===== src/TcpClient/Handed.antt =====
-- net/tcpclient.cpp: what its connector has handed on.
use kaycc.Prelude.{
  ℕ, ◌-◌, ◌≡◌, ◌≢◌, ◌⊎◌, inl, refl, Bool, true, false, Option, none, some, List, [], ◌∷◌, ◌++◌,
  OnOk, OnOk-map, arith,
}
use kaycc.Connector
use kaycc.Connector.{
  Connector, Errno, State, disconnected, connecting, connected, start_in_loop, connect, classify,
  start_connecting, retry, close, queue, stop_in_loop, run_first, Task, start_task, stop_task,
  reset_task, proceed, try_later, give_up, Outcome, settle, remove_and_reset_channel, reset_channel,
  handle_write, handle_error, timer_fires,
}
use kaycc.Connector.Runs.{Event, starts, stops, restarts, runs_first, fires, writable, fails, act}

-- The connector has handed nothing on, and has not left `kConnected`.
abbrev pub Kept : Connector → Connector → Type 0
Kept c d = (d.handed ≡ c.handed) × ((c.state ≢ connected) ⊎ (d.state ≡ connected))

abbrev pub channel_fd : Option ℕ → ℕ
channel_fd none = 0
channel_fd (some fd) = fd

-- Or it has handed that of its channel on, and is now in `kConnected`.
abbrev pub Grown : Connector → Connector → Type 0
Grown c d =
    Kept c d
    ⊎ ((d.handed ≡ c.handed ++ channel_fd c.channel ∷ [])
        × (d.state ≡ connected)
        × (c.state ≢ connected))

connect-Kept :
    (sockfd : ℕ) (errno : Errno) (c : Connector)
    → c.state ≢ connected
    → OnOk (connect sockfd errno c) (Kept c)
unfolding connect start_connecting retry
connect-Kept sockfd errno c ne = ground arith

start_in_loop-Kept :
    (sockfd : ℕ) (errno : Errno) (c : Connector) → OnOk (start_in_loop sockfd errno c) (Kept c)
unfolding start_in_loop
start_in_loop-Kept sockfd errno c = ground (arith, connect-Kept sockfd errno c)

handle_write-Grown :
    (so_error self_connect : Bool) (c : Connector)
    → OnOk (handle_write so_error self_connect c) (Grown c)
unfolding handle_write remove_and_reset_channel settle retry
handle_write-Grown so_error self_connect c = ground arith

handle_error-Kept : (c : Connector) → OnOk (handle_error c) (Kept c)
unfolding handle_error remove_and_reset_channel retry
handle_error-Kept c = ground arith

stop_in_loop-Kept : (c : Connector) → OnOk (stop_in_loop c) (Kept c)
unfolding stop_in_loop remove_and_reset_channel retry
stop_in_loop-Kept c = ground arith

run_first-Kept :
    (sockfd : ℕ) (errno : Errno) (ts : List Task) (c : Connector)
    → c.tasks ≡ ts
    → OnOk (run_first sockfd errno c) (Kept c)
unfolding reset_channel run_first
run_first-Kept sockfd errno [] c e = rw e (ground arith)
run_first-Kept sockfd errno (start_task ∷ ts) c e =
    rw e (start_in_loop-Kept sockfd errno (record c { tasks = ts }))
run_first-Kept sockfd errno (stop_task ∷ ts) c e =
    rw e (stop_in_loop-Kept (record c { tasks = ts }))
run_first-Kept sockfd errno (reset_task ∷ ts) c e = rw e (ground arith)

timer_fires-Kept :
    (sockfd : ℕ) (errno : Errno) (c : Connector) → OnOk (timer_fires sockfd errno c) (Kept c)
unfolding timer_fires
timer_fires-Kept sockfd errno c =
    ground (arith, start_in_loop-Kept sockfd errno (record c { due = c.due - 1 }))

pub start-Kept :
    (in_loop : Bool) (sockfd : ℕ) (errno : Errno) (c : Connector)
    → OnOk (Connector.start in_loop sockfd errno c) (Kept c)
unfolding Connector.start
start-Kept true sockfd errno c = start_in_loop-Kept sockfd errno (record c { wanted = true })
start-Kept false sockfd errno c = ground arith

-- The events of a connector that are no call of its user.
abbrev pub is_internal : Event → Bool
is_internal (starts in_loop sockfd errno) = false
is_internal stops = false
is_internal (restarts sockfd errno) = false
is_internal (runs_first sockfd errno) = true
is_internal (fires sockfd errno) = true
is_internal (writable so_error self_connect) = true
is_internal fails = true

pub act-Grown : (e : Event) (c : Connector) → is_internal e ≡ true → OnOk (act e c) (Grown c)
unfolding act
act-Grown (starts in_loop sockfd errno) c h = cc
act-Grown stops c h = cc
act-Grown (restarts sockfd errno) c h = cc
act-Grown (runs_first sockfd errno) c h =
    OnOk-map (Kept c) (Grown c) (run_first sockfd errno c)
      (run_first-Kept sockfd errno c.tasks c refl) (λ d k. inl k)
act-Grown (fires sockfd errno) c h =
    OnOk-map (Kept c) (Grown c) (timer_fires sockfd errno c) (timer_fires-Kept sockfd errno c)
      (λ d k. inl k)
act-Grown (writable so_error self_connect) c h = handle_write-Grown so_error self_connect c
act-Grown fails c h =
    OnOk-map (Kept c) (Grown c) (handle_error c) (handle_error-Kept c) (λ d k. inl k)

-- `Connector::restart` hands nothing on.
pub restart-handed :
    (sockfd : ℕ) (errno : Errno) (c : Connector)
    → OnOk (Connector.restart sockfd errno c) (λ d. d.handed ≡ c.handed)
unfolding Connector.restart
restart-handed sockfd errno c =
    OnOk-map _ _ (start_in_loop sockfd errno _) (start_in_loop-Kept sockfd errno _) (λ d k. k.0)
