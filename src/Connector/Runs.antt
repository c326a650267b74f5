-- ===== src/Connector/Runs.antt =====
-- net/connector.cpp: any run of a connector, with its loop, its timers and the kernel.
use kaycc.Prelude.{ℕ, ◌≡◌, ◌≢◌, subst, Bool, false, Checked, ok, OnOk, arith}
use kaycc.Connector.{
  Connector, connecting, Errno, stop_task, construct, start, stop, restart, handle_write,
  handle_error, run_first, timer_fires,
}
use kaycc.Connector.Sockets.{Inv, construct-Inv}
use kaycc.Connector.Handlers.{
  queue-Inv, want-Inv, start-Inv, restart-Inv, timer_fires-Inv, handle_error-Inv, handle_write-Inv,
  run-Inv,
}

-- What happens to a connector: a call of its user, a functor of the loop, a timer, or an event.
pub data Event : Type 0 where
  starts : Bool → ℕ → Errno → Event
  stops : Event
  restarts runs_first fires : ℕ → Errno → Event
  writable : Bool → Bool → Event
  fails : Event

unfoldable pub act : Event → Connector → Checked Connector
act (starts in_loop sockfd errno) c = start in_loop sockfd errno c
act stops c = ok (stop c)
act (restarts sockfd errno) c = restart sockfd errno c
act (runs_first sockfd errno) c = run_first sockfd errno c
act (fires sockfd errno) c = timer_fires sockfd errno c
act (writable so_error self_connect) c = handle_write so_error self_connect c
act fails c = handle_error c

-- `restart` is for a connector whose connection is up, or has been.
abbrev pub Legal : Event → Connector → Type 0
Legal (restarts sockfd errno) c = c.state ≢ connecting
Legal _ c = Unit

pub act-Inv : (e : Event) (c : Connector) → Legal e c → Inv c → OnOk (act e c) Inv
unfolding act
act-Inv (starts in_loop sockfd errno) c l v = start-Inv in_loop sockfd errno c v
act-Inv stops c l v = unfold stop in queue-Inv stop_task _ (λ e. ground arith) (want-Inv false c v)
act-Inv (restarts sockfd errno) c l v = restart-Inv sockfd errno c l v
act-Inv (runs_first sockfd errno) c l v = run-Inv sockfd errno c.tasks c v
act-Inv (fires sockfd errno) c l v = timer_fires-Inv sockfd errno c v
act-Inv (writable so_error self_connect) c l v = handle_write-Inv so_error self_connect c v
act-Inv fails c l v = handle_error-Inv c v

-- A run of a connector in which `restart` is only called where it may be.
pub data Run (c : Connector) : Connector → Type 0 where
  here : Run c c
  next : {t u : Connector} (e : Event) → Run c t → Legal e t → act e t ≡ ok u → Run c u

-- After any run of a new connector, in which `restart` is not called while it is connecting: each
-- descriptor that was opened has been closed or handed on, once, or the connector is waiting on it;
-- the channel is in the poller exactly while the connector is connecting, and otherwise is gone or
-- on its way out; and the delay of the next attempt is between 500 ms and 30 s.
pub Run-Inv : (c : Connector) → Run construct c → Inv c
Run-Inv c here = construct-Inv
Run-Inv c (next {t} e r l f) = subst (λ m. OnOk m Inv) f (act-Inv e t l (Run-Inv t r))
