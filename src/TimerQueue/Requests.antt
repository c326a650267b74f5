-- ===== src/TimerQueue/Requests.antt =====
-- net/timerqueue.cpp, eventloop.cpp and timer.h: timers that are started and cancelled from any thread. A
-- request from the loop's thread is carried out at once, any other by a functor of the loop. `p` is the
-- address that `new Timer` gives; times and delays are numbers of microseconds.
pub mod Order
pub mod Steps
mod Tests
use kaycc.Prelude.{
  ℕ, ◌+◌, Bool, true, false, Option, none, some, List, [], ◌∷◌, ◌++◌, ltb, if◌then◌else◌, Checked,
  ok, ◌≡◌, ◌>>=◌, update,
}
use kaycc.TimerQueue.{Timer, TimerQueue, add_timer_in_loop, cancel_in_loop}

-- The functors `addTimerInLoop(timer)` and `cancelInLoop(timerId)`.
pub data Functor : Type 0 where
  adds : ℕ → Functor
  cancels : ℕ → ℕ → Functor

pub record TimerLoop : Type 0 where
  pub queue : TimerQueue
  -- Those of `pendingFunctors_` that are about timers.
  pub pending_functors : List Functor
  -- `Timer::s_numCreated_`
  pub num_created : ℕ

unfoldable pub construct : TimerLoop
construct = record {
  queue = record {
    timers = [];
    active_timers = [];
    calling_expired_timers = false;
    canceling_timers = [];
    heap = λ p. none;
    armed = none;
  };
  pending_functors = [];
  num_created = 0;
}

unfoldable pub run_functor : Functor → TimerQueue → Checked TimerQueue
run_functor (adds p) q = add_timer_in_loop p q
run_functor (cancels p sequence) q = cancel_in_loop p sequence q

pub run_functors : List Functor → TimerQueue → Checked TimerQueue
run_functors [] q = ok q
run_functors (f ∷ fs) q = do r ← run_functor f q; run_functors fs r

-- `EventLoop::runInLoop`
unfoldable pub run_in_loop : Bool → Functor → TimerLoop → Checked TimerLoop
run_in_loop true f s = do r ← run_functor f s.queue; ok (record s { queue = r })
run_in_loop false f s = ok (record s { pending_functors = s.pending_functors ++ f ∷ [] })

-- `new Timer(cb, when, interval)`
unfoldable pub new_timer : ℕ → ℕ → ℕ → TimerLoop → TimerLoop
new_timer p when interval s =
    let timer : Timer = record {
      expiration = when;
      interval = interval;
      repeat = ltb 0 interval;
      sequence = s.num_created + 1;
    } in
    record s {
      num_created = s.num_created + 1;
      queue = record s.queue { heap = update s.queue.heap p (some timer) };
    }

-- `addTimer`, with the two fields of the `TimerId`.
unfoldable pub add_timer : Bool → ℕ → ℕ → ℕ → TimerLoop → Checked ((ℕ × ℕ) × TimerLoop)
unfolding new_timer run_in_loop
add_timer in_loop p when interval s = do
  let t = new_timer p when interval s
  u ← run_in_loop in_loop (adds p) t
  ok ((p, t.num_created), u)

unfoldable pub cancel : Bool → ℕ × ℕ → TimerLoop → Checked TimerLoop
unfolding run_in_loop
cancel in_loop id s = run_in_loop in_loop (cancels id.0 id.1) s

unfoldable pub run_at : Bool → ℕ → ℕ → TimerLoop → Checked ((ℕ × ℕ) × TimerLoop)
unfolding add_timer
run_at in_loop p time s = add_timer in_loop p time 0 s

unfoldable pub run_after : Bool → ℕ → ℕ → ℕ → TimerLoop → Checked ((ℕ × ℕ) × TimerLoop)
unfolding run_at
run_after in_loop p now delay s = run_at in_loop p (now + delay) s

unfoldable pub run_every : Bool → ℕ → ℕ → ℕ → TimerLoop → Checked ((ℕ × ℕ) × TimerLoop)
unfolding add_timer
run_every in_loop p now interval s = add_timer in_loop p (now + interval) interval s

-- `doPendingFunctors`
unfoldable pub do_pending_functors : TimerLoop → Checked TimerLoop
do_pending_functors s = do
  r ← run_functors s.pending_functors s.queue
  ok (record s { pending_functors = []; queue = r })

-- What the threads may do, one after the other. A new timer has an address that is free.
pub data Step (s : TimerLoop) : TimerLoop → Type 0 where
  starts :
      (in_loop : Bool) (p when interval : ℕ) (id : ℕ × ℕ) (t : TimerLoop)
      → s.queue.heap p ≡ none
      → add_timer in_loop p when interval s ≡ ok (id, t)
      → Step s t
  stops : (in_loop : Bool) (id : ℕ × ℕ) (t : TimerLoop) → cancel in_loop id s ≡ ok t → Step s t
  runs : (t : TimerLoop) → do_pending_functors s ≡ ok t → Step s t

pub data Reach (s : TimerLoop) : TimerLoop → Type 0 where
  here : Reach s s
  next : {t u : TimerLoop} → Reach s t → Step t u → Reach s u
