-- ===== src/EventLoop.antt =====
-- net/eventloop.h and eventloop.cpp: the pending functors of a loop and its wakeup descriptor. A
-- functor is a number; `calls f` are the functors that running `f` hands to `queueInLoop`. The
-- loop's own thread and the others are interleaved by `Step`.
pub mod Sequential
pub mod Wakeup
pub mod Dispatch
pub mod Life
mod Tests
use kaycc.Prelude.{
  ℕ, suc, ◌+◌, ◌≡◌, Bool, true, false, not, ◌||◌, List, [], ◌∷◌, ◌++◌, if◌then◌else◌, Checked, ok,
  ◌>>◌, assert,
}

-- Where the loop's thread stands in `loop()`: outside, before or in `poll`, handling events, or
-- with these functors left to run in `doPendingFunctors`.
pub data Phase : Type 0 where
  outside polling handling : Phase
  running : List ℕ → Phase

pub record EventLoop : Type 0 where
  pub looping : Bool
  pub quit : Bool
  pub event_handling : Bool
  pub calling_pending_functors : Bool
  pub iteration : ℕ
  pub pending_functors : List ℕ
  -- The counter of the eventfd behind `wakeupFd_`: readable while it is not zero.
  pub wakeup_count : ℕ
  pub phase : Phase
  -- Calls of `wakeup()` that other threads have still to make.
  pub owed : ℕ
  -- The functors that have run, and all that were ever queued.
  pub executed : List ℕ
  pub posted : List ℕ

pub construct : EventLoop
construct = record {
  looping = false;
  quit = false;
  event_handling = false;
  calling_pending_functors = false;
  iteration = 0;
  pending_functors = [];
  wakeup_count = 0;
  phase = outside;
  owed = 0;
  executed = [];
  posted = [];
}

unfoldable pub wakeup : EventLoop → EventLoop
wakeup s = record s { wakeup_count = s.wakeup_count + 1 }

-- The `read` of an eventfd resets its counter.
unfoldable pub handle_read : EventLoop → EventLoop
handle_read s = record s { wakeup_count = 0 }

-- The critical section of `queueInLoop`.
unfoldable pub push_back : ℕ → EventLoop → EventLoop
push_back f s = record s {
  pending_functors = s.pending_functors ++ f ∷ [];
  posted = s.posted ++ f ∷ [];
}

unfoldable pub queue_in_loop : Bool → ℕ → EventLoop → EventLoop
unfolding wakeup push_back
queue_in_loop in_loop f s =
    let s' = push_back f s in if not in_loop || s'.calling_pending_functors then wakeup s' else s'

unfoldable pub quit_loop : Bool → EventLoop → EventLoop
unfolding wakeup
quit_loop in_loop s =
    let s' : EventLoop = record s { quit = true } in if not in_loop then wakeup s' else s'

-- `loop()` before its first round.
unfoldable pub start : EventLoop → Checked EventLoop
start s = do assert (not s.looping); ok (record s { looping = true; quit = false; phase = polling })

module _ (calls : ℕ → List ℕ) where
  -- A functor runs in the loop's thread, and queues others from there.
  pub queue_all : List ℕ → EventLoop → EventLoop
  queue_all [] s = s
  queue_all (f ∷ fs) s = queue_all fs (queue_in_loop true f s)

  unfoldable pub run_functor : ℕ → EventLoop → EventLoop
  run_functor f s = queue_all (calls f) (record s { executed = s.executed ++ f ∷ [] })

  pub run_functors : List ℕ → EventLoop → EventLoop
  run_functors [] s = s
  run_functors (f ∷ fs) s = run_functors fs (run_functor f s)

  -- `runInLoop`: at once in the loop's thread, or else by the queue.
  unfoldable pub run_in_loop : Bool → ℕ → EventLoop → EventLoop
  run_in_loop in_loop f s = if in_loop then run_functor f s else queue_in_loop false f s

  unfoldable pub swap_pending : EventLoop → EventLoop
  swap_pending s = record s { calling_pending_functors = true; pending_functors = [] }

  unfoldable pub do_pending_functors : EventLoop → EventLoop
  do_pending_functors s =
      let t = run_functors s.pending_functors (swap_pending s) in
      record t { calling_pending_functors = false }

  -- One step of the loop's thread, or of another thread.
  pub data Step (s : EventLoop) : EventLoop → Type 0 where
    -- `poll` returns: an event, a wakeup, or the timeout.
    poll_returns :
        s.phase ≡ polling
        → Step s (record s { phase = handling; iteration = s.iteration + 1; event_handling = true })
    -- The wakeup channel's handler, and a handler that queues a functor or quits.
    reads_wakeup : s.phase ≡ handling → Step s (handle_read s)
    handler_queues : (f : ℕ) → s.phase ≡ handling → Step s (queue_in_loop true f s)
    handler_quits : s.phase ≡ handling → Step s (quit_loop true s)
    -- `doPendingFunctors`: the swap, each functor, and the test of the `while` after it.
    swaps :
        s.phase ≡ handling
        → Step s
            (record (swap_pending s) { phase = running s.pending_functors; event_handling = false })
    runs :
        (f : ℕ) (fs : List ℕ)
        → s.phase ≡ running (f ∷ fs)
        → Step s (run_functor f (record s { phase = running fs }))
    goes_on :
        s.phase ≡ running []
        → s.quit ≡ false
        → Step s (record s { calling_pending_functors = false; phase = polling })
    stops :
        s.phase ≡ running []
        → s.quit ≡ true
        → Step s (record s { calling_pending_functors = false; phase = outside; looping = false })
    -- Another thread is between the two halves of `queueInLoop` or `quit` for a while.
    other_pushes : (f : ℕ) → Step s (record (push_back f s) { owed = s.owed + 1 })
    other_quits : Step s (record s { quit = true; owed = s.owed + 1 })
    other_wakes : (n : ℕ) → s.owed ≡ n + 1 → Step s (record (wakeup s) { owed = n })

  pub data Reach (s : EventLoop) : EventLoop → Type 0 where
    here : Reach s s
    next : {t u : EventLoop} → Reach s t → Step t u → Reach s u
