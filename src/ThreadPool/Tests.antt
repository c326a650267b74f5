-- ===== src/ThreadPool/Tests.antt =====
-- base/threadpool.cpp on short runs.
use kaycc.Prelude.{refl, ◌≡◌, ◌≤◌, ◌*◌, ◌⊎◌, false, [], ◌∷◌, arith}
use kaycc.ThreadPool.{
  ThreadPool, start, run, stop, caller_enters, worker_locks, take_task, Reach, here, next,
}
use kaycc.ThreadPool.Ending.{worker_steps, threads, GoesOn, stop_ends}
use kaycc.ThreadPool.Invariant.{Inv, Reach-Inv}
use kaycc.ThreadPool.Stop.{Stranded, Reach-Stranded}

-- One place, two workers and a caller with one task.
Reach_example : Inv 2 (run 7 (start 1 2))
Reach_example = Reach-Inv 1 2 (run 7 (start 1 2)) (next here (caller_enters 7))

-- The worker is gone, the queue is full, and a caller waits.
abbrev left : ThreadPool
left = record {
  max_queue_size = 1;
  queue = 7 ∷ [];
  running = false;
  idle = 0;
  tested = 0;
  working = 0;
  blocked_workers = 0;
  woken_workers = 0;
  exited = 1;
  blocked_callers = 1;
  woken_callers = 0;
  pushed = 7 ∷ [];
  taken = [];
}

Stranded_example : Stranded 1 (run 8 left)
Stranded_example =
    Reach-Stranded 1 left (run 8 left)
      (record { down = refl; none_left = refl; full = omega arith; waiting = omega arith })
      (next here (caller_enters 8))

-- A worker has seen `running_` before `stop`, and takes the last task behind it.
abbrev late : ThreadPool
unfolding start run
late = record (run 7 (start 1 1)) { idle = 0; tested = 1 }

abbrev served : ThreadPool
unfolding stop take_task
served = take_task (record (stop late) { tested = 0 })

serving : Reach (stop late) served
unfolding stop late served
serving = next here (worker_locks 0 refl)

stop_ends_example :
    (worker_steps serving ≤ 3 * threads late) × ((threads served ≡ 0) ⊎ GoesOn served)
stop_ends_example = stop_ends late served serving
