-- ===== src/ThreadPool/Stop.antt =====
-- base/threadpool.cpp: what `stop` does to the workers, and to the callers of `run`.
use kaycc.Prelude.{ℕ, ◌+◌, ◌≤◌, ◌<◌, ◌≡◌, refl, false, List, [], ◌∷◌, length, arith}
use kaycc.ThreadPool.{
  ThreadPool, is_full, notify_not_empty, notify_not_full, run, take_task, stop, Step, Reach,
  caller_enters, caller_resumes, caller_wakes, worker_enters, worker_locks, worker_leaves,
  worker_resumes, worker_wakes, worker_finishes, stops, here, next,
}

-- The pool has been stopped and no worker waits.
pub record Stopped (s : ThreadPool) : Type 0 where
  pub down : s.running ≡ false
  pub none_blocked : s.blocked_workers ≡ 0

take-Stopped :
    (queue : List ℕ) (s : ThreadPool) → Stopped s → Stopped (take_task (record s { queue = queue }))
unfolding take_task notify_not_full
take-Stopped [] s v = record {
  down = ground (arith, v.down);
  none_blocked = ground (arith, v.down, v.none_blocked);
}
take-Stopped (task ∷ rest) s v = record {
  down = ground (arith, v.down);
  none_blocked = ground (arith, v.none_blocked);
}

run-Stopped : (task : ℕ) (s : ThreadPool) → Stopped s → Stopped (run task s)
unfolding run notify_not_empty
run-Stopped task s v = record {
  down = ground (arith, v.down);
  none_blocked = ground (arith, v.none_blocked);
}

Step-Stopped : {s t : ThreadPool} → Step s t → Stopped s → Stopped t
unfolding stop
Step-Stopped {s} (caller_enters task) v = run-Stopped task s v
Step-Stopped {s} (caller_resumes task n e) v =
    run-Stopped task _ (record { down = v.down; none_blocked = v.none_blocked })
Step-Stopped {s} (caller_wakes n e) v = record { down = v.down; none_blocked = v.none_blocked }
Step-Stopped {s} (worker_enters n e r) v = record { down = v.down; none_blocked = v.none_blocked }
Step-Stopped {s} (worker_locks n e) v =
    take-Stopped s.queue (record s { tested = n })
      (record { down = v.down; none_blocked = v.none_blocked })
Step-Stopped {s} (worker_leaves n e r) v = record { down = v.down; none_blocked = v.none_blocked }
Step-Stopped {s} (worker_resumes n e) v =
    take-Stopped s.queue (record s { woken_workers = n })
      (record { down = v.down; none_blocked = v.none_blocked })
Step-Stopped {s} (worker_wakes n e) v = absurd (omega (arith, v.none_blocked))
Step-Stopped {s} (worker_finishes n e) v = record { down = v.down; none_blocked = v.none_blocked }
Step-Stopped {s} stops v = record { down = refl; none_blocked = refl }

-- After `stop()` no worker waits for a task, at once and at any time later, under every interleaving;
-- so each leaves once its task is done, and `stop` can join it.
pub stop-Stopped : (s t : ThreadPool) → Reach (stop s) t → Stopped t
unfolding stop
stop-Stopped s t here = record { down = refl; none_blocked = refl }
stop-Stopped s t (next r x) = Step-Stopped x (stop-Stopped s _ r)

-- All workers have left, the queue is full, and at least `k` callers of `run` wait.
pub record Stranded (k : ℕ) (s : ThreadPool) : Type 0 where
  pub down : s.running ≡ false
  pub none_left : s.idle + s.tested + s.working + s.blocked_workers + s.woken_workers ≡ 0
  pub full : (0 < s.max_queue_size) × (s.max_queue_size ≤ length s.queue)
  pub waiting : k ≤ s.blocked_callers + s.woken_callers

Step-Stranded : (k : ℕ) {s t : ThreadPool} → Step s t → Stranded k s → Stranded k t
unfolding stop run is_full
Step-Stranded k {s} (caller_enters task) v = record {
  down = ground (arith, v.down, v.full);
  none_left = ground (arith, v.none_left, v.full);
  full = ground (arith, v.full);
  waiting = ground (arith, v.waiting, v.full);
}
Step-Stranded k {s} (caller_resumes task n e) v = record {
  down = ground (arith, v.down, v.full);
  none_left = ground (arith, v.none_left, v.full);
  full = ground (arith, v.full);
  waiting = ground (arith, v.waiting, v.full);
}
Step-Stranded k {s} (caller_wakes n e) v = record {
  down = v.down;
  none_left = v.none_left;
  full = v.full;
  waiting = ground (arith, v.waiting);
}
Step-Stranded k {s} (worker_enters n e r) v = absurd (omega (arith, v.none_left))
Step-Stranded k {s} (worker_locks n e) v = absurd (omega (arith, v.none_left))
Step-Stranded k {s} (worker_leaves n e r) v = absurd (omega (arith, v.none_left))
Step-Stranded k {s} (worker_resumes n e) v = absurd (omega (arith, v.none_left))
Step-Stranded k {s} (worker_wakes n e) v = absurd (omega (arith, v.none_left))
Step-Stranded k {s} (worker_finishes n e) v = absurd (omega (arith, v.none_left))
Step-Stranded k {s} stops v = record {
  down = refl;
  none_left = ground (arith, v.none_left);
  full = v.full;
  waiting = v.waiting;
}

-- Once a stopped pool has lost its workers while its bounded queue is full, the callers that wait in
-- `run` wait for ever, under every interleaving, also with conditions that wake for no reason:
-- `stop` wakes the workers only, and nobody is left to take a task.
pub Reach-Stranded : (k : ℕ) (s t : ThreadPool) → Stranded k s → Reach s t → Stranded k t
Reach-Stranded k s t v here = v
Reach-Stranded k s t v (next r x) = Step-Stranded k x (Reach-Stranded k s _ v r)
