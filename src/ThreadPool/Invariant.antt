-- ===== src/ThreadPool/Invariant.antt =====
-- base/threadpool.cpp: the bound of the queue, the order of the tasks, and no lost wakeup.
use kaycc.Prelude.{
  ℕ, ◌+◌, ◌-◌, ◌≤◌, ◌<◌, ◌≡◌, refl, List, [], ◌∷◌, ◌++◌, length, length-append, append_assoc, arith,
}
use kaycc.ThreadPool.{
  ThreadPool, start, is_full, notify_not_empty, notify_not_full, run, take_task, stop, Step, Reach,
  caller_enters, caller_resumes, caller_wakes, worker_enters, worker_locks, worker_leaves,
  worker_resumes, worker_wakes, worker_finishes, stops, here, next,
}

-- The invariant of a pool with this many threads.
pub record Inv (threads : ℕ) (s : ThreadPool) : Type 0 where
  pub bounded : 0 < s.max_queue_size → length s.queue ≤ s.max_queue_size
  pub in_order : s.pushed ≡ s.taken ++ s.queue
  pub workers :
      s.idle + s.tested + s.working + s.blocked_workers + s.woken_workers + s.exited ≡ threads
  -- While a worker waits, one has been woken for each task in the queue.
  pub workers_woken : 0 < s.blocked_workers → length s.queue ≤ s.woken_workers
  -- While a caller waits, one has been woken for each free place.
  pub callers_woken :
      0 < s.blocked_callers
      → (0 < s.max_queue_size) × (s.max_queue_size - length s.queue ≤ s.woken_callers)

-- What holds when a caller has the lock: it may be one that was woken, and is no longer counted.
record CanRun (threads : ℕ) (s : ThreadPool) : Type 0 where
  bounded : 0 < s.max_queue_size → length s.queue ≤ s.max_queue_size
  in_order : s.pushed ≡ s.taken ++ s.queue
  workers : s.idle + s.tested + s.working + s.blocked_workers + s.woken_workers + s.exited ≡ threads
  workers_woken : 0 < s.blocked_workers → length s.queue ≤ s.woken_workers
  callers_woken :
      0 < s.blocked_callers
      → (0 < s.max_queue_size) × (s.max_queue_size - length s.queue ≤ s.woken_callers + 1)

run-Inv : (threads task : ℕ) (s : ThreadPool) → CanRun threads s → Inv threads (run task s)
unfolding run is_full notify_not_empty
run-Inv threads task s v = record {
  bounded = ground (arith, v.bounded, length-append s.queue (task ∷ []));
  in_order = ground (arith, v.in_order, append_assoc s.taken s.queue (task ∷ []));
  workers = ground (arith, v.workers);
  workers_woken = ground (arith, v.workers_woken, length-append s.queue (task ∷ []));
  callers_woken = ground (arith, v.callers_woken, length-append s.queue (task ∷ []));
}

-- What holds when a worker has the lock: it is no longer counted.
record CanTake (threads : ℕ) (s : ThreadPool) : Type 0 where
  bounded : 0 < s.max_queue_size → length s.queue ≤ s.max_queue_size
  in_order : s.pushed ≡ s.taken ++ s.queue
  workers :
      s.idle + s.tested + s.working + s.blocked_workers + s.woken_workers + s.exited + 1 ≡ threads
  workers_woken : 0 < s.blocked_workers → length s.queue ≤ s.woken_workers + 1
  callers_woken :
      0 < s.blocked_callers
      → (0 < s.max_queue_size) × (s.max_queue_size - length s.queue ≤ s.woken_callers)

take-Inv :
    (threads : ℕ) (queue : List ℕ) (s : ThreadPool)
    → CanTake threads (record s { queue = queue })
    → Inv threads (take_task (record s { queue = queue }))
unfolding take_task notify_not_full
take-Inv threads [] s v = record {
  bounded = ground (arith, v.bounded);
  in_order = ground (arith, v.in_order);
  workers = ground (arith, v.workers);
  workers_woken = ground (arith, v.workers_woken);
  callers_woken = ground (arith, v.callers_woken);
}
take-Inv threads (task ∷ rest) s v = record {
  bounded = ground (arith, v.bounded);
  in_order = ground (arith, v.in_order, append_assoc s.taken (task ∷ []) rest);
  workers = ground (arith, v.workers);
  workers_woken = ground (arith, v.workers_woken);
  callers_woken = ground (arith, v.callers_woken);
}

pub Step-Inv : (threads : ℕ) {s t : ThreadPool} → Step s t → Inv threads s → Inv threads t
unfolding stop
Step-Inv threads {s} (caller_enters task) v = run-Inv threads task s (record {
  bounded = v.bounded;
  in_order = v.in_order;
  workers = v.workers;
  workers_woken = v.workers_woken;
  callers_woken = ground (arith, v.callers_woken);
})
Step-Inv threads {s} (caller_resumes task n e) v = run-Inv threads task _ (record {
  bounded = v.bounded;
  in_order = v.in_order;
  workers = v.workers;
  workers_woken = v.workers_woken;
  callers_woken = ground (arith, v.callers_woken);
})
Step-Inv threads {s} (caller_wakes n e) v = record {
  bounded = v.bounded;
  in_order = v.in_order;
  workers = v.workers;
  workers_woken = v.workers_woken;
  callers_woken = ground (arith, v.callers_woken);
}
Step-Inv threads {s} (worker_enters n e r) v = record {
  bounded = v.bounded;
  in_order = v.in_order;
  workers = ground (arith, v.workers);
  workers_woken = v.workers_woken;
  callers_woken = v.callers_woken;
}
Step-Inv threads {s} (worker_locks n e) v =
    take-Inv threads s.queue (record s { tested = n })
      (record {
        bounded = v.bounded;
        in_order = v.in_order;
        workers = ground (arith, v.workers);
        workers_woken = ground (arith, v.workers_woken);
        callers_woken = v.callers_woken;
      })
Step-Inv threads {s} (worker_leaves n e r) v = record {
  bounded = v.bounded;
  in_order = v.in_order;
  workers = ground (arith, v.workers);
  workers_woken = v.workers_woken;
  callers_woken = v.callers_woken;
}
Step-Inv threads {s} (worker_resumes n e) v =
    take-Inv threads s.queue (record s { woken_workers = n })
      (record {
        bounded = v.bounded;
        in_order = v.in_order;
        workers = ground (arith, v.workers);
        workers_woken = ground (arith, v.workers_woken);
        callers_woken = v.callers_woken;
      })
Step-Inv threads {s} (worker_wakes n e) v = record {
  bounded = v.bounded;
  in_order = v.in_order;
  workers = ground (arith, v.workers);
  workers_woken = ground (arith, v.workers_woken);
  callers_woken = v.callers_woken;
}
Step-Inv threads {s} (worker_finishes n e) v = record {
  bounded = v.bounded;
  in_order = v.in_order;
  workers = ground (arith, v.workers);
  workers_woken = v.workers_woken;
  callers_woken = v.callers_woken;
}
Step-Inv threads {s} stops v = record {
  bounded = v.bounded;
  in_order = v.in_order;
  workers = ground (arith, v.workers);
  workers_woken = λ h. ground (arith, v.workers_woken);
  callers_woken = v.callers_woken;
}

start-Inv : (max_size threads : ℕ) → Inv threads (start max_size threads)
unfolding start
start-Inv max_size threads = record {
  bounded = λ h. omega arith;
  in_order = refl;
  workers = omega arith;
  workers_woken = λ h. omega arith;
  callers_woken = λ h. absurd (omega arith);
}

-- In a pool that was started, under every interleaving of callers and workers, also with conditions
-- that wake for no reason: a bounded queue holds no more than its bound; the tasks are taken once,
-- in the order in which they were queued; no worker is lost; while a worker waits, at least as many
-- are on their way as there are tasks in the queue; and while a caller waits, at least as many are on
-- their way as there are free places.
pub Reach-Inv :
    (max_size threads : ℕ) (s : ThreadPool) → Reach (start max_size threads) s → Inv threads s
Reach-Inv max_size threads s here = start-Inv max_size threads
Reach-Inv max_size threads s (next r x) = Step-Inv threads x (Reach-Inv max_size threads _ r)
