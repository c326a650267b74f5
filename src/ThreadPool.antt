-- ===== src/ThreadPool.antt =====
-- base/threadpool.h and threadpool.cpp: a pool of threads over one bounded queue. A task is a number.
-- Each critical section is a function; `Step` interleaves them. Where threads stand is kept as
-- counts, and the conditions may also wake a thread for no reason.
pub mod Invariant
pub mod Stop
pub mod Ending
pub mod Members
mod Tests
use kaycc.Prelude.{
  ℕ, ◌+◌, ◌-◌, ◌≡◌, Bool, true, false, not, ◌&&◌, Option, none, some, List, [], ◌∷◌, ◌++◌, length,
  ltb, leb, ◌==◌, if◌then◌else◌,
}

pub record ThreadPool : Type 0 where
  pub max_queue_size : ℕ
  pub queue : List ℕ
  pub running : Bool
  -- Workers before the test of `running_`, between it and the lock of `takeTask`, in a task, in
  -- `notEmpty_.wait()`, and leaving that.
  pub idle : ℕ
  pub tested : ℕ
  pub working : ℕ
  pub blocked_workers : ℕ
  pub woken_workers : ℕ
  pub exited : ℕ
  -- Callers of `run` in `notFull_.wait()`, and leaving that.
  pub blocked_callers : ℕ
  pub woken_callers : ℕ
  -- The tasks that were ever queued, and those that were taken.
  pub pushed : List ℕ
  pub taken : List ℕ

-- `start(numThreads)` of a new pool with that `maxQueueSize_`.
unfoldable pub start : ℕ → ℕ → ThreadPool
start max_size num_threads = record {
  max_queue_size = max_size;
  queue = [];
  running = true;
  idle = num_threads;
  tested = 0;
  working = 0;
  blocked_workers = 0;
  woken_workers = 0;
  exited = 0;
  blocked_callers = 0;
  woken_callers = 0;
  pushed = [];
  taken = [];
}

unfoldable pub is_full : ThreadPool → Bool
is_full s = ltb 0 s.max_queue_size && leb s.max_queue_size (length s.queue)

-- `notEmpty_.notify()`
unfoldable pub notify_not_empty : ThreadPool → ThreadPool
notify_not_empty s =
    if s.blocked_workers == 0
    then s
    else record s { blocked_workers = s.blocked_workers - 1; woken_workers = s.woken_workers + 1 }

-- `notFull_.notify()`
unfoldable pub notify_not_full : ThreadPool → ThreadPool
notify_not_full s =
    if s.blocked_callers == 0
    then s
    else record s { blocked_callers = s.blocked_callers - 1; woken_callers = s.woken_callers + 1 }

-- `run`, on a pool with threads, from taking the lock to waiting or returning.
unfoldable pub run : ℕ → ThreadPool → ThreadPool
unfolding is_full notify_not_empty
run task s =
    if is_full s
    then record s { blocked_callers = s.blocked_callers + 1 }
    else notify_not_empty
        (record s { queue = s.queue ++ task ∷ []; pushed = s.pushed ++ task ∷ [] })

-- `takeTask`, from taking the lock to waiting or returning; an empty task is not run.
unfoldable pub take_task : ThreadPool → ThreadPool
unfolding notify_not_full
take_task s = elim s.queue [
  | [] ↦
      if s.running
      then record s { blocked_workers = s.blocked_workers + 1 }
      else record s { idle = s.idle + 1 }
  | task ∷ rest ↦
      let t : ThreadPool = record s {
        queue = rest;
        taken = s.taken ++ task ∷ [];
        working = s.working + 1;
      } in
      if ltb 0 s.max_queue_size then notify_not_full t else t
]

-- `stop`, up to the joining of the threads.
unfoldable pub stop : ThreadPool → ThreadPool
stop s = record s {
  running = false;
  blocked_workers = 0;
  woken_workers = s.woken_workers + s.blocked_workers;
}

pub data Step (s : ThreadPool) : ThreadPool → Type 0 where
  caller_enters : (task : ℕ) → Step s (run task s)
  caller_resumes :
      (task n : ℕ) → s.woken_callers ≡ n + 1 → Step s (run task (record s { woken_callers = n }))
  caller_wakes :
      (n : ℕ)
      → s.blocked_callers ≡ n + 1
      → Step s (record s { blocked_callers = n; woken_callers = s.woken_callers + 1 })
  -- The test of `while (running_)`, which is not under the lock, and then the lock of `takeTask`.
  worker_enters :
      (n : ℕ)
      → s.idle ≡ n + 1
      → s.running ≡ true
      → Step s (record s { idle = n; tested = s.tested + 1 })
  worker_locks : (n : ℕ) → s.tested ≡ n + 1 → Step s (take_task (record s { tested = n }))
  worker_leaves :
      (n : ℕ)
      → s.idle ≡ n + 1
      → s.running ≡ false
      → Step s (record s { idle = n; exited = s.exited + 1 })
  worker_resumes :
      (n : ℕ) → s.woken_workers ≡ n + 1 → Step s (take_task (record s { woken_workers = n }))
  worker_wakes :
      (n : ℕ)
      → s.blocked_workers ≡ n + 1
      → Step s (record s { blocked_workers = n; woken_workers = s.woken_workers + 1 })
  worker_finishes :
      (n : ℕ) → s.working ≡ n + 1 → Step s (record s { working = n; idle = s.idle + 1 })
  stops : Step s (stop s)

pub data Reach (s : ThreadPool) : ThreadPool → Type 0 where
  here : Reach s s
  next : {t u : ThreadPool} → Reach s t → Step t u → Reach s u
