-- ===== src/ThreadPool/Ending.antt =====
-- base/threadpool.cpp: the workers leave after `stop`, so that it can join them.
use kaycc.Prelude.{ℕ, zero, suc, ◌+◌, ◌*◌, ◌≤◌, ◌≡◌, refl, ◌⊎◌, inl, inr, List, [], ◌∷◌, arith}
use kaycc.ThreadPool.{
  ThreadPool, is_full, notify_not_empty, notify_not_full, run, take_task, stop, Step, Reach,
  caller_enters, caller_resumes, caller_wakes, worker_enters, worker_locks, worker_leaves,
  worker_resumes, worker_wakes, worker_finishes, stops, here, next,
}
use kaycc.ThreadPool.Stop.{Stopped, stop-Stopped}

-- The threads that have not left, and what is left for them to do: from a wait to a task to the test of
-- `running_` to the end.
abbrev pub threads : ThreadPool → ℕ
threads s = s.idle + s.tested + s.working + s.blocked_workers + s.woken_workers

abbrev work : ThreadPool → ℕ
work s = 3 * s.woken_workers + 3 * s.tested + 2 * s.working + s.idle

pub is_worker : {s t : ThreadPool} → Step s t → ℕ
is_worker (caller_enters task) = 0
is_worker (caller_resumes task n e) = 0
is_worker (caller_wakes n e) = 0
is_worker (worker_enters n e r) = 1
is_worker (worker_locks n e) = 1
is_worker (worker_leaves n e r) = 1
is_worker (worker_resumes n e) = 1
is_worker (worker_wakes n e) = 1
is_worker (worker_finishes n e) = 1
is_worker stops = 0

-- The steps of workers on the way.
pub worker_steps : {s t : ThreadPool} → Reach s t → ℕ
worker_steps here = 0
worker_steps (next r x) = worker_steps r + is_worker x

run-work : (task : ℕ) (s : ThreadPool) → Stopped s → work (run task s) ≡ work s
unfolding run notify_not_empty is_full
run-work task s v = ground (arith, v.none_blocked)

take-work :
    (queue : List ℕ) (s : ThreadPool)
    → Stopped s
    → work (take_task (record s { queue = queue })) ≤ work s + 2
unfolding take_task notify_not_full
take-work [] s v = ground (arith, v.down)
take-work (task ∷ rest) s v = ground (arith, v.down)

-- Each step of a worker leaves less to do, and no other step leaves more.
Step-work : {s t : ThreadPool} (x : Step s t) → Stopped s → is_worker x + work t ≤ work s
unfolding is_worker stop
Step-work {s} (caller_enters task) v = omega (arith, run-work task s v)
Step-work {s} (caller_resumes task n e) v = omega (
  arith,
  run-work task (record s { woken_callers = n })
      (record { down = v.down; none_blocked = v.none_blocked }),
)
Step-work {s} (caller_wakes n e) v = omega arith
Step-work {s} (worker_enters n e r) v = absurd (ground (arith, v.down, r))
Step-work {s} (worker_locks n e) v = omega (
  arith,
  e,
  take-work s.queue (record s { tested = n })
      (record { down = v.down; none_blocked = v.none_blocked }),
)
Step-work {s} (worker_leaves n e r) v = omega arith
Step-work {s} (worker_resumes n e) v = omega (
  arith,
  e,
  take-work s.queue (record s { woken_workers = n })
      (record { down = v.down; none_blocked = v.none_blocked }),
)
Step-work {s} (worker_wakes n e) v = absurd (omega (arith, v.none_blocked))
Step-work {s} (worker_finishes n e) v = omega arith
Step-work {s} stops v = omega (arith, v.none_blocked)

Reach-work :
    (s : ThreadPool) {t : ThreadPool} (r : Reach (stop s) t)
    → worker_steps r + work t ≤ work (stop s)
unfolding worker_steps
Reach-work s here = omega arith
Reach-work s (next {t} r x) = omega (arith, Reach-work s r, Step-work x (stop-Stopped s t r))

-- A worker can go on.
abbrev pub GoesOn : ThreadPool → Type 0
GoesOn t = (u : ThreadPool) × (x : Step t u) × (is_worker x ≡ 1)

goes_on :
    (t : ThreadPool) (w k p i : ℕ)
    → Stopped t
    → t.woken_workers ≡ w
    → t.working ≡ k
    → t.tested ≡ p
    → t.idle ≡ i
    → (threads t ≡ 0) ⊎ GoesOn t
unfolding is_worker
goes_on t (suc w) k p i v a b d c =
    inr (take_task (record t { woken_workers = w }), worker_resumes w (omega (arith, a)), refl)
goes_on t zero (suc k) p i v a b d c =
    inr (record t { working = k; idle = t.idle + 1 }, worker_finishes k (omega (arith, b)), refl)
goes_on t zero zero (suc p) i v a b d c =
    inr (take_task (record t { tested = p }), worker_locks p (omega (arith, d)), refl)
goes_on t zero zero zero (suc i) v a b d c =
    inr (
      record t { idle = i; exited = t.exited + 1 },
      worker_leaves i (omega (arith, c)) v.down,
      refl,
    )
goes_on t zero zero zero zero v a b d c = inl (omega (arith, a, b, d, c, v.none_blocked))

-- From `stop()` on, under every interleaving with the callers of `run`, also with workers that had
-- tested `running_` before and take a task behind it, the workers take at most three
-- steps for each thread; and as long as a thread is left, a worker can go on. So after finitely many
-- steps of workers all threads have left, and the joining of `stop` comes to its end.
pub stop_ends :
    (s t : ThreadPool) (r : Reach (stop s) t)
    → (worker_steps r ≤ 3 * threads s) × ((threads t ≡ 0) ⊎ GoesOn t)
unfolding stop
stop_ends s t r = (
  omega (arith, Reach-work s r),
  goes_on t t.woken_workers t.working t.tested t.idle (stop-Stopped s t r) refl refl refl refl,
)
