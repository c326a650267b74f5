-- ===== src/ThreadPool/Members.antt =====
-- base/threadpool.h, base/threadpool.cpp: a pool from its constructor to its destructor, with the names of
-- its threads, and the pool without threads, which runs a task at once.
use kaycc.Prelude.{
  ℕ, zero, suc, ◌+◌, ◌-◌, ◌^◌, ◌<◌, ◌≡◌, refl, sym, ap, ap₂, ◌∙◌, Bool, true, false, ◌&&◌, List, [],
  ◌∷◌, ◌++◌, append-nil, append_assoc, length, take, take_all, ◌==◌, if◌then◌else◌, ℤ, pos, negsuc,
  Checked, ok, ◌>>◌, assert, Returns, arith,
}
use kaycc.Prelude.Decimal.{decimal, length-digits}
use kaycc.ThreadPool
use kaycc.ThreadPool.{ThreadPool, stop}

pub record Pool : Type 0 where
  pub name : List ℕ
  pub has_init_callback : Bool
  -- The names of `threads_`.
  pub threads : List (List ℕ)
  -- The queue, the flag and the workers.
  pub state : ThreadPool
  -- The tasks that were run at once, and the calls of the callback outside of the threads.
  pub ran : List ℕ
  pub init_calls : ℕ

unfoldable pub construct : List ℕ → Pool
unfolding ThreadPool.start
construct name = record {
  name = name;
  has_init_callback = false;
  threads = [];
  state = record (ThreadPool.start 0 0) { running = false };
  ran = [];
  init_calls = 0;
}

-- From an `int` to a `size_t`.
unfoldable pub set_max_queue_size : ℤ → Pool → Pool
set_max_queue_size (pos n) p = record p { state = record p.state { max_queue_size = n } }
set_max_queue_size (negsuc n) p = record p {
  state = record p.state { max_queue_size = 2 ^ 64 - (n + 1) };
}

unfoldable pub set_thread_init_callback : Pool → Pool
set_thread_init_callback p = record p { has_init_callback = true }

unfoldable pub queue_size : Pool → ℕ
queue_size p = length p.state.queue

-- The name of the thread `i`: `snprintf` of i + 1 into a buffer of 32, behind the name of the pool.
abbrev pub thread_name : List ℕ → ℕ → List ℕ
thread_name name i = name ++ take (32 - 1) (decimal (i + 1))

-- The loop of `start`, from the thread `i` on.
pub thread_names : List ℕ → ℕ → ℕ → List (List ℕ)
thread_names name i zero = []
thread_names name i (suc n) = thread_name name i ∷ thread_names name (i + 1) n

abbrev pub is_empty : List (List ℕ) → Bool
is_empty [] = true
is_empty (t ∷ ts) = false

unfoldable pub start : ℕ → Pool → Checked Pool
start num_threads p = do
  assert (is_empty p.threads)
  ok (record p {
    threads = thread_names p.name 0 num_threads;
    state = record p.state { running = true; idle = num_threads };
    init_calls = if num_threads == 0 && p.has_init_callback then p.init_calls + 1 else p.init_calls;
  })

-- `run`, from taking the lock to waiting or returning where there are threads.
unfoldable pub run : ℕ → Pool → Pool
run task p =
    if is_empty p.threads
    then record p { ran = p.ran ++ task ∷ [] }
    else record p { state = ThreadPool.run task p.state }

-- The destructor, up to the joining of the threads.
unfoldable pub destruct : Pool → Pool
destruct p = if p.state.running then record p { state = stop p.state } else p

pub run_all : List ℕ → Pool → Pool
run_all [] p = p
run_all (task ∷ tasks) p = run_all tasks (run task p)

-- The names that the loop makes are whole.
pub whole_names : List ℕ → ℕ → ℕ → List (List ℕ)
whole_names name i zero = []
whole_names name i (suc n) = (name ++ decimal (i + 1)) ∷ whole_names name (i + 1) n

pub thread_names-whole :
    (name : List ℕ) (i n : ℕ) → i + n < 2 ^ 31 → thread_names name i n ≡ whole_names name i n
unfolding thread_names whole_names
thread_names-whole name i zero h = refl
thread_names-whole name i (suc n) h =
    ap₂ (λ t ts. (name ++ t) ∷ ts)
      (take_all 31 (decimal (i + 1)) (omega (arith, length-digits 20 (i + 1) 9 (omega (arith, h)))))
      (thread_names-whole name (i + 1) n (omega (arith, h)))

inline_run :
    (task : ℕ) (p : Pool) → p.threads ≡ [] → run task p ≡ record p { ran = p.ran ++ task ∷ [] }
unfolding run
inline_run task p e =
    ap
      (λ b.
        if b
        then record p { ran = p.ran ++ task ∷ [] }
        else record p { state = ThreadPool.run task p.state })
      (ap is_empty e)

inline_run_all :
    (tasks : List ℕ) (p : Pool)
    → p.threads ≡ []
    → ((run_all tasks p).ran ≡ p.ran ++ tasks) × ((run_all tasks p).state ≡ p.state)
unfolding run_all
inline_run_all [] p e = (sym (append-nil p.ran), refl)
inline_run_all (task ∷ tasks) p e =
    let once = inline_run task p e in
    let (r, s) = inline_run_all tasks (run task p) (ap (λ q. q.threads) once ∙ e) in
    (
      r ∙ ap (λ q. q.ran ++ tasks) once ∙ append_assoc p.ran (task ∷ []) tasks,
      s ∙ ap (λ q. q.state) once,
    )

destruct-queue : (p : Pool) → (destruct p).state.queue ≡ p.state.queue
unfolding destruct stop
destruct-queue p = ground arith

-- A new pool that is started without threads calls the callback of its threads once, if it has one; it
-- runs every task that is given to it at once, in order, and queues none; and its destructor leaves none
-- behind.
pub inline_pool :
    (name tasks : List ℕ)
    → Returns (start 0 (set_thread_init_callback (construct name))) (λ p.
      (p.init_calls ≡ 1)
      × ((run_all tasks p).ran ≡ tasks)
      × (queue_size (destruct (run_all tasks p)) ≡ 0))
unfolding start set_thread_init_callback construct thread_names queue_size ThreadPool.start
inline_pool name tasks =
    let p : Pool = record (construct name) {
      has_init_callback = true;
      state = ThreadPool.start 0 0;
      init_calls = 1;
    } in
    let (r, s) = inline_run_all tasks p refl in
    (refl, r, ap length (destruct-queue (run_all tasks p) ∙ ap (λ t. t.queue) s))
