-- ===== src/Thread/Names.antt =====
-- base/thread.cpp: the names of threads, which are counted with an atomic integer of 32 bits.
use kaycc.Prelude.{
  ℕ, ◌+◌, ◌-◌, ◌^◌, ◌<◌, ◌≡◌, ap, ◌∙◌, List, [], ◌∷◌, ◌++◌, length, length-append, take, take_all,
  Checked, ok, ◌>>=◌, arith,
}
use kaycc.Prelude.Decimal.{decimal, length-digits}
use kaycc.Atomic.{increment_and_get, get}
use kaycc.Atomic.Counter.{call, draws_lem}

-- "Thread"
abbrev pub thread_word : List ℕ
thread_word = b'T' ∷ b'h' ∷ b'r' ∷ b'e' ∷ b'a' ∷ b'd' ∷ []

-- `setDefaultName` on the name that was given and `numCreated_`: the name, and the counter afterwards.
unfoldable pub set_default_name : List ℕ → ℕ → Checked (List ℕ × ℕ)
set_default_name name num_created = do
  (num, created) ← increment_and_get (2 ^ 31) num_created
  ok (elim name [ [] ↦ take (32 - 1) (thread_word ++ decimal num) | c ∷ cs ↦ c ∷ cs ], created)

-- `numCreated()`
unfoldable pub num_created : ℕ → ℕ
num_created counter = (get (2 ^ 31) counter).0

-- Threads are made with these names, one after the other.
pub make_all : List (List ℕ) → ℕ → Checked (List (List ℕ) × ℕ)
make_all [] n = ok ([], n)
make_all (name ∷ names) n = do
  (first, created) ← set_default_name name n
  (others, m) ← make_all names created
  ok (first ∷ others, m)

-- A name that is given stays; one that is not is the word and the number of the thread.
abbrev pub named : List ℕ → ℕ → List ℕ
named [] k = thread_word ++ decimal k
named (c ∷ cs) k = c ∷ cs

unfoldable pub all_named : List (List ℕ) → ℕ → List (List ℕ)
all_named [] n = []
all_named (name ∷ names) n = named name (n + 1) ∷ all_named names (n + 1)

default_whole : (k : ℕ) → k < 2 ^ 31 → take 31 (thread_word ++ decimal k) ≡ thread_word ++ decimal k
default_whole k h =
    take_all 31 (thread_word ++ decimal k)
      (omega (arith, length-append thread_word (decimal k), length-digits 20 k 9 (omega arith)))

set_default_name_lem :
    (name : List ℕ) (n : ℕ)
    → n + 1 < 2 ^ 31
    → set_default_name name n ≡ ok (named name (n + 1), n + 1)
unfolding set_default_name call
set_default_name_lem [] n h =
    ap (λ r. r >>= λ d. ok (take 31 (thread_word ++ decimal d.0), d.1)) (draws_lem (2 ^ 31) n h)
    ∙ ap (λ t. ok (t, n + 1)) (default_whole (n + 1) h)
set_default_name_lem (c ∷ cs) n h = ap (λ r. r >>= λ d. ok (c ∷ cs, d.1)) (draws_lem (2 ^ 31) n h)

-- As long as fewer than 2 ^ 31 threads have been made: each thread has the name that was given, or, if that
-- was empty, "Thread" and its number, counted from the first thread of the program, in full; and the
-- counter is the number of the threads.
pub make_all_lem :
    (names : List (List ℕ)) (n m : ℕ)
    → m ≡ n + length names
    → m < 2 ^ 31
    → make_all names n ≡ ok (all_named names n, m)
unfolding make_all all_named
make_all_lem [] n m e h = ap (λ k. ok ([], k)) (omega (arith, e))
make_all_lem (name ∷ names) n m e h =
    ap (λ r. r >>= λ one. make_all names one.1 >>= λ rest. ok (one.0 ∷ rest.0, rest.1))
      (set_default_name_lem name n (omega (arith, e)))
    ∙ ap (λ r. r >>= λ rest. ok (named name (n + 1) ∷ rest.0, rest.1))
        (make_all_lem names (n + 1) m (omega (arith, e)) h)
