-- ===== src/Atomic/Counter.antt =====
-- base/atomic.h: the counters of `Timer` and of `Thread`, on which every thread calls
-- `incrementAndGet` and `get`.
use kaycc.Prelude.{
  ℕ, suc, ◌+◌, ◌*◌, ◌%◌, ◌<◌, ◌≡◌, refl, sym, ap, ◌∙◌, lt→ltb, ltb→lt, le→not_ltb, Bool-cases, inl,
  inr, Bool, true, false, List, [], ◌∷◌, ltb, if◌then◌else◌, Checked, ok, err, undefined, ◌>>=◌,
  arith,
}
use kaycc.Atomic.{
  plus, get, get_and_add, compare_and_swap, fetch_and_add, add_and_get, increment_and_get,
}
use native.Mathlib.Nat.{mod-eq_of_lt}

-- A call of some thread; the primitives order the calls of all of them.
pub data Call : Type 0 where
  draws reads : Call

-- How many numbers the calls draw.
unfoldable pub drawn : List Call → ℕ
drawn [] = 0
drawn (draws ∷ cs) = suc (drawn cs)
drawn (reads ∷ cs) = drawn cs

-- What a counter answers that never overflows and that a read leaves alone.
unfoldable pub answers : List Call → ℕ → List ℕ
answers [] n = []
answers (draws ∷ cs) n = (n + 1) ∷ answers cs (n + 1)
answers (reads ∷ cs) n = n ∷ answers cs n

module _ (half : ℕ) where
  unfoldable pub call : Call → ℕ → Checked (ℕ × ℕ)
  call draws value = increment_and_get half value
  call reads value = ok (get half value)

  -- The results in order, and the value at the end.
  pub calls : List Call → ℕ → Checked (List ℕ × ℕ)
  calls [] value = ok ([], value)
  calls (c ∷ cs) value = do
    one ← call c value
    others ← calls cs one.1
    ok (one.0 ∷ others.0, others.1)

  plus_one : (n : ℕ) → n + 1 < half → plus half n 1 ≡ ok (n + 1)
  unfolding plus
  plus_one n h = ground arith

  plus_last : (n : ℕ) → n + 1 ≡ half → 1 < half → plus half n 1 ≡ err undefined
  unfolding plus
  plus_last n h k = ground arith

  pub draws_lem : (n : ℕ) → n + 1 < half → call draws n ≡ ok (n + 1, n + 1)
  unfolding call increment_and_get add_and_get get_and_add fetch_and_add
  draws_lem n h =
      let small : (n + 1) % (2 * half) ≡ n + 1 = mod-eq_of_lt (omega arith) in
      ap (λ r. r >>= λ result. ok (result, (n + 1) % (2 * half))) (plus_one n h)
      ∙ ap (λ m. ok (n + 1, m)) small

  draws_last : (n : ℕ) → n + 1 ≡ half → 1 < half → call draws n ≡ err undefined
  unfolding call increment_and_get add_and_get get_and_add fetch_and_add
  draws_last n h k = ap (λ r. r >>= λ result. ok (result, (n + 1) % (2 * half))) (plus_last n h k)

  reads_lem : (n : ℕ) → call reads n ≡ ok (n, n)
  unfolding call get compare_and_swap
  reads_lem n = ground arith

  -- The rest of the calls, when a call has answered.
  abbrev then_calls : List Call → Checked (ℕ × ℕ) → Checked (List ℕ × ℕ)
  then_calls cs r = r >>= λ one. calls cs one.1 >>= λ others. ok (one.0 ∷ others.0, others.1)

  then_calls_lem :
      (cs : List Call) (x n : ℕ) (b : Bool) (xs : List ℕ) (m : ℕ)
      → calls cs n ≡ (if b then ok (xs, m) else err undefined)
      → then_calls cs (ok (x, n)) ≡ (if b then ok (x ∷ xs, m) else err undefined)
  then_calls_lem cs x n true xs m h = ap (λ r. r >>= λ others. ok (x ∷ others.0, others.1)) h
  then_calls_lem cs x n false xs m h = ap (λ r. r >>= λ others. ok (x ∷ others.0, others.1)) h

  calls_total :
      (cs : List Call) (n m : ℕ)
      → 1 < half
      → n < half
      → m ≡ n + drawn cs
      → calls cs n ≡ (if ltb m half then ok (answers cs n, m) else err undefined)
  unfolding calls drawn answers
  calls_total [] n m h k total =
      let same : n ≡ m = omega arith in
      ap (λ a. ok ([], a)) same
      ∙ sym (ap (λ b. if b then ok ([], m) else err undefined) (lt→ltb m half (omega arith)))
  calls_total (draws ∷ cs) n m h k total = elim (Bool-cases (ltb (n + 1) half)) [
    | inl more ↦
        let fits = ltb→lt (n + 1) half more in
        let rest = calls_total cs (n + 1) m h fits (omega arith) in
        ap (then_calls cs) (draws_lem n fits) ∙ then_calls_lem cs (n + 1) (n + 1) _ _ _ rest
    | inr last ↦
        let full : n + 1 ≡ half = ground arith in
        ap (then_calls cs) (draws_last n full h)
        ∙ sym (
            ap (λ b. if b then ok (answers (draws ∷ cs) n, m) else err undefined)
              (le→not_ltb m half (omega arith)))
  ]
  calls_total (reads ∷ cs) n m h k total =
      ap (then_calls cs) (reads_lem n) ∙ then_calls_lem cs n n _ _ _ (calls_total cs n m h k total)

  -- Calls of `incrementAndGet` and `get` on a counter, in the order of their primitives: until the counter
  -- reaches the largest value of the type, each draw gives the next number and each read the number of the
  -- draws so far, and the counter is the number of draws; one draw more is undefined.
  pub calls_lem :
      (cs : List Call) (n : ℕ)
      → 1 < half
      → n < half
      → calls cs n
        ≡ (if ltb (n + drawn cs) half then ok (answers cs n, n + drawn cs) else err undefined)
  calls_lem cs n h k = calls_total cs n (n + drawn cs) h k refl
