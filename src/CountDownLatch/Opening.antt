-- ===== src/CountDownLatch/Opening.antt =====
-- base/count_down_latch.cpp: the latch opens with the last count, for all that wait.
use kaycc.Prelude.{
  ℕ, zero, suc, ◌+◌, ◌-◌, ◌≤◌, ◌<◌, ◌≡◌, refl, arith, ltb, leb, ◌==◌, Bool-cases, if◌then◌else◌, ℤ,
  pos, negsuc, subst, ltb→lt, false, ok, err, undefined, ◌^◌, eq_ℤ, ap, ◌∙◌, inl, inr, ◌⊎◌,
}
use kaycc.CountDownLatch.{
  CountDownLatch, construct, wait, count_down, open_if_zero, get_count, decrement, is_positive,
  Step, enters, resumes, wakes, counts, Reach, here, next,
}

-- What `d` calls of `countDown` leave of the count `n`.
pub left : ℕ → ℕ → ℤ
left n d = if leb d n then pos (n - d) else negsuc (d - n - 1)

decrement-pos : (k : ℕ) → 0 < k → decrement (pos k) ≡ ok (pos (k - 1))
unfolding decrement
decrement-pos zero h = absurd (omega arith)
decrement-pos (suc k) h = ap ok (ap pos (omega arith))

-- The count after one more call, where there is one.
decrement-left : (n d : ℕ) → d < n + 2 ^ 31 → decrement (left n d) ≡ ok (left n (d + 1))
unfolding left decrement
decrement-left n d h = elim (Bool-cases (leb d n)) [
  | inl e ↦ elim (Bool-cases (d == n)) [
    | inl z ↦ let empty : n - d ≡ 0 = ground arith in rw e (rw empty (ground arith))
    | inr z ↦ rw e (decrement-pos (n - d) (ground arith) ∙ ground arith)
  ]
  | inr e ↦ rw e (ground arith)
]

decrement-low : (n d : ℕ) → n + 2 ^ 31 ≤ d → decrement (left n d) ≡ err undefined
unfolding left decrement
decrement-low n d h = let e : leb d n ≡ false = ground arith in rw e (ground arith)

positive-left : (n d : ℕ) → is_positive (left n d) ≡ ltb d n
unfolding left
positive-left n d = ground arith

zero-left : (n d : ℕ) → eq_ℤ (left n d) (pos 0) ≡ (d == n)
unfolding left
zero-left n d = ground arith

-- For a latch made with the count `n`: what is left of it, that nobody is back too early, and that
-- nobody waits too long.
pub record Inv (n : ℕ) (s : CountDownLatch) : Type 0 where
  pub counted : s.count ≡ left n s.downs
  pub shut : s.downs < n → s.returned ≡ 0
  pub opened : n ≤ s.downs → s.blocked ≡ 0
  pub bounded : s.downs ≤ n + 2 ^ 31

wait-Inv : (n : ℕ) (s : CountDownLatch) → Inv n s → Inv n (wait s)
unfolding wait
wait-Inv n s v = ground (arith, v.counted, positive-left n s.downs)

open_if_zero-Inv :
    (n : ℕ) (s : CountDownLatch)
    → Inv n s
    → s.downs < n + 2 ^ 31
    → Inv n (open_if_zero (record s { count = left n (s.downs + 1); downs = s.downs + 1 }))
unfolding open_if_zero
open_if_zero-Inv n s v h = ground (arith, v.shut, v.opened, zero-left n (s.downs + 1))

count_down_enough :
    (n : ℕ) (s : CountDownLatch)
    → s.count ≡ left n s.downs
    → s.downs < n + 2 ^ 31
    → count_down s
      ≡ ok (open_if_zero (record s { count = left n (s.downs + 1); downs = s.downs + 1 }))
unfolding count_down
count_down_enough n s c h = rw c (rw (decrement-left n s.downs h) refl)

count_down_low :
    (n : ℕ) (s : CountDownLatch)
    → s.count ≡ left n s.downs
    → n + 2 ^ 31 ≤ s.downs
    → count_down s ≡ err undefined
unfolding count_down
count_down_low n s c h = rw c (rw (decrement-low n s.downs h) refl)

count_down-Inv : (n : ℕ) (s t : CountDownLatch) → count_down s ≡ ok t → Inv n s → Inv n t
count_down-Inv n s t e v = elim (Bool-cases (ltb s.downs (n + 2 ^ 31))) [
  | inl y ↦
      let h : s.downs < n + 2 ^ 31 = ltb→lt s.downs (n + 2 ^ 31) y in
      let same = count_down_enough n s v.counted h in subst (Inv n) (cc) (open_if_zero-Inv n s v h)
  | inr z ↦ let low = count_down_low n s v.counted (ground arith) in absurd (cc)
]

Step-Inv : (n : ℕ) {s t : CountDownLatch} → Step s t → Inv n s → Inv n t
Step-Inv n {s = s} enters v = wait-Inv n s v
Step-Inv n {s = s} (resumes m e) v =
    wait-Inv n (record s { woken = m })
      (record { counted = v.counted; shut = v.shut; opened = v.opened; bounded = v.bounded })
Step-Inv n (wakes m e) v = record {
  counted = v.counted;
  shut = v.shut;
  opened = λ h. absurd (omega (arith, v.opened h));
  bounded = v.bounded;
}
Step-Inv n {s = s} (counts t e) v = count_down-Inv n s t e v

construct-Inv : (n : ℕ) → Inv n (construct (pos n))
unfolding construct left
construct-Inv n = record {
  counted = ground arith;
  shut = λ h. refl;
  opened = λ h. refl;
  bounded = omega arith;
}

pub Reach-Inv : (n : ℕ) {s : CountDownLatch} → Reach (construct (pos n)) s → Inv n s
Reach-Inv n here = construct-Inv n
Reach-Inv n (next r st) = Step-Inv n st (Reach-Inv n r)

-- A latch that was made with a count `n` that an `int` holds, under every interleaving of threads that
-- wait and calls of `countDown` that do not overflow the `int`, also with a condition that wakes for no
-- reason: a thread that is back from `wait` shows that `countDown` was called at least `n` times; once
-- it was, no thread is left waiting; `getCount` is what is left of `n`, below 0 after more calls; and
-- no more than `n` and 2^31 calls of `countDown` are defined, fewer than 2^32.
pub latch_opens :
    (n : ℕ) (s : CountDownLatch)
    → n < 2 ^ 31
    → Reach (construct (pos n)) s
    → ((n ≤ s.downs) ⊎ (s.returned ≡ 0))
      × ((s.downs < n) ⊎ (s.blocked ≡ 0))
      × (get_count s ≡ left n s.downs)
      × (s.downs ≤ n + 2 ^ 31)
      × (s.downs < 2 ^ 32)
unfolding get_count
latch_opens n s small r =
    let v = Reach-Inv n r in
    let most : s.downs < 2 ^ 32 = omega (arith, v.bounded) in
    elim (Bool-cases (ltb s.downs n)) [
      | inl e ↦ (inr (v.shut (ground arith)), inl (ground arith), v.counted, v.bounded, most)
      | inr e ↦ (inl (ground arith), inr (v.opened (ground arith)), v.counted, v.bounded, most)
    ]
