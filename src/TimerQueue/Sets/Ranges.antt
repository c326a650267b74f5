-- ===== src/TimerQueue/Sets/Ranges.antt =====
-- The two sides of `lower_bound` in a `std::set` of pairs.
use kaycc.Prelude.{
  ℕ, ◌<◌, ◌≡◌, refl, true, false, List, [], ◌∷◌, ◌++◌, All, All-map, arith, Bool-cases, inl, inr,
}
use kaycc.TimerQueue.Sets.{Entry, less, same, contains, erase, before, from, Sorted, less-same}

not_above : (x y : Entry) → less y x ≡ false → (z : Entry) → less y z ≡ true → less z x ≡ false
unfolding less
not_above x y h z k = ground arith

-- Splitting at a bound loses nothing, and puts what is below it first.
pub before-from : (x : Entry) (xs : List Entry) → before x xs ++ from x xs ≡ xs
unfolding before from
before-from x [] = refl
before-from x (y ∷ ys) = ground (arith, before-from x ys)

pub before-All : (x : Entry) (xs : List Entry) → All (λ y. less y x ≡ true) (before x xs)
unfolding before
before-All x [] = tt
before-All x (y ∷ ys) = elim (Bool-cases (less y x)) [
  | inl e ↦ rw e (e, before-All x ys)
  | inr e ↦ rw e tt
]

pub from-All : (x : Entry) (xs : List Entry) → Sorted xs → All (λ y. less y x ≡ false) (from x xs)
unfolding from
from-All x [] s = tt
from-All x (y ∷ ys) s = elim (Bool-cases (less y x)) [
  | inl e ↦ rw e (from-All x ys s.1)
  | inr e ↦ rw e (e, All-map _ _ ys (not_above x y e) s.0)
]

pub contains-head : (x : Entry) (xs : List Entry) → contains x (x ∷ xs) ≡ true
unfolding contains same
contains-head x xs = ground arith

pub erase-head : (x : Entry) (xs : List Entry) → erase x (x ∷ xs) ≡ xs
unfolding erase same
erase-head x xs = ground arith

pub All-from {κ} : (P : Entry → Type κ) (x : Entry) (xs : List Entry) → All P xs → All P (from x xs)
unfolding from
All-from P x [] h = tt
All-from P x (y ∷ ys) h = elim (Bool-cases (less y x)) [
  | inl e ↦ rw e (All-from P x ys h.1)
  | inr e ↦ rw e h
]

not_below : (x y z : Entry) → less z x ≡ true → less y x ≡ false → same y z ≡ false
unfolding less same
not_below x y z h k = ground arith

above_contains :
    (y z : Entry) (zs : List Entry)
    → All (λ w. less z w ≡ true) zs
    → contains y zs ≡ true
    → less z y ≡ true
unfolding contains
above_contains y z [] a c = absurd (ground arith)
above_contains y z (w ∷ ws) a c = ground (arith, above_contains y z ws a.1, less-same z w y a.0)

less_asym : (x y : Entry) → less x y ≡ true → less y x ≡ false
unfolding less
less_asym x y h = ground arith

same_not_less : (x y : Entry) → same x y ≡ true → less x y ≡ false
unfolding less same
same_not_less x y h = ground arith

first_above :
    (y z : Entry) (zs : List Entry)
    → All (λ w. less z w ≡ true) zs
    → contains y (z ∷ zs) ≡ true
    → less y z ≡ false
unfolding contains
first_above y z zs a c = ground (arith, same_not_less y z, less_asym z y, above_contains y z zs a)

-- An entry that is not below the bound is not before the first of the range.
pub from-head :
    (x y : Entry) (xs : List Entry)
    → Sorted xs
    → contains y xs ≡ true
    → less y x ≡ false
    → (z : Entry) × (zs : List Entry) × (from x xs ≡ z ∷ zs)
      × (less y z ≡ false)
      × (less z x ≡ false)
unfolding contains from
from-head x y [] s c h = absurd (ground arith)
from-head x y (z ∷ zs) s c h = elim (Bool-cases (less z x)) [
  | inl e ↦
      let (f, fs, g, n, m) = from-head x y zs s.1 (ground (arith, not_below x y z e h)) h in
      (f, fs, rw e g, n, m)
  | inr e ↦ (z, zs, rw e refl, first_above y z zs s.0 c, e)
]

pub contains_cons :
    (x y : Entry) (ys : List Entry) → contains x ys ≡ true → contains x (y ∷ ys) ≡ true
unfolding contains
contains_cons x y ys h = ground arith

pub contains_append :
    (x : Entry) (xs ys : List Entry) → contains x xs ≡ true → contains x (xs ++ ys) ≡ true
unfolding contains
contains_append x [] ys h = absurd (ground arith)
contains_append x (y ∷ xs) ys h = ground (arith, contains_append x xs ys)

pub later_contains :
    (now when p : ℕ) (es : List Entry)
    → All (λ e. now < e.0) es
    → contains (when, p) es ≡ true
    → now < when
unfolding contains same
later_contains now when p [] h c = absurd (ground arith)
later_contains now when p (e ∷ es) h c = ground (arith, later_contains now when p es h.1)
