-- ===== src/TimerQueue/Sets.antt =====
-- `std::set` of pairs, as net/timerqueue.h uses it: a list in strictly ascending order.
pub mod Ranges
use kaycc.Prelude.{
  ℕ, ◌+◌, ◌≡◌, refl, ap, ◌∙◌, Bool, true, false, not, ◌&&◌, ◌||◌, List, [], ◌∷◌, ◌++◌, length, ltb,
  ◌==◌, if◌then◌else◌, All, All-map, arith, Bool-cases, inl, inr,
}

-- A timestamp and an address, or an address and a sequence number.
abbrev pub Entry : Type 0
Entry = ℕ × ℕ

-- `operator<` of `std::pair`
unfoldable pub less : Entry → Entry → Bool
less x y = ltb x.0 y.0 || (x.0 == y.0 && ltb x.1 y.1)

unfoldable pub same : Entry → Entry → Bool
same x y = x.0 == y.0 && x.1 == y.1

-- `find(x) != end()`
unfoldable pub contains : Entry → List Entry → Bool
unfolding same
contains x [] = false
contains x (y ∷ ys) = same x y || contains x ys

pub insert : Entry → List Entry → List Entry
insert x [] = x ∷ []
insert x (y ∷ ys) =
    let rest = insert x ys in
    if less x y then x ∷ y ∷ ys else (if less y x then y ∷ rest else y ∷ ys)

pub erase : Entry → List Entry → List Entry
erase x [] = []
erase x (y ∷ ys) = let rest = erase x ys in if same x y then ys else y ∷ rest

-- The range before `lower_bound(x)`, and the range from it on.
pub before : Entry → List Entry → List Entry
before x [] = []
before x (y ∷ ys) = let rest = before x ys in if less y x then y ∷ rest else []

pub from : Entry → List Entry → List Entry
from x [] = []
from x (y ∷ ys) = let rest = from x ys in if less y x then rest else y ∷ ys

abbrev pub Sorted : List Entry → Type 0
Sorted [] = Unit
Sorted (x ∷ xs) = All (λ y. less x y ≡ true) xs × Sorted xs

same_both : (x y : Entry) → less x y ≡ false → less y x ≡ false → same x y ≡ true
unfolding less same
same_both x y h k = ground arith

less-same : (x y z : Entry) → less x y ≡ true → same z y ≡ true → less x z ≡ true
unfolding less same
less-same x y z h k = ground arith

less_trans : (x y z : Entry) → less x y ≡ true → less y z ≡ true → less x z ≡ true
unfolding less
less_trans x y z h k = ground arith

less_not_same : (x y : Entry) → less x y ≡ true → same x y ≡ false
unfolding less same
less_not_same x y h = ground arith

same_sym : (x y : Entry) → same x y ≡ same y x
unfolding same
same_sym x y = ground arith

same_trans : (x y z : Entry) → same x y ≡ true → same z x ≡ same z y
unfolding same
same_trans x y z h = ground arith

pub contains-insert :
    (x y : Entry) (xs : List Entry) → contains y (insert x xs) ≡ (same y x || contains y xs)
unfolding contains insert
contains-insert x y [] = refl
contains-insert x y (z ∷ zs) =
    ground (arith, contains-insert x y zs, same_both x z, same_trans x z y)

pub length-insert :
    (x : Entry) (xs : List Entry) → contains x xs ≡ false → length (insert x xs) ≡ 1 + length xs
unfolding contains insert
length-insert x [] h = omega arith
length-insert x (z ∷ zs) h = ground (arith, length-insert x zs, same_both x z)

All-insert :
    (z x : Entry) (xs : List Entry)
    → less z x ≡ true
    → All (λ y. less z y ≡ true) xs
    → All (λ y. less z y ≡ true) (insert x xs)
unfolding insert
All-insert z x [] h k = (h, tt)
All-insert z x (y ∷ ys) h k = ground (arith, All-insert z x ys)

pub insert-Sorted : (x : Entry) (xs : List Entry) → Sorted xs → Sorted (insert x xs)
unfolding insert
insert-Sorted x [] s = (tt, tt)
insert-Sorted x (y ∷ ys) s = elim (Bool-cases (less x y)) [
  | inl e ↦ rw e ((e, All-map _ _ ys (λ z h. less_trans x y z e h) s.0), s)
  | inr e ↦ rw e (elim (Bool-cases (less y x)) [
    | inl f ↦ rw f (All-insert y x ys f s.0, insert-Sorted x ys s.1)
    | inr f ↦ rw f s
  ])
]

pub length-erase :
    (x : Entry) (xs : List Entry) → contains x xs ≡ true → 1 + length (erase x xs) ≡ length xs
unfolding contains erase
length-erase x [] h = absurd (ground arith)
length-erase x (z ∷ zs) h = ground (arith, length-erase x zs)

above-contains :
    (x y : Entry) (ys : List Entry)
    → All (λ z. less x z ≡ true) ys
    → same y x ≡ true
    → contains y ys ≡ false
unfolding contains
above-contains x y [] a e = refl
above-contains x y (z ∷ zs) a e = ground (
  arith,
  above-contains x y zs a.1 e,
  less_not_same x z a.0,
  same_sym x y,
  same_sym x z,
  same_sym y z,
  same_trans x y z,
)

pub contains-erase :
    (x y : Entry) (xs : List Entry)
    → Sorted xs
    → contains y (erase x xs) ≡ (not (same y x) && contains y xs)
unfolding contains erase
contains-erase x y [] s = ground arith
contains-erase x y (z ∷ zs) s = ground (
  arith,
  contains-erase x y zs s.1,
  same_trans x z y,
  same_trans y x z,
  same_sym y z,
  same_sym x z,
  above-contains z y zs s.0,
)

above-All :
    (x y : Entry) (ys : List Entry)
    → All (λ z. less x z ≡ true) ys
    → less y x ≡ true
    → All (λ z. less y z ≡ true) ys
above-All x y ys a e = All-map _ _ ys (λ z h. less_trans y x z e h) a

All-erase :
    (z x : Entry) (xs : List Entry)
    → All (λ y. less z y ≡ true) xs
    → All (λ y. less z y ≡ true) (erase x xs)
unfolding erase
All-erase z x [] h = tt
All-erase z x (y ∷ ys) h = ground (arith, All-erase z x ys h.1)

pub erase-Sorted : (x : Entry) (xs : List Entry) → Sorted xs → Sorted (erase x xs)
unfolding erase
erase-Sorted x [] s = tt
erase-Sorted x (y ∷ ys) s = elim (Bool-cases (same x y)) [
  | inl e ↦ rw e s.1
  | inr e ↦ rw e (All-erase y x ys s.0, erase-Sorted x ys s.1)
]
