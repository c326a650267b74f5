-- ===== src/Prelude/Decimal.antt =====
-- What `printf` writes for an unsigned number: its decimal digits, as characters.
use Prim.Native.Nat.{ℕ, zero, suc, ◌+◌, ◌-◌, ◌*◌, ◌/◌, ◌%◌, ◌^◌, ◌≤◌, ◌<◌}
use mathlib.Core.Path.{◌≡◌, refl, ◌∙◌, ap}
use mathlib.Core.Logic.{inl, inr}
use mathlib.Core.List.{List, [], ◌∷◌, ◌++◌}
use native.Mathlib.Omega.{arith}
use kaycc.Prelude.Tests.{ltb, if◌then◌else◌, Bool-cases}
use kaycc.Prelude.Lists.{length, length-append}

-- With room for `w` digits.
unfoldable pub digits : ℕ → ℕ → List ℕ
digits zero n = []
digits (suc w) n =
    let more = digits w (n / 10) ++ (48 + n % 10) ∷ [] in if ltb n 10 then (48 + n) ∷ [] else more

-- "%u" and its kin: 20 digits are enough for 64 bits.
abbrev pub decimal : ℕ → List ℕ
decimal n = digits 20 n

-- "%06u", for a number below 10 ^ 6: that many digits, with leading zeros.
unfoldable pub padded : ℕ → ℕ → List ℕ
padded zero n = []
padded (suc w) n = padded w (n / 10) ++ (48 + n % 10) ∷ []

-- The number that digits stand for, read from the left onto `acc`.
unfoldable pub read_digits : ℕ → List ℕ → ℕ
read_digits acc [] = acc
read_digits acc (c ∷ cs) = read_digits (acc * 10 + (c - 48)) cs

pub read_digits-append :
    (acc : ℕ) (xs ys : List ℕ) → read_digits acc (xs ++ ys) ≡ read_digits (read_digits acc xs) ys
unfolding read_digits
read_digits-append acc [] ys = refl
read_digits-append acc (x ∷ xs) ys = read_digits-append (acc * 10 + (x - 48)) xs ys

pow_suc : (w : ℕ) → 10 ^ suc w ≡ 10 * 10 ^ w
pow_suc w = omega arith

snoc_digits :
    (xs : List ℕ) (n m : ℕ)
    → read_digits 0 xs ≡ m / 10
    → n ≡ m % 10
    → read_digits 0 (xs ++ (48 + n) ∷ []) ≡ m
unfolding read_digits
snoc_digits xs n m h e =
    read_digits-append 0 xs ((48 + n) ∷ []) ∙ ap (λ k. k * 10 + (48 + n - 48)) h ∙ omega arith

pub read_digits-digits : (w n : ℕ) → n < 10 ^ w → read_digits 0 (digits w n) ≡ n
unfolding digits read_digits
read_digits-digits zero n h = omega arith
read_digits-digits (suc w) n h = elim (Bool-cases (ltb n 10)) [
  | inl e ↦ rw e (omega arith)
  | inr e ↦ rw e (
      snoc_digits (digits w (n / 10)) (n % 10) n
        (read_digits-digits w (n / 10) (omega (arith, pow_suc w))) refl)
]

pub read_digits-padded : (w n : ℕ) → n < 10 ^ w → read_digits 0 (padded w n) ≡ n
unfolding padded read_digits
read_digits-padded zero n h = omega arith
read_digits-padded (suc w) n h =
    snoc_digits (padded w (n / 10)) (n % 10) n
      (read_digits-padded w (n / 10) (omega (arith, pow_suc w))) refl

pub length-digits : (w n k : ℕ) → n < 10 ^ suc k → length (digits w n) ≤ suc k
unfolding digits
length-digits zero n k h = omega arith
length-digits (suc w) n zero h = ground arith
length-digits (suc w) n (suc k) h = elim (Bool-cases (ltb n 10)) [
  | inl e ↦ rw e (omega arith)
  | inr e ↦ rw e (
      omega (
        arith,
        length-append (digits w (n / 10)) ((48 + n % 10) ∷ []),
        length-digits w (n / 10) k (omega (arith, pow_suc (suc k))),
      ))
]

pub length-padded : (w n : ℕ) → length (padded w n) ≡ w
unfolding padded
length-padded zero n = refl
length-padded (suc w) n =
    omega (arith, length-append (padded w (n / 10)) ((48 + n % 10) ∷ []), length-padded w (n / 10))
