-- ===== src/Prelude/Faults.antt =====
-- Code that can stop: a failed `assert`, the exception of `std::vector::resize`, a call of `abort`, or a value that
-- the language leaves undefined.
use mathlib.Core.Path.{◌≡◌}
use mathlib.Core.Bool.{Bool, true, false}

pub data Fault : Type 0 where
  assertion length_error undefined aborted : Fault

pub data Checked {ℓ} (A : Type ℓ) : Type ℓ where
  ok : A → Checked A
  err : Fault → Checked A

infixl 5 ◌>>=◌ ◌>>◌
abbrev pub ◌>>=◌ {ℓ κ} : {A : Type ℓ} {B : Type κ} → Checked A → (A → Checked B) → Checked B
ok a >>= f = f a
err e >>= f = err e

abbrev pub ◌>>◌ {ℓ} : {B : Type ℓ} → Checked (Unit {0}) → Checked B → Checked B
m >> k = m >>= λ _. k

-- `assert(test)`, compiled in.
abbrev pub assert : Bool → Checked (Unit {0})
assert true = ok tt
assert false = err assertion

-- The code returns, and what it returns satisfies the predicate.
abbrev pub Returns {ℓ} : {A : Type ℓ} → Checked A → (A → Type 0) → Type 0
Returns (ok a) P = P a
Returns (err e) P = ⊥

-- If the code returns, what it returns satisfies the predicate.
abbrev pub OnOk {ℓ} : {A : Type ℓ} → Checked A → (A → Type 0) → Type 0
OnOk (ok a) P = P a
OnOk (err e) P = Unit

pub OnOk-bind {ℓ κ} :
    {A : Type ℓ} {B : Type κ} (P : A → Type 0) (Q : B → Type 0) (m : Checked A) (f : A → Checked B)
    → OnOk m P
    → ((a : A) → P a → OnOk (f a) Q)
    → OnOk (m >>= f) Q
OnOk-bind P Q (ok a) f h k = k a h
OnOk-bind P Q (err e) f h k = tt

pub OnOk-any {ℓ κ} :
    {A : Type ℓ} {B : Type κ} (Q : B → Type 0) (m : Checked A) (f : A → Checked B)
    → ((a : A) → OnOk (f a) Q)
    → OnOk (m >>= f) Q
OnOk-any Q (ok a) f k = k a
OnOk-any Q (err e) f k = tt

pub OnOk-map {ℓ} :
    {A : Type ℓ} (P Q : A → Type 0) (m : Checked A) → OnOk m P → ((a : A) → P a → Q a) → OnOk m Q
OnOk-map P Q (ok a) h k = k a h
OnOk-map P Q (err e) h k = tt

pub Returns-bind {ℓ κ} :
    {A : Type ℓ} {B : Type κ} (P : A → Type 0) (Q : B → Type 0) (m : Checked A) (f : A → Checked B)
    → Returns m P
    → ((a : A) → P a → Returns (f a) Q)
    → Returns (m >>= f) Q
Returns-bind P Q (ok a) f h k = k a h
Returns-bind P Q (err e) f h k = absurd h

pub Returns-map {ℓ} :
    {A : Type ℓ} (P Q : A → Type 0) (m : Checked A)
    → Returns m P
    → ((a : A) → P a → Q a)
    → Returns m Q
Returns-map P Q (ok a) h k = k a h
Returns-map P Q (err e) h k = absurd h

-- An assertion whose test holds does not stop the code.
pub Returns-assert {ℓ} :
    {A : Type ℓ} (Q : A → Type 0) (b : Bool) (m : Checked A)
    → b ≡ true
    → Returns m Q
    → Returns (assert b >> m) Q
Returns-assert Q true m e h = h
Returns-assert Q false m e h = cc

pub OnOk-both {ℓ} :
    {A : Type ℓ} (P Q : A → Type 0) (m : Checked A) → OnOk m P → OnOk m Q → OnOk m (λ a. P a × Q a)
OnOk-both P Q (ok a) h k = (h, k)
OnOk-both P Q (err f) h k = tt

pub Returns-OnOk {ℓ} :
    {A : Type ℓ} (P Q : A → Type 0) (m : Checked A)
    → Returns m P
    → OnOk m Q
    → Returns m (λ a. P a × Q a)
Returns-OnOk P Q (ok a) h k = (h, k)
Returns-OnOk P Q (err f) h k = absurd h

pub OnOk-all {ℓ} :
    {A : Type ℓ} {B : Type 0} (Q : B → A → Type 0) (m : Checked A)
    → ((b : B) → OnOk m (Q b))
    → OnOk m (λ a. (b : B) → Q b a)
OnOk-all Q (ok a) h = h
OnOk-all Q (err f) h = tt
