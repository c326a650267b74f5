-- ===== src/PollPoller/Array.antt =====
-- net/poller/pollpoller.cpp: what stands where in `pollfds_` after it grows, after a write, and after
-- an entry has been swapped with the last one and popped.
use kaycc.Prelude.{
  ℕ, zero, suc, ◌-◌, ◌<◌, ◌≡◌, refl, none, some, List, [], ◌∷◌, ◌++◌, length, get_elem?, set, take,
  ◌==◌, if◌then◌else◌, arith, length-set,
}
use kaycc.PollPoller.{swap_out, PollFd}

module _ {ℓ} {A : Type ℓ} where
  pub get_elem?-length : (l : List A) (i : ℕ) (a : A) → get_elem? l i ≡ some a → i < length l
  get_elem?-length [] i a h = cc
  get_elem?-length (x ∷ l) zero a h = omega arith
  get_elem?-length (x ∷ l) (suc i) a h = omega (arith, get_elem?-length l i a h)

  pub get_elem?-total : (l : List A) (i : ℕ) → i < length l → (a : A) × (get_elem? l i ≡ some a)
  get_elem?-total [] i h = absurd (omega arith)
  get_elem?-total (x ∷ l) zero h = (x, refl)
  get_elem?-total (x ∷ l) (suc i) h = get_elem?-total l i (omega arith)

  pub get_elem?-push :
      (l : List A) (a : A) (i : ℕ)
      → get_elem? (l ++ a ∷ []) i ≡ (if length l == i then some a else get_elem? l i)
  get_elem?-push [] a zero = refl
  get_elem?-push [] a (suc i) = ground arith
  get_elem?-push (x ∷ l) a zero = ground arith
  get_elem?-push (x ∷ l) a (suc i) = ground (arith, get_elem?-push l a i)

  pub get_elem?-set :
      (l : List A) (i : ℕ) (a : A) (j : ℕ)
      → i < length l
      → get_elem? (set l i a) j ≡ (if i == j then some a else get_elem? l j)
  get_elem?-set [] i a j h = absurd (omega arith)
  get_elem?-set (x ∷ l) zero a zero h = refl
  get_elem?-set (x ∷ l) zero a (suc j) h = ground arith
  get_elem?-set (x ∷ l) (suc i) a zero h = ground arith
  get_elem?-set (x ∷ l) (suc i) a (suc j) h = ground (arith, get_elem?-set l i a j)

  pub get_elem?-pop :
      (l : List A) (n i : ℕ)
      → length l ≡ suc n
      → get_elem? (take n l) i ≡ (if n == i then none else get_elem? l i)
  get_elem?-pop [] n i h = absurd (omega arith)
  get_elem?-pop (x ∷ []) zero zero h = refl
  get_elem?-pop (x ∷ []) zero (suc i) h = ground arith
  get_elem?-pop (x ∷ []) (suc n) i h = absurd (omega arith)
  get_elem?-pop (x ∷ y ∷ l) zero i h = absurd (omega arith)
  get_elem?-pop (x ∷ y ∷ l) (suc n) zero h = ground arith
  get_elem?-pop (x ∷ y ∷ l) (suc n) (suc i) h = ground (arith, get_elem?-pop (y ∷ l) n i)

pub get_elem?-swap_out :
    (l : List PollFd) (n i : ℕ) (e last : PollFd) (j : ℕ)
    → length l ≡ suc n
    → i < n
    → get_elem? (swap_out l i e last) j
      ≡ (if n == j then none else if i == j then some last else get_elem? l j)
get_elem?-swap_out l n i e last j h lt = ground (
  arith,
  get_elem?-pop (set (set l i last) (length l - 1) e) (length l - 1) j,
  get_elem?-set (set l i last) (length l - 1) e j,
  get_elem?-set l i last j,
  length-set (set l i last) (length l - 1) e,
  length-set l i last,
)
