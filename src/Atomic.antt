-- ===== src/Atomic.antt =====
-- base/atomic.h: integers that threads share. `half` is 2 ^ 31 or 2 ^ 63: a value of the signed type is
-- its pattern of bits, a number below 2 * half, so that -1 is 2 * half - 1. A primitive of the compiler
-- is one step and wraps around; the `+` of `addAndGet` is the language's, which leaves overflow undefined.
pub mod Counter
mod Tests
use kaycc.Prelude.{
  ℕ, ◌+◌, ◌-◌, ◌*◌, ◌%◌, Bool, not, ◌&&◌, ◌||◌, ltb, leb, ◌==◌, if◌then◌else◌, Checked, ok, err,
  undefined, ◌>>=◌,
}

module _ (half : ℕ) where
  abbrev pub wrap : ℕ → ℕ
  wrap n = n % (2 * half)

  -- `a + b` on the signed type: two summands below zero are at least -half together, two others stay
  -- below half.
  unfoldable pub plus : ℕ → ℕ → Checked ℕ
  plus a b =
      if ltb a half && ltb b half
      then (if ltb (a + b) half then ok (a + b) else err undefined)
      else if leb half a && leb half b
      then (if leb (3 * half) (a + b) then ok (wrap (a + b)) else err undefined)
      else ok (wrap (a + b))

  -- `__sync_val_compare_and_swap`: the value before, and the one afterwards.
  unfoldable pub compare_and_swap : ℕ → ℕ → ℕ → ℕ × ℕ
  compare_and_swap expected desired value = (value, if value == expected then desired else value)

  -- `__sync_fetch_and_add`
  unfoldable pub fetch_and_add : ℕ → ℕ → ℕ × ℕ
  fetch_and_add x value = (value, wrap (value + x))

  -- The member functions: the result, and the value afterwards.
  unfoldable pub get : ℕ → ℕ × ℕ
  unfolding compare_and_swap
  get value = compare_and_swap 0 0 value

  unfoldable pub get_and_add : ℕ → ℕ → ℕ × ℕ
  unfolding fetch_and_add
  get_and_add x value = fetch_and_add x value

  unfoldable pub add_and_get : ℕ → ℕ → Checked (ℕ × ℕ)
  unfolding get_and_add
  add_and_get x value =
      let (before, after) = get_and_add x value in do result ← plus before x; ok (result, after)

  unfoldable pub increment_and_get : ℕ → Checked (ℕ × ℕ)
  unfolding add_and_get
  increment_and_get value = add_and_get 1 value

  unfoldable pub decrement_and_get : ℕ → Checked (ℕ × ℕ)
  unfolding add_and_get
  decrement_and_get value = add_and_get (2 * half - 1) value

  unfoldable pub add : ℕ → ℕ → ℕ
  unfolding get_and_add
  add x value = (get_and_add x value).1

  unfoldable pub increment : ℕ → Checked ℕ
  unfolding increment_and_get
  increment value = do drawn ← increment_and_get value; ok drawn.1

  unfoldable pub decrement : ℕ → Checked ℕ
  unfolding decrement_and_get
  decrement value = do drawn ← decrement_and_get value; ok drawn.1

  -- `__sync_lock_test_and_set`
  unfoldable pub get_and_set : ℕ → ℕ → ℕ × ℕ
  get_and_set x value = (value, x)
