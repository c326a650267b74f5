-- ===== src/Condition/Deadline.antt =====
-- base/condition.cpp: the limit of a wait.
use kaycc.Prelude.{ℕ, ◌+◌, ◌*◌, ◌/◌, ◌%◌, ◌<◌, ◌≡◌, refl, pos, arith}
use kaycc.Condition.{deadline}

-- A time of the clock that is exactly that much later than now.
pub record Later (seconds nanoseconds more : ℕ) : Type 0 where
  pub at_seconds : ℕ
  pub at_nanoseconds : ℕ
  pub split : deadline seconds nanoseconds (pos more) ≡ (pos at_seconds, pos at_nanoseconds)
  pub below : at_nanoseconds < 1000000000
  pub whole : at_seconds * 1000000000 + at_nanoseconds ≡ seconds * 1000000000 + nanoseconds + more

-- For a wait that is not negative, the limit is a time of the clock, with nanoseconds below 10 ^ 9, and is
-- exactly that much later than now.
pub deadline-Later : (seconds nanoseconds more : ℕ) → Later seconds nanoseconds more
unfolding deadline
deadline-Later seconds nanoseconds more = record {
  at_seconds = seconds + (nanoseconds + more) / 1000000000;
  at_nanoseconds = (nanoseconds + more) % 1000000000;
  split = refl;
  below = omega arith;
  whole = omega arith;
}
