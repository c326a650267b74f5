-- ===== src/CurrentThread/Sleep.antt =====
-- base/thread.cpp: the argument of `nanosleep`.
use kaycc.Prelude.{ℕ, ◌+◌, ◌*◌, ◌/◌, ◌%◌, ◌<◌, ◌≡◌, refl, pos, arith}
use kaycc.CurrentThread.{sleep_usec}

-- For a time that is not negative, the nanoseconds are below 10 ^ 9, and both together are that time.
pub record Sleeps (usec : ℕ) : Type 0 where
  pub seconds : ℕ
  pub nanoseconds : ℕ
  pub split : sleep_usec (pos usec) ≡ (pos seconds, pos nanoseconds)
  pub below : nanoseconds < 1000000000
  pub whole : seconds * 1000000000 + nanoseconds ≡ usec * 1000

pub sleep_usec-Sleeps : (usec : ℕ) → Sleeps usec
unfolding sleep_usec
sleep_usec-Sleeps usec = record {
  seconds = usec / 1000000;
  nanoseconds = usec % 1000000 * 1000;
  split = refl;
  below = omega arith;
  whole = omega arith;
}
