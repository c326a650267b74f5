-- ===== src/Condition.antt =====
-- base/condition.h, base/condition.cpp: the wait with a limit. The product of the seconds with 10 ^ 9, which
-- is computed with double, the time and the answer of pthread are arguments; the mutex is as in Mutex.
pub mod Deadline
mod Tests
use kaycc.Prelude.{ℕ, suc, ◌+◌, ◌-◌, Bool, leb, ◌==◌, if◌then◌else◌, ℤ, pos, negsuc}
use kaycc.Timestamp.{neg, div_int, mod_int}

abbrev pub nano_seconds_per_second : ℕ
nano_seconds_per_second = 1000000000

abbrev pub plus_int : ℕ → ℤ → ℤ
plus_int n (pos m) = pos (n + m)
plus_int n (negsuc m) = if leb (suc m) n then pos (n - suc m) else neg (suc m - n)

-- The seconds and nanoseconds at which `waitForSeconds` ends, given those of now.
unfoldable pub deadline : ℕ → ℕ → ℤ → ℤ × ℤ
deadline seconds nanoseconds more =
    let sum = plus_int nanoseconds more in
    (plus_int seconds (div_int sum nano_seconds_per_second), mod_int sum nano_seconds_per_second)

abbrev pub etimedout : ℕ
etimedout = 110

-- The result, given what `pthread_cond_timedwait` returns.
unfoldable pub wait_for_seconds : ℕ → Bool
wait_for_seconds answer = etimedout == answer
