-- ===== src/Timestamp.antt =====
-- base/timestamp.h and timestamp.cpp: a number of microseconds since the epoch, as an `int64_t`. `now` asks
-- the system; `addTime` and `timeDifference` go by `double`, and are with TimerQueue.
pub mod Text
mod Tests
use kaycc.Prelude.{
  ℕ, zero, suc, ◌+◌, ◌*◌, ◌/◌, ◌%◌, ◌-◌, Bool, true, false, List, [], ◌∷◌, ◌++◌, length, take, ltb,
  ◌==◌, if◌then◌else◌, ℤ, pos, negsuc, eq_ℤ,
}
use kaycc.Prelude.Decimal.{decimal, padded}

pub record Timestamp : Type 0 where
  pub micro_seconds_since_epoch : ℤ

abbrev pub micro_seconds_per_second : ℕ
micro_seconds_per_second = 1000000

-- The negative of a number.
abbrev pub neg : ℕ → ℤ
neg zero = pos 0
neg (suc n) = negsuc n

-- `/` and `%` of C++ round to zero.
abbrev pub div_int : ℤ → ℕ → ℤ
div_int (pos n) d = pos (n / d)
div_int (negsuc n) d = neg (suc n / d)

abbrev pub mod_int : ℤ → ℕ → ℤ
mod_int (pos n) d = pos (n % d)
mod_int (negsuc n) d = neg (suc n % d)

-- "%ld"
abbrev pub print_int : ℤ → List ℕ
print_int (pos n) = decimal n
print_int (negsuc n) = b'-' ∷ decimal (suc n)

-- "%06ld", for a number of at most six digits: the sign counts.
abbrev pub print_int6 : ℤ → List ℕ
print_int6 (pos n) = padded 6 n
print_int6 (negsuc n) = b'-' ∷ (if ltb (suc n) 100000 then padded 5 (suc n) else padded 6 (suc n))

-- `snprintf` into a buffer of 32, of which it is given 31 bytes.
unfoldable pub to_string : Timestamp → List ℕ
to_string t =
    let seconds = div_int t.micro_seconds_since_epoch micro_seconds_per_second in
    let microseconds = mod_int t.micro_seconds_since_epoch micro_seconds_per_second in
    take (31 - 1) (print_int seconds ++ b'.' ∷ print_int6 microseconds)

unfoldable pub valid : Timestamp → Bool
valid t = elim t.micro_seconds_since_epoch [ pos n ↦ ltb 0 n | negsuc n ↦ false ]

unfoldable pub invalid : Timestamp
invalid = record { micro_seconds_since_epoch = pos 0 }

unfoldable pub seconds_since_epoch : Timestamp → ℤ
seconds_since_epoch t = div_int t.micro_seconds_since_epoch micro_seconds_per_second

-- For a time that is not before the epoch and fits into 64 bits.
unfoldable pub from_unix_time : ℕ → ℕ → Timestamp
from_unix_time t microseconds = record {
  micro_seconds_since_epoch = pos (t * micro_seconds_per_second + microseconds);
}

unfoldable pub swap : Timestamp × Timestamp → Timestamp × Timestamp
swap p = (p.1, p.0)

-- `operator<` and `operator==`
unfoldable pub less : Timestamp → Timestamp → Bool
less a b = elim a.micro_seconds_since_epoch [
  | pos m ↦ elim b.micro_seconds_since_epoch [ pos n ↦ ltb m n | negsuc n ↦ false ]
  | negsuc m ↦ elim b.micro_seconds_since_epoch [ pos n ↦ true | negsuc n ↦ ltb n m ]
]

unfoldable pub equal : Timestamp → Timestamp → Bool
equal a b = eq_ℤ a.micro_seconds_since_epoch b.micro_seconds_since_epoch
