-- ===== src/Timestamp/Tests.antt =====
-- base/timestamp.cpp: a time in 2015, and one half a second before the epoch.
use kaycc.Prelude.{◌+◌, ◌≡◌, refl, [], ◌∷◌, ltb, pos, negsuc, arith}
use kaycc.Prelude.Decimal.{digits, padded}
use kaycc.Timestamp.{to_string, from_unix_time, seconds_since_epoch, valid}
use kaycc.Timestamp.Text.{Reads, to_string-from_unix_time}

to_string_example :
    Reads 1436000000 42 (to_string (from_unix_time 1436000000 42))
    × (seconds_since_epoch (from_unix_time 1436000000 42) ≡ pos 1436000000)
    × (valid (from_unix_time 1436000000 42) ≡ ltb 0 (1436000000 + 42))
to_string_example = to_string-from_unix_time 1436000000 42 (omega arith) (omega arith)

-- "0.-500000"
before_epoch :
    to_string (record { micro_seconds_since_epoch = negsuc 499999 })
    ≡ b'0' ∷ b'.' ∷ b'-' ∷ b'5' ∷ b'0' ∷ b'0' ∷ b'0' ∷ b'0' ∷ b'0' ∷ []
unfolding to_string digits padded
before_epoch = refl
