-- ===== src/Timestamp/Text.antt =====
-- base/timestamp.cpp: a time as text.
use kaycc.Prelude.{
  ℕ, ◌+◌, ◌*◌, ◌/◌, ◌%◌, ◌^◌, ◌≤◌, ◌<◌, ◌≡◌, ap, List, ◌∷◌, ◌++◌, length, length-append, take_all,
  ltb, pos, arith,
}
use kaycc.Prelude.Decimal.{
  decimal, padded, read_digits, length-digits, read_digits-digits, read_digits-padded,
  length-padded,
}
use kaycc.Timestamp.{to_string, from_unix_time, seconds_since_epoch, valid}

-- What the text of a time says.
pub record Reads (seconds microseconds : ℕ) (text : List ℕ) : Type 0 where
  pub seconds_text : List ℕ
  pub micros_text : List ℕ
  pub split : text ≡ seconds_text ++ b'.' ∷ micros_text
  pub six : length micros_text ≡ 6
  pub seconds_eq : read_digits 0 seconds_text ≡ seconds
  pub micros_eq : read_digits 0 micros_text ≡ microseconds

-- A time from the epoch on that fits into an `int64_t`, made from its seconds and less than a million
-- microseconds: `toString` writes the seconds in decimal, a point, and the microseconds in six digits,
-- and nothing is cut off; `secondsSinceEpoch` is the seconds again, and the time is valid unless it is
-- the epoch.
pub to_string-from_unix_time :
    (t us : ℕ)
    → us < 1000000
    → t * 1000000 + us < 2 ^ 63
    → Reads t us (to_string (from_unix_time t us))
      × (seconds_since_epoch (from_unix_time t us) ≡ pos t)
      × (valid (from_unix_time t us) ≡ ltb 0 (t + us))
unfolding to_string from_unix_time seconds_since_epoch valid
to_string-from_unix_time t us h lt =
    let secs : (t * 1000000 + us) / 1000000 ≡ t = omega arith in
    let mics : (t * 1000000 + us) % 1000000 ≡ us = omega arith in
    let fits : length (decimal t ++ b'.' ∷ padded 6 us) ≤ 30 = omega (
      arith,
      length-append (decimal t) (b'.' ∷ padded 6 us),
      length-padded 6 us,
      length-digits 20 t 13 (omega arith),
    ) in
    (
      record {
        seconds_text = decimal t;
        micros_text = padded 6 us;
        split = rw (secs, mics) (take_all 30 (decimal t ++ b'.' ∷ padded 6 us) fits);
        six = length-padded 6 us;
        seconds_eq = read_digits-digits 20 t (omega arith);
        micros_eq = read_digits-padded 6 us (omega arith);
      },
      ap pos secs,
      ground arith,
    )
