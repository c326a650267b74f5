-- ===== src/Buffer/Integers/LittleEndian.antt =====
-- net/endian.h on a host that keeps the least significant byte first: the conversions swap the bytes.
use mathlib.Core.List.{reverse, reverse-cons, reverse-reverse}
use kaycc.Prelude.{
  ℕ, zero, suc, ◌+◌, ◌*◌, ◌/◌, ◌^◌, ◌<◌, ◌≡◌, refl, sym, ap, ap₂, ◌∙◌, List, [], ◌∷◌, length, arith,
  All, All-append,
}
use kaycc.Buffer.Integers.Roundtrip.{length-little_endian, length-reverse}
use kaycc.Buffer.Integers.{Host, little_endian, big_endian}

-- The number that these bytes are, the least significant first.
pub from_little : List ℕ → ℕ
from_little [] = 0
from_little (b ∷ bs) = b + 256 * from_little bs

pow_suc : (w : ℕ) → 256 ^ suc w ≡ 256 * 256 ^ w
pow_suc w = omega arith

from_little-little_endian : (w x : ℕ) → x < 256 ^ w → from_little (little_endian w x) ≡ x
unfolding from_little little_endian
from_little-little_endian zero x h = omega arith
from_little-little_endian (suc w) x h =
    omega (arith, from_little-little_endian w (x / 256) (omega (arith, pow_suc w)))

little_endian-from_little :
    (bs : List ℕ) → All (λ b. b < 256) bs → little_endian (length bs) (from_little bs) ≡ bs
unfolding from_little little_endian
little_endian-from_little [] h = refl
little_endian-from_little (b ∷ bs) h =
    ap₂ ◌∷◌ (omega arith)
      (ap (little_endian (length bs)) (omega arith) ∙ little_endian-from_little bs h.1)

from_little-lt : (bs : List ℕ) → All (λ b. b < 256) bs → from_little bs < 256 ^ length bs
unfolding from_little
from_little-lt [] h = omega arith
from_little-lt (b ∷ bs) h = omega (arith, from_little-lt bs h.1, pow_suc (length bs))

little_endian-bytes : (w x : ℕ) → All (λ b. b < 256) (little_endian w x)
unfolding little_endian
little_endian-bytes zero x = tt
little_endian-bytes (suc w) x = (omega arith, little_endian-bytes w (x / 256))

reverse-bytes : (bs : List ℕ) → All (λ b. b < 256) bs → All (λ b. b < 256) (reverse bs)
reverse-bytes [] h = tt
reverse-bytes (b ∷ bs) h =
    rw (reverse-cons b bs) (All-append _ (reverse bs) (b ∷ []) (reverse-bytes bs h.1) (h.0, tt))

big_endian-bytes : (w x : ℕ) → All (λ b. b < 256) (big_endian w x)
big_endian-bytes w x = reverse-bytes (little_endian w x) (little_endian-bytes w x)

length-big : (w x : ℕ) → length (big_endian w x) ≡ w
length-big w x = length-reverse (little_endian w x) ∙ length-little_endian w x

-- The bytes in the other order.
swap_bytes : ℕ → ℕ → ℕ
swap_bytes w x = from_little (big_endian w x)

swap_bytes-lt : (w x : ℕ) → swap_bytes w x < 256 ^ w
unfolding swap_bytes
swap_bytes-lt w x = rw (length-big w x) at (from_little-lt (big_endian w x) (big_endian-bytes w x))

little_endian-swap_bytes : (w x : ℕ) → little_endian w (swap_bytes w x) ≡ big_endian w x
unfolding swap_bytes
little_endian-swap_bytes w x =
    ap (λ n. little_endian n (swap_bytes w x)) (sym (length-big w x))
    ∙ little_endian-from_little (big_endian w x) (big_endian-bytes w x)

swap_bytes-swap_bytes : (w x : ℕ) → x < 256 ^ w → swap_bytes w (swap_bytes w x) ≡ x
unfolding swap_bytes
swap_bytes-swap_bytes w x h =
    ap (λ bs. from_little (reverse bs)) (little_endian-swap_bytes w x)
    ∙ ap from_little (reverse-reverse (little_endian w x))
    ∙ from_little-little_endian w x h

pub little_endian_host : Host
little_endian_host = record {
  store = little_endian;
  load = λ w bs. from_little bs;
  to_big = swap_bytes;
  from_big = swap_bytes;
  length-store = length-little_endian;
  load-store = from_little-little_endian;
  to_big-lt = swap_bytes-lt;
  store-to_big = little_endian-swap_bytes;
  from_big-to_big = swap_bytes-swap_bytes;
}
