-- ===== src/Buffer/Integers.antt =====
-- net/buffer.h and net/endian.h: integers in a buffer, in network byte order. An integer is its bit
-- pattern, below 2 ^ 8w for w bytes. How the host keeps an integer in memory, and glibc's
-- `htobe16/32/64` and `be16/32/64toh`, are the parameter `host`.
pub mod Roundtrip
pub mod LittleEndian
use kaycc.Prelude.{
  ℕ, zero, suc, ◌+◌, ◌*◌, ◌/◌, ◌%◌, ◌^◌, ◌<◌, ◌≡◌, List, [], ◌∷◌, length, take, drop, leb, Checked,
  ok, err, undefined, ◌>>=◌, ◌>>◌, assert, arith,
}
use mathlib.Core.List.{reverse}
use kaycc.Buffer.{Buffer, append, prepend, retrieve, readable_bytes, peek}

-- The bytes of a number, the least significant first.
pub little_endian : ℕ → ℕ → List ℕ
little_endian zero x = []
little_endian (suc w) x = x % 256 ∷ little_endian w (x / 256)

-- Network byte order.
abbrev pub big_endian : ℕ → ℕ → List ℕ
big_endian w x = reverse (little_endian w x)

-- `w` is a width in bytes: 1, 2, 4 or 8.
pub record Host : Type 0 where
  -- The bytes of an integer in memory, and back (`memcpy`).
  pub store : ℕ → ℕ → List ℕ
  pub load : ℕ → List ℕ → ℕ
  -- `htobe` and `betoh`.
  pub to_big : ℕ → ℕ → ℕ
  pub from_big : ℕ → ℕ → ℕ
  pub length-store : (w x : ℕ) → length (store w x) ≡ w
  pub load-store : (w x : ℕ) → x < 256 ^ w → load w (store w x) ≡ x
  pub to_big-lt : (w x : ℕ) → to_big w x < 256 ^ w
  pub store-to_big : (w x : ℕ) → store w (to_big w x) ≡ big_endian w x
  pub from_big-to_big : (w x : ℕ) → x < 256 ^ w → from_big w (to_big w x) ≡ x

module _ (host : Host) where
  pub append_int64 : Buffer → ℕ → Checked Buffer
  append_int64 b x = append b (host.store 8 (host.to_big 8 x))

  pub append_int32 : Buffer → ℕ → Checked Buffer
  append_int32 b x = append b (host.store 4 (host.to_big 4 x))

  pub append_int16 : Buffer → ℕ → Checked Buffer
  append_int16 b x = append b (host.store 2 (host.to_big 2 x))

  pub append_int8 : Buffer → ℕ → Checked Buffer
  append_int8 b x = append b (host.store 1 x)

  pub prepend_int64 : Buffer → ℕ → Checked Buffer
  prepend_int64 b x = prepend b (host.store 8 (host.to_big 8 x))

  pub prepend_int32 : Buffer → ℕ → Checked Buffer
  prepend_int32 b x = prepend b (host.store 4 (host.to_big 4 x))

  pub prepend_int16 : Buffer → ℕ → Checked Buffer
  prepend_int16 b x = prepend b (host.store 2 (host.to_big 2 x))

  pub prepend_int8 : Buffer → ℕ → Checked Buffer
  prepend_int8 b x = prepend b (host.store 1 x)

  pub peek_int64 : Buffer → Checked ℕ
  peek_int64 b = do
    assert (leb 8 (readable_bytes b))
    ok (host.from_big 8 (host.load 8 (take 8 (drop (peek b) b.buffer))))

  pub peek_int32 : Buffer → Checked ℕ
  peek_int32 b = do
    assert (leb 4 (readable_bytes b))
    ok (host.from_big 4 (host.load 4 (take 4 (drop (peek b) b.buffer))))

  pub peek_int8 : Buffer → Checked ℕ
  peek_int8 b = do
    assert (leb 1 (readable_bytes b))
    ok (host.load 1 (take 1 (drop (peek b) b.buffer)))

-- The function copies the two bytes and ends without a `return`.
pub peek_int16 : Buffer → Checked ℕ
peek_int16 b = do assert (leb 2 (readable_bytes b)); err undefined

pub retrieve_int64 : Buffer → Checked Buffer
retrieve_int64 b = retrieve b 8

pub retrieve_int32 : Buffer → Checked Buffer
retrieve_int32 b = retrieve b 4

pub retrieve_int16 : Buffer → Checked Buffer
retrieve_int16 b = retrieve b 2

pub retrieve_int8 : Buffer → Checked Buffer
retrieve_int8 b = retrieve b 1

pub read_int16 : Buffer → Checked (ℕ × Buffer)
read_int16 b = do result ← peek_int16 b; rest ← retrieve_int16 b; ok (result, rest)

module _ (host : Host) where
  pub read_int64 : Buffer → Checked (ℕ × Buffer)
  read_int64 b = do result ← peek_int64 host b; rest ← retrieve_int64 b; ok (result, rest)

  pub read_int32 : Buffer → Checked (ℕ × Buffer)
  read_int32 b = do result ← peek_int32 host b; rest ← retrieve_int32 b; ok (result, rest)

  pub read_int8 : Buffer → Checked (ℕ × Buffer)
  read_int8 b = do result ← peek_int8 host b; rest ← retrieve_int8 b; ok (result, rest)
