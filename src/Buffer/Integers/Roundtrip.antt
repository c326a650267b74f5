-- ===== src/Buffer/Integers/Roundtrip.antt =====
-- net/buffer.h: what is written as an integer is read back, first in first out.
use mathlib.Core.List.{reverse, reverse-cons}
use kaycc.Prelude.{
  assertion, All, ap₂, ℕ, zero, suc, ◌+◌, ◌*◌, ◌-◌, ◌/◌, ◌^◌, ◌≤◌, ◌<◌, ◌≡◌, refl, sym, ap, ◌∙◌,
  List, [], ◌∷◌, ◌++◌, append_assoc, append-nil, length, take, drop, leb, true, Checked, ok, err,
  undefined, ◌>>=◌, Returns, Returns-bind, Returns-map, arith, length-append, take-append_le,
  take-take, take_all, drop-append_eq,
}
use kaycc.Buffer.{Buffer, append, prepend, retrieve, content, readable_bytes, peek, max_size}
use kaycc.Buffer.Region.{IsValid, readable_bytes-eq, length-content}
use kaycc.Buffer.Growth.{Appended, append_lem}
use kaycc.Buffer.Consume.{Dropped, retrieve_lem, prepend_lem}
use kaycc.Buffer.Integers.{
  Host, little_endian, big_endian, append_int32, prepend_int32, peek_int32, peek_int16, read_int32,
  read_int16, retrieve_int32,
}

pub length-little_endian : (w x : ℕ) → length (little_endian w x) ≡ w
unfolding little_endian
length-little_endian zero x = refl
length-little_endian (suc w) x = ap suc (length-little_endian w (x / 256))

pub length-reverse : (xs : List ℕ) → length (reverse xs) ≡ length xs
length-reverse [] = refl
length-reverse (x ∷ xs) = omega (
  arith,
  ap (λ (l : List ℕ). length l) (reverse-cons x xs),
  length-append (reverse xs) (x ∷ []),
  length-reverse xs,
)

pub length-big_endian : (w x : ℕ) → length (big_endian w x) ≡ w
length-big_endian w x = length-reverse (little_endian w x) ∙ length-little_endian w x

module _ (host : Host) where
  -- The bytes at `peek()` are those of the content.
  take-peek :
      (b : Buffer) (w : ℕ) (front rest : List ℕ)
      → IsValid b
      → content b ≡ front ++ rest
      → length front ≡ w
      → take w (drop (peek b) b.buffer) ≡ front
  unfolding peek
  take-peek b w front rest v e n =
      sym (
        take-take w (b.writer_index - b.reader_index) (drop b.reader_index b.buffer) (
          omega
            (arith, length-content b v, ap (λ (l : List ℕ). length l) e, length-append front rest)))
      ∙ ap (take w) e
      ∙ take-append_le w front rest (omega arith)
      ∙ take_all w front (omega arith)

  word_at :
      (b : Buffer) (w x : ℕ) (rest : List ℕ)
      → IsValid b
      → content b ≡ big_endian w x ++ rest
      → x < 256 ^ w
      → host.from_big w (host.load w (take w (drop (peek b) b.buffer))) ≡ x
  word_at b w x rest v e h =
      rw
        (
          take-peek b w (big_endian w x) rest v e (length-big_endian w x),
          ← host.store-to_big w x,
          host.load-store w (host.to_big w x) (host.to_big-lt w x),
          host.from_big-to_big w x h,
        )
        refl

  enough :
      (b : Buffer) (w x : ℕ) (rest : List ℕ)
      → IsValid b
      → content b ≡ big_endian w x ++ rest
      → w ≤ length (content b)
  enough b w x rest v e = omega (
    arith,
    ap (λ (l : List ℕ). length l) e,
    length-append (big_endian w x) rest,
    length-big_endian w x,
  )

  peek_int32_lem :
      (b : Buffer) (x : ℕ) (rest : List ℕ)
      → IsValid b
      → content b ≡ big_endian 4 x ++ rest
      → x < 2 ^ 32
      → peek_int32 host b ≡ ok x
  unfolding peek_int32
  peek_int32_lem b x rest v e h =
      let fits : leb 4 (readable_bytes b) ≡ true =
        ground (arith, enough b 4 x rest v e, readable_bytes-eq b v, length-content b v) in
      rw fits (ap ok (word_at b 4 x rest v e h))

  -- The first integer is read and the rest stays.
  pub read_int32_lem :
      (b : Buffer) (x : ℕ) (rest : List ℕ)
      → IsValid b
      → content b ≡ big_endian 4 x ++ rest
      → x < 2 ^ 32
      → Returns (read_int32 host b) (λ r. (r.0 ≡ x) × IsValid r.1 × (content r.1 ≡ rest))
  unfolding read_int32 retrieve_int32
  read_int32_lem b x rest v e h = rw (peek_int32_lem b x rest v e h) (
      Returns-bind (Dropped b 4) (λ r. (r.0 ≡ x) × IsValid r.1 × (content r.1 ≡ rest))
        (retrieve b 4) _ (retrieve_lem b 4 v (enough b 4 x rest v e))
        λ c d. (
          refl,
          d.0,
          d.1
              ∙ ap (drop 4) e
              ∙ drop-append_eq 4 (big_endian 4 x) rest (sym (length-big_endian 4 x)),
        ))

  -- Appending a run of integers.
  pub append_all : Buffer → List ℕ → Checked Buffer
  append_all b [] = ok b
  append_all b (x ∷ xs) = append_int32 host b x >>= λ c. append_all c xs

  -- Reading as many integers as asked for.
  pub read_all : ℕ → Buffer → Checked (List ℕ × Buffer)
  read_all zero b = ok ([], b)
  read_all (suc n) b = do (x, c) ← read_int32 host b; (xs, d) ← read_all n c; ok (x ∷ xs, d)

  encode : List ℕ → List ℕ
  encode [] = []
  encode (x ∷ xs) = big_endian 4 x ++ encode xs

  append_all_lem :
      (b : Buffer) (xs : List ℕ)
      → IsValid b
      → b.writer_index + 4 * length xs ≤ max_size
      → Returns (append_all b xs) (λ c. IsValid c × (content c ≡ content b ++ encode xs))
  unfolding append_all encode append_int32
  append_all_lem b [] v h = (v, sym (append-nil (content b)))
  append_all_lem b (x ∷ xs) v h = rw (host.store-to_big 4 x) (
      Returns-bind (Appended b (big_endian 4 x))
        (λ d. IsValid d × (content d ≡ content b ++ encode (x ∷ xs))) (append b (big_endian 4 x)) _
        (append_lem b (big_endian 4 x) v (omega (arith, length-big_endian 4 x)))
        λ c a.
          Returns-map (λ d. IsValid d × (content d ≡ content c ++ encode xs))
            (λ d. IsValid d × (content d ≡ content b ++ encode (x ∷ xs))) (append_all c xs)
            (append_all_lem c xs a.0 (omega (arith, a.2, length-big_endian 4 x)))
            λ d e. (
              e.0,
              e.1
                  ∙ ap (λ l. l ++ encode xs) a.1
                  ∙ append_assoc (content b) (big_endian 4 x) (encode xs),
            ))

  read_all_lem :
      (b : Buffer) (xs rest : List ℕ)
      → IsValid b
      → content b ≡ encode xs ++ rest
      → All (λ x. x < 2 ^ 32) xs
      → Returns (read_all (length xs) b) (λ r. (r.0 ≡ xs) × (content r.1 ≡ rest))
  unfolding read_all encode
  read_all_lem b [] rest v e h = (refl, e)
  read_all_lem b (x ∷ xs) rest v e h =
      Returns-bind (λ r. (r.0 ≡ x) × IsValid r.1 × (content r.1 ≡ encode xs ++ rest))
        (λ r. (r.0 ≡ x ∷ xs) × (content r.1 ≡ rest)) (read_int32 host b) _
        (read_int32_lem b x (encode xs ++ rest) v
          (e ∙ append_assoc (big_endian 4 x) (encode xs) rest) h.0)
        λ r p.
          Returns-bind (λ q. (q.0 ≡ xs) × (content q.1 ≡ rest))
            (λ r. (r.0 ≡ x ∷ xs) × (content r.1 ≡ rest)) (read_all (length xs) r.1) _
            (read_all_lem r.1 xs rest p.1 p.2 h.1) λ q s. (ap₂ ◌∷◌ p.0 s.0, s.1)

  -- On a host whose conversions have the documented effect: 32-bit integers that are appended to
  -- an empty valid buffer in which they fit, one after the other, are read back by as many calls
  -- of `readInt32`, in the same order, and no byte is left over. No assertion fails.
  pub int32_stream :
      (b : Buffer) (xs : List ℕ)
      → IsValid b
      → content b ≡ []
      → b.writer_index + 4 * length xs ≤ max_size
      → All (λ x. x < 2 ^ 32) xs
      → Returns (append_all b xs >>= read_all (length xs)) (λ r. (r.0 ≡ xs) × (content r.1 ≡ []))
  int32_stream b xs v e h small =
      Returns-bind (λ c. IsValid c × (content c ≡ content b ++ encode xs))
        (λ r. (r.0 ≡ xs) × (content r.1 ≡ [])) (append_all b xs) (read_all (length xs))
        (append_all_lem b xs v h)
        λ c p.
          read_all_lem c xs [] p.0 (p.1 ∙ ap (λ l. l ++ encode xs) e ∙ sym (append-nil (encode xs)))
            small

  -- On a host whose conversions have the documented effect: in a valid buffer with four bytes to
  -- spare before the read index, a 32-bit integer given to `prependInt32` is what the next
  -- `readInt32` returns, and after it the buffer is valid with the same readable bytes as before
  -- both calls.
  pub int32_prefix :
      (b : Buffer) (x : ℕ)
      → IsValid b
      → 4 ≤ b.reader_index
      → x < 2 ^ 32
      → Returns
          (prepend_int32 host b x >>= read_int32 host)
          (λ r. (r.0 ≡ x) × IsValid r.1 × (content r.1 ≡ content b))
  unfolding prepend_int32
  int32_prefix b x v h small = rw (host.store-to_big 4 x) (
      Returns-bind (λ c. IsValid c × (content c ≡ big_endian 4 x ++ content b))
        (λ r. (r.0 ≡ x) × IsValid r.1 × (content r.1 ≡ content b)) (prepend b (big_endian 4 x))
        (read_int32 host) (prepend_lem b (big_endian 4 x) v (omega (arith, length-big_endian 4 x)))
        λ c p. read_int32_lem c x (content b) p.0 p.1 small)

-- `readInt16` never returns a value: with at least two readable bytes it reaches the end of
-- `peekInt16`, which has no `return`, and with fewer the assertion fails.
pub read_int16_lem :
    (b : Buffer)
    → ((2 ≤ readable_bytes b) → read_int16 b ≡ err undefined)
      × ((readable_bytes b < 2) → read_int16 b ≡ err assertion)
unfolding read_int16 peek_int16
read_int16_lem b = (λ h. ground arith, λ h. ground arith)
