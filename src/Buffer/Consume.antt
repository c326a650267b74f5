-- ===== src/Buffer/Consume.antt =====
-- net/buffer.h: taking bytes from either end of the readable region, and writing before it.
use kaycc.Prelude.{
  ℕ, ◌+◌, ◌-◌, ◌≤◌, ◌<◌, ◌≡◌, refl, inl, inr, sym, ◌∙◌, List, [], ◌++◌, length, take, drop, arith,
  true, Bool-cases, Returns, Returns-bind, ltb, leb, err, assertion, drop_all, take-take,
}
use kaycc.Buffer.{
  Buffer, add_size, sub_size, copy_to, content, readable_bytes, prependable_bytes, retrieve,
  retrieve_all, retrieve_as_string, unwrite, prepend,
}
use kaycc.Buffer.Region.{
  IsValid, readable_bytes-eq, length-content, length-copy_to, slice-copy_to_front, drop-slice,
  take-slice,
}

pub retrieve_all_lem :
    (b : Buffer) → IsValid b → IsValid (retrieve_all b) × (content (retrieve_all b) ≡ [])
unfolding retrieve_all
retrieve_all_lem b v = (omega arith, refl)

-- `c` is a valid buffer that holds the bytes of `b` but the first `len`.
abbrev pub Dropped : Buffer → ℕ → Buffer → Type 0
Dropped b len c = IsValid c × (content c ≡ drop len (content b))

retrieve_some :
    (b : Buffer) (len : ℕ)
    → IsValid b
    → len < b.writer_index - b.reader_index
    → Dropped b len (record b { reader_index = add_size b.reader_index len })
retrieve_some b len v h =
    let e : add_size b.reader_index len ≡ b.reader_index + len = omega arith in
    rw e (omega arith, sym (drop-slice b.buffer b.reader_index b.writer_index len (omega arith)))

retrieve_rest :
    (b : Buffer) (len : ℕ)
    → IsValid b
    → b.writer_index - b.reader_index ≤ len
    → Dropped b len (retrieve_all b)
retrieve_rest b len v h =
    let (valid, empty) = retrieve_all_lem b v in
    (valid, empty ∙ sym (drop_all len (content b) (omega (arith, length-content b v))))

-- In a valid buffer with at least `len` readable bytes, `retrieve(len)` returns, and leaves a
-- valid buffer without the first `len` of them.
pub retrieve_lem :
    (b : Buffer) (len : ℕ)
    → IsValid b
    → len ≤ length (content b)
    → Returns (retrieve b len) (Dropped b len)
unfolding retrieve
retrieve_lem b len v h =
    let n : readable_bytes b ≡ b.writer_index - b.reader_index = readable_bytes-eq b v in
    let fits : leb len (readable_bytes b) ≡ true = ground (arith, length-content b v) in
    rw fits (elim (Bool-cases (ltb len (readable_bytes b))) [
      | inl e ↦ rw e (retrieve_some b len v (ground arith))
      | inr e ↦ rw e (retrieve_rest b len v (ground arith))
    ])

-- In a valid buffer, `retrieve` of more bytes than are readable fails its assertion.
pub retrieve_past_end :
    (b : Buffer) (len : ℕ) → IsValid b → length (content b) < len → retrieve b len ≡ err assertion
unfolding retrieve
retrieve_past_end b len v h = ground (arith, length-content b v, readable_bytes-eq b v)

-- In a valid buffer with at least `len` readable bytes, `retrieveAsString(len)` returns the first
-- `len` of them, and leaves a valid buffer with the others.
pub retrieve_as_string_lem :
    (b : Buffer) (len : ℕ)
    → IsValid b
    → len ≤ length (content b)
    → Returns (retrieve_as_string b len) (λ r. (r.0 ≡ take len (content b)) × Dropped b len r.1)
unfolding retrieve_as_string
retrieve_as_string_lem b len v h =
    let fits : leb len (readable_bytes b) ≡ true =
      ground (arith, length-content b v, readable_bytes-eq b v) in
    rw fits (
      Returns-bind (Dropped b len) (λ r. (r.0 ≡ take len (content b)) × Dropped b len r.1)
        (retrieve b len) _ (retrieve_lem b len v h)
        λ c d. (
          sym (
              take-take len (b.writer_index - b.reader_index) (drop b.reader_index b.buffer)
                (omega (arith, length-content b v))),
          d,
        ))

-- In a valid buffer with at least `len` readable bytes, `unwrite(len)` returns, and leaves a
-- valid buffer without the last `len` of them.
pub unwrite_lem :
    (b : Buffer) (len : ℕ)
    → IsValid b
    → len ≤ length (content b)
    → Returns
        (unwrite b len)
        (λ c. IsValid c × (content c ≡ take (length (content b) - len) (content b)))
unfolding unwrite
unwrite_lem b len v h =
    let fits : leb len (readable_bytes b) ≡ true =
      ground (arith, length-content b v, readable_bytes-eq b v) in
    let e : sub_size b.writer_index len ≡ b.reader_index + (length (content b) - len) =
      omega (arith, length-content b v) in
    rw (fits, e)
      (
        omega (arith, length-content b v),
        sym (
            take-slice b.buffer b.reader_index b.writer_index _
              (omega (arith, length-content b v))),
      )

-- In a valid buffer whose read index is at least the number of new bytes, `prepend` returns, and
-- leaves a valid buffer with the new bytes in front of the old ones.
pub prepend_lem :
    (b : Buffer) (src : List ℕ)
    → IsValid b
    → length src ≤ b.reader_index
    → Returns (prepend b src) (λ c. IsValid c × (content c ≡ src ++ content b))
unfolding prepend prependable_bytes
prepend_lem b src v h =
    let fits : leb (length src) b.reader_index ≡ true = ground arith in
    let e : sub_size b.reader_index (length src) ≡ b.reader_index - length src = omega arith in
    let size : length (copy_to b.buffer (b.reader_index - length src) src) ≡ length b.buffer =
      length-copy_to b.buffer (b.reader_index - length src) src (omega arith) in
    rw (fits, e)
      (
        omega (arith, size),
        slice-copy_to_front b.buffer (b.reader_index - length src) b.reader_index b.writer_index src
            v.reader_le_writer v.writer_le_size (omega arith),
      )
