-- ===== src/Buffer/Growth.antt =====
-- net/buffer.h: making room, and writing behind the readable bytes.
use kaycc.Prelude.{
  true, false, if◌then◌else◌, ℕ, ◌+◌, ◌-◌, ◌≤◌, ◌<◌, ◌≡◌, refl, inl, inr, ap, ◌∙◌, List, ◌++◌,
  length, replicate, arith, length-append, length-replicate, take_all, Bool-cases, Returns,
  Returns-bind, Returns-assert, Returns-map, lt→ltb, le→not_ltb, ltb, leb, ==_iff, ok,
}
use kaycc.Buffer.{
  Buffer, cheap_prepend, max_size, add_size, copy_to, content, readable_bytes, writable_bytes,
  prependable_bytes, resize, compact, make_space, ensure_writable_bytes, has_written, append,
  begin_write,
}
use kaycc.Buffer.Region.{
  IsValid, writable_bytes-eq, length-content, length-copy_to, slice-copy_to_end, slice-append,
}

-- `c` is a valid buffer with the bytes of `b` and room for `len` more, no further to the right.
abbrev pub HasRoom : Buffer → ℕ → Buffer → Type 0
HasRoom b len c =
    IsValid c
    × (content c ≡ content b)
    × (c.writer_index + len ≤ length c.buffer)
    × (c.writer_index ≤ b.writer_index)

resize-eq :
    (b : Buffer) (len : ℕ)
    → length b.buffer ≤ b.writer_index + len
    → b.writer_index + len ≤ max_size
    → resize b (add_size b.writer_index len)
      ≡ ok (record b { buffer = b.buffer ++ replicate (b.writer_index + len - length b.buffer) 0 })
unfolding resize
resize-eq b len h k =
    let e : add_size b.writer_index len ≡ b.writer_index + len = omega arith in
    rw (e, le→not_ltb max_size (b.writer_index + len) k, take_all (b.writer_index + len) b.buffer h)
      refl

resize-HasRoom :
    (b : Buffer) (len : ℕ)
    → IsValid b
    → length b.buffer ≤ b.writer_index + len
    → b.writer_index + len ≤ max_size
    → Returns (resize b (add_size b.writer_index len)) (HasRoom b len)
resize-HasRoom b len v h k =
    let more : List ℕ = replicate (b.writer_index + len - length b.buffer) 0 in
    let size : length (b.buffer ++ more) ≡ b.writer_index + len = omega (
      arith,
      length-append b.buffer more,
      length-replicate {A = ℕ} (b.writer_index + len - length b.buffer) 0,
    ) in
    rw (resize-eq b len h k) (
      omega (arith, size),
      slice-append b.buffer more b.reader_index b.writer_index v.reader_le_writer v.writer_le_size,
      omega (arith, size),
      omega arith,
    )

compact-HasRoom :
    (b : Buffer) (len : ℕ)
    → IsValid b
    → cheap_prepend < b.reader_index
    → cheap_prepend + len + b.writer_index ≤ length b.buffer + b.reader_index
    → HasRoom b len (compact b)
unfolding compact readable_bytes
compact-HasRoom b len v h k =
    let count : length (content b) ≡ b.writer_index - b.reader_index = length-content b v in
    let size : length (copy_to b.buffer cheap_prepend (content b)) ≡ length b.buffer =
      length-copy_to b.buffer cheap_prepend (content b) (omega (arith, count)) in
    (
      omega (arith, size),
      slice-copy_to_end b.buffer cheap_prepend cheap_prepend _ (content b) (omega arith)
          v.prependable (omega (arith, count)),
      omega (arith, size),
      omega arith,
    )

readable_bytes-compact :
    (b : Buffer)
    → IsValid b
    → cheap_prepend < b.reader_index
    → readable_bytes b ≡ readable_bytes (compact b)
unfolding compact readable_bytes
readable_bytes-compact b v h = omega arith

-- Where the vector does not grow there is slack in front, so the assertion of `makeSpace` holds.
slack :
    (b : Buffer) (len : ℕ)
    → IsValid b
    → length b.buffer < b.writer_index + len
    → b.writer_index + len ≤ max_size
    → ltb (add_size (writable_bytes b) (prependable_bytes b)) (add_size len cheap_prepend) ≡ false
    → (cheap_prepend < b.reader_index)
      × (cheap_prepend + len + b.writer_index ≤ length b.buffer + b.reader_index)
unfolding writable_bytes prependable_bytes
slack b len v h k e = ground arith

pub make_space-HasRoom :
    (b : Buffer) (len : ℕ)
    → IsValid b
    → length b.buffer < b.writer_index + len
    → b.writer_index + len ≤ max_size
    → Returns (make_space b len) (HasRoom b len)
unfolding make_space
make_space-HasRoom b len v h k =
    elim (Bool-cases
      (ltb (add_size (writable_bytes b) (prependable_bytes b)) (add_size len cheap_prepend))) [
        | inl e ↦ rw e (resize-HasRoom b len v (omega arith) k)
        | inr e ↦
            let (front, room) = slack b len v h k e in
            rw e (
              Returns-assert (HasRoom b len) _ _ (lt→ltb _ _ front) (
                Returns-assert (HasRoom b len) _ (ok (compact b))
                  ((==_iff _ _).1 (readable_bytes-compact b v front))
                  (compact-HasRoom b len v front room)))
      ]

-- In a valid buffer in which the bytes asked for end at or below the largest size of a vector,
-- `ensureWritableBytes` returns: its assertions hold, the buffer stays valid with the same
-- readable bytes, and there is room for as many more as asked for. The write index has not moved
-- to the right.
pub ensure_writable_bytes-HasRoom :
    (b : Buffer) (len : ℕ)
    → IsValid b
    → b.writer_index + len ≤ max_size
    → Returns (ensure_writable_bytes b len) (HasRoom b len)
unfolding ensure_writable_bytes
ensure_writable_bytes-HasRoom b len v k =
    Returns-bind (HasRoom b len) (HasRoom b len)
      (if ltb (writable_bytes b) len then make_space b len else ok b) _ grown
      λ c room.
        Returns-assert (HasRoom b len) (leb len (writable_bytes c)) (ok c)
          (ground (arith, writable_bytes-eq c room.0)) room
  where
    grown : Returns (if ltb (writable_bytes b) len then make_space b len else ok b) (HasRoom b len)
    grown = ground (arith, writable_bytes-eq b v, make_space-HasRoom b len v)

-- `c` is a valid buffer that holds the bytes of `b` and then `src`.
abbrev pub Appended : Buffer → List ℕ → Buffer → Type 0
Appended b src c =
    IsValid c × (content c ≡ content b ++ src) × (c.writer_index ≤ b.writer_index + length src)

-- The bytes are written where there was room for them.
abbrev pub Filled : Buffer → List ℕ → Buffer → Type 0
Filled b src c =
    Appended b src c
    × (c.writer_index ≡ b.writer_index + length src)
    × (length c.buffer ≡ length b.buffer)

written :
    (c : Buffer) (src : List ℕ)
    → IsValid c
    → c.writer_index + length src ≤ length c.buffer
    → Returns
        (has_written (record c { buffer = copy_to c.buffer c.writer_index src }) (length src))
        (Filled c src)
unfolding has_written writable_bytes
written c src v k =
    let size : length (copy_to c.buffer c.writer_index src) ≡ length c.buffer =
      length-copy_to c.buffer c.writer_index src k in
    let fits : leb (length src)
          (writable_bytes (record c { buffer = copy_to c.buffer c.writer_index src }))
        ≡ true =
      ground (arith, size) in
    rw fits (
      (
        omega (arith, size),
        slice-copy_to_end c.buffer c.reader_index c.writer_index _ src v.reader_le_writer
            v.writer_le_size (omega arith),
        omega arith,
      ),
      omega arith,
      size,
    )

-- In a valid buffer, if the new bytes end at or below the largest size of a vector, `append`
-- returns, and leaves a valid buffer whose readable bytes are the old ones and then the new ones.
-- The write index moves to the right by at most their number.
pub append_lem :
    (b : Buffer) (src : List ℕ)
    → IsValid b
    → b.writer_index + length src ≤ max_size
    → Returns (append b src) (Appended b src)
unfolding append begin_write
append_lem b src v k =
    Returns-bind (HasRoom b (length src)) (Appended b src) (ensure_writable_bytes b (length src)) _
      (ensure_writable_bytes-HasRoom b (length src) v k)
      λ c room.
        Returns-map (Filled c src) (Appended b src) _ (written c src room.0 room.2)
          (λ d h. (h.0.0, h.0.1 ∙ ap (λ bytes. bytes ++ src) room.1, omega (arith, room.3, h.0.2)))

ensure_writable_bytes-id :
    (b : Buffer) (len : ℕ)
    → IsValid b
    → b.writer_index + len ≤ length b.buffer
    → ensure_writable_bytes b len ≡ ok b
unfolding ensure_writable_bytes
ensure_writable_bytes-id b len v k = ground (arith, writable_bytes-eq b v)

-- Where a valid buffer has room for the bytes behind its write index, `append` returns, puts them
-- behind the readable bytes, moves the write index by exactly their number, and does not resize
-- the vector.
pub append_in_place :
    (b : Buffer) (src : List ℕ)
    → IsValid b
    → b.writer_index + length src ≤ length b.buffer
    → Returns (append b src) (Filled b src)
unfolding append begin_write
append_in_place b src v k = rw (ensure_writable_bytes-id b (length src) v k) (written b src v k)
