-- ===== src/Buffer/Region.antt =====
-- net/buffer.h: the three regions of a buffer, and what a copy or a resize does to the bytes between
-- the two indices.
use kaycc.Prelude.{
  ℕ, ◌+◌, ◌-◌, ◌≤◌, ◌≡◌, refl, ap, ◌∙◌, List, ◌++◌, append-nil, length, take, drop, arith,
  length-append, length-take, length-drop, drop-append_le, drop-append_eq, take-append_add,
  take-append_le, drop-take, drop-drop, take-take,
}
use kaycc.Buffer.{
  Buffer, cheap_prepend, max_size, slice, copy_to, content, readable_bytes, writable_bytes,
}

-- The picture of the header comment: 0 <= readerIndex <= writerIndex <= size.
pub record IsValid (b : Buffer) : Type 0 where
  pub reader_le_writer : b.reader_index ≤ b.writer_index
  pub writer_le_size : b.writer_index ≤ length b.buffer
  pub size_le_max : length b.buffer ≤ max_size
  pub prependable : cheap_prepend ≤ length b.buffer

-- In a valid buffer the `size_t` subtractions do not wrap.
pub readable_bytes-eq :
    (b : Buffer) → IsValid b → readable_bytes b ≡ b.writer_index - b.reader_index
unfolding readable_bytes
readable_bytes-eq b v = omega arith

pub writable_bytes-eq :
    (b : Buffer) → IsValid b → writable_bytes b ≡ length b.buffer - b.writer_index
unfolding writable_bytes
writable_bytes-eq b v = omega arith

pub length-slice :
    (bytes : List ℕ) (r w : ℕ) → r ≤ w → w ≤ length bytes → length (slice bytes r w) ≡ w - r
length-slice bytes r w h k = omega (arith, length-take (w - r) (drop r bytes), length-drop r bytes)

pub length-content : (b : Buffer) → IsValid b → length (content b) ≡ b.writer_index - b.reader_index
length-content b v =
    length-slice b.buffer b.reader_index b.writer_index v.reader_le_writer v.writer_le_size

pub length-copy_to :
    (dst : List ℕ) (first : ℕ) (src : List ℕ)
    → first + length src ≤ length dst
    → length (copy_to dst first src) ≡ length dst
length-copy_to dst first src h = omega (
  arith,
  length-append (take first dst) (src ++ drop (first + length src) dst),
  length-append src (drop (first + length src) dst),
  length-take first dst,
  length-drop (first + length src) dst,
)

-- A copy behind the readable bytes extends them.
pub slice-copy_to_end :
    (bytes : List ℕ) (r w w' : ℕ) (src : List ℕ)
    → r ≤ w
    → w ≤ length bytes
    → w' ≡ w + length src
    → slice (copy_to bytes w src) r w' ≡ slice bytes r w ++ src
slice-copy_to_end bytes r w w' src h k e =
    rw
      (
        drop-append_le r (take w bytes) (src ++ drop (w + length src) bytes)
            (omega (arith, length-take w bytes)),
        drop-take r w (w - r) bytes (omega arith),
        take-append_add (length src) (w' - r) (take (w - r) (drop r bytes))
            (src ++ drop (w + length src) bytes) (omega (arith, length-slice bytes r w)),
        take-append_add 0 (length src) src (drop (w + length src) bytes) (omega arith),
        append-nil src,
      )
      refl

-- A copy in front of the readable bytes extends them at the other end.
pub slice-copy_to_front :
    (bytes : List ℕ) (f r w : ℕ) (src : List ℕ)
    → r ≤ w
    → w ≤ length bytes
    → r ≡ f + length src
    → slice (copy_to bytes f src) f w ≡ src ++ slice bytes r w
slice-copy_to_front bytes f r w src h k e =
    rw
      (
        drop-append_eq f (take f bytes) (src ++ drop (f + length src) bytes)
            (omega (arith, length-take f bytes)),
        take-append_add (w - r) (w - f) src (drop (f + length src) bytes) (omega arith),
        ← e,
      )
      refl

-- More room behind the vector changes nothing before it.
pub slice-append :
    (bytes more : List ℕ) (r w : ℕ)
    → r ≤ w
    → w ≤ length bytes
    → slice (bytes ++ more) r w ≡ slice bytes r w
slice-append bytes more r w h k =
    rw
      (
        drop-append_le r bytes more (omega arith),
        take-append_le (w - r) (drop r bytes) more (omega (arith, length-drop r bytes)),
      )
      refl

pub drop-slice :
    (bytes : List ℕ) (r w n : ℕ) → r + n ≤ w → drop n (slice bytes r w) ≡ slice bytes (r + n) w
drop-slice bytes r w n h =
    rw
      (
        drop-take n (w - r) (w - (r + n)) (drop r bytes) (omega arith),
        drop-drop n r (r + n) bytes refl,
      )
      refl

pub take-slice :
    (bytes : List ℕ) (r w n : ℕ) → r + n ≤ w → take n (slice bytes r w) ≡ slice bytes r (r + n)
take-slice bytes r w n h =
    take-take n (w - r) (drop r bytes) (omega arith) ∙ ap (λ k. take k (drop r bytes)) (omega arith)
