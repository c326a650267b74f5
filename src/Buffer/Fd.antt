-- ===== src/Buffer/Fd.antt =====
-- net/buffer.cpp: `readFd` fills the writable bytes and then an array on the stack. What the kernel's
-- `readv` does is an argument: it fails, or hands over bytes, no more than the vectors hold.
use kaycc.Prelude.{
  ◌⊎◌, ℕ, ◌+◌, ◌-◌, ◌≤◌, ◌<◌, ◌≡◌, refl, ap, ◌∙◌, inl, inr, List, ◌++◌, append_assoc, length, take,
  drop, ltb, leb, true, false, if◌then◌else◌, Option, none, some, Checked, ok, ◌>>=◌, Returns,
  Returns-bind, arith, length-take, length-drop, take-append-drop, take_all, Bool-cases,
}
use kaycc.Buffer.{Buffer, max_size, add_size, copy_to, content, writable_bytes, append}
use kaycc.Buffer.Region.{IsValid, writable_bytes-eq, length-copy_to, slice-copy_to_end}
use kaycc.Buffer.Growth.{Appended, append_lem}

abbrev pub extrabuf_size : ℕ
extrabuf_size = 65536

pub data Readv : Type 0 where
  failed : ℕ → Readv
  filled : List ℕ → Readv

-- The bytes that the vectors given to `readv` hold.
unfoldable pub iov_size : Buffer → ℕ
iov_size b =
    if ltb (writable_bytes b) extrabuf_size
    then writable_bytes b + extrabuf_size
    else writable_bytes b

pub record ReadFd : Type 0 where
  pub buf : Buffer
  -- `none` is the result -1.
  pub n : Option ℕ
  pub saved_errno : Option ℕ

-- The vector after the kernel has written: the first bytes go behind the readable ones.
abbrev scatter : Buffer → List ℕ → Buffer
scatter b bytes = record b {
  buffer = copy_to b.buffer b.writer_index (take (writable_bytes b) bytes);
}

unfoldable pub read_fd : Buffer → Readv → Checked ReadFd
read_fd b (failed errno) = ok (record { buf = b; n = none; saved_errno = some errno })
read_fd b (filled bytes) =
    let writable = writable_bytes b in
    let b' = scatter b bytes in
    if leb (length bytes) writable
    then ok (record {
      buf = record b' { writer_index = add_size b.writer_index (length bytes) };
      n = some (length bytes);
      saved_errno = none;
    })
    else do
      c ← append (record b' { writer_index = length b'.buffer }) (drop writable bytes)
      ok (record { buf = c; n = some (length bytes); saved_errno = none })

-- The bytes read stand behind those that were there, in order, and none is lost; the result is
-- their number.
abbrev pub Received : Buffer → List ℕ → ReadFd → Type 0
Received b bytes r =
    IsValid r.buf
    × (content r.buf ≡ content b ++ bytes)
    × (r.n ≡ some (length bytes))
    × (r.saved_errno ≡ none)

-- The vectors that `readFd` gives to `readv` for a valid buffer hold at most 128k - 1 bytes, or
-- exactly the room behind the write index.
pub iov_size_bound :
    (b : Buffer)
    → IsValid b
    → (iov_size b ≤ 131071) ⊎ (iov_size b ≡ length b.buffer - b.writer_index)
unfolding iov_size
iov_size_bound b v = ground (arith, writable_bytes-eq b v)

iov_size-le : (b : Buffer) → iov_size b ≤ writable_bytes b + extrabuf_size
unfolding iov_size
iov_size-le b = ground arith

-- Everything fits behind the readable bytes.
read_fd_small :
    (b : Buffer) (bytes : List ℕ)
    → IsValid b
    → leb (length bytes) (writable_bytes b) ≡ true
    → Returns (read_fd b (filled bytes)) (Received b bytes)
unfolding read_fd
read_fd_small b bytes v e =
    let fits : length bytes ≤ length b.buffer - b.writer_index =
      ground (arith, writable_bytes-eq b v) in
    let all : take (writable_bytes b) bytes ≡ bytes =
      take_all (writable_bytes b) bytes (ground arith) in
    let size : length (copy_to b.buffer b.writer_index bytes) ≡ length b.buffer =
      length-copy_to b.buffer b.writer_index bytes (omega arith) in
    rw (e, all)
      (
        omega (arith, size),
        slice-copy_to_end b.buffer b.reader_index b.writer_index _ bytes v.reader_le_writer
            v.writer_le_size (omega arith),
        refl,
        refl,
      )

-- The buffer once its vector is full.
abbrev full : Buffer → List ℕ → Buffer
full b bytes = record (scatter b bytes) { writer_index = length (scatter b bytes).buffer }

length-scatter :
    (b : Buffer) (bytes : List ℕ)
    → IsValid b
    → writable_bytes b ≤ length bytes
    → length (scatter b bytes).buffer ≡ length b.buffer
length-scatter b bytes v h =
    length-copy_to b.buffer b.writer_index (take (writable_bytes b) bytes)
      (omega (arith, writable_bytes-eq b v, length-take (writable_bytes b) bytes))

content-full :
    (b : Buffer) (bytes : List ℕ)
    → IsValid b
    → writable_bytes b ≤ length bytes
    → content (full b bytes) ≡ content b ++ take (writable_bytes b) bytes
content-full b bytes v h =
    slice-copy_to_end b.buffer b.reader_index b.writer_index _ (take (writable_bytes b) bytes)
      v.reader_le_writer v.writer_le_size
      (omega (
        arith,
        length-scatter b bytes v h,
        writable_bytes-eq b v,
        length-take (writable_bytes b) bytes,
      ))

read_fd_large :
    (b : Buffer) (bytes : List ℕ)
    → IsValid b
    → length bytes ≤ iov_size b
    → length b.buffer + extrabuf_size ≤ max_size
    → leb (length bytes) (writable_bytes b) ≡ false
    → Returns (read_fd b (filled bytes)) (Received b bytes)
unfolding read_fd
read_fd_large b bytes v h k e =
    let more : writable_bytes b < length bytes = ground arith in
    let size : length (scatter b bytes).buffer ≡ length b.buffer =
      length-scatter b bytes v (omega arith) in
    let valid : IsValid (full b bytes) = omega (arith, size) in
    rw e (
      Returns-bind (Appended (full b bytes) (drop (writable_bytes b) bytes)) (Received b bytes)
        (append (full b bytes) (drop (writable_bytes b) bytes)) _
        (append_lem (full b bytes) (drop (writable_bytes b) bytes) valid
          (omega (arith, size, length-drop (writable_bytes b) bytes, iov_size-le b)))
        λ c a. (
          a.0,
          a.1
              ∙ ap (λ l. l ++ drop (writable_bytes b) bytes) (content-full b bytes v (omega arith))
              ∙ append_assoc (content b) (take (writable_bytes b) bytes)
                  (drop (writable_bytes b) bytes)
              ∙ ap (λ l. content b ++ l) (take-append-drop (writable_bytes b) bytes),
          refl,
          refl,
        ))

-- In a valid buffer at least 65536 bytes smaller than the largest vector, if `readv` delivers no
-- more bytes than its vectors hold, `readFd` returns their number, sets no error, and leaves a
-- valid buffer with the delivered bytes behind the readable ones, in order.
pub read_fd-filled :
    (b : Buffer) (bytes : List ℕ)
    → IsValid b
    → length bytes ≤ iov_size b
    → length b.buffer + extrabuf_size ≤ max_size
    → Returns (read_fd b (filled bytes)) (Received b bytes)
read_fd-filled b bytes v h k = elim (Bool-cases (leb (length bytes) (writable_bytes b))) [
  | inl e ↦ read_fd_small b bytes v e
  | inr e ↦ read_fd_large b bytes v h k e
]
