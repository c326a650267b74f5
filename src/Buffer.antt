-- ===== src/Buffer.antt =====
-- net/buffer.h: the byte buffer between a socket and its user. `buffer_` is a list of bytes; a
-- `char*` into it is an index from `begin()`; `size_t` arithmetic wraps at 2 ^ 64. A failed
-- `assert` and the exception of an impossible `resize` are the errors of `Checked`.
pub mod Search
pub mod Region
pub mod Growth
pub mod Consume
pub mod Integers
pub mod Fd
pub mod Shrink
mod Tests
use kaycc.Prelude.{
  ℕ, ◌+◌, ◌-◌, ◌%◌, ◌^◌, List, ◌++◌, length, take, drop, replicate, ltb, leb, ◌==◌, if◌then◌else◌,
  Checked, ok, err, length_error, ◌>>=◌, ◌>>◌, assert,
}

abbrev pub cheap_prepend : ℕ
cheap_prepend = 8

abbrev pub initial_size : ℕ
initial_size = 1024

-- `buffer_.max_size()` of a vector of `char`.
abbrev pub max_size : ℕ
max_size = 2 ^ 63 - 1

-- `size_t` addition and subtraction.
abbrev pub add_size : ℕ → ℕ → ℕ
add_size a b = (a + b) % 2 ^ 64

abbrev pub sub_size : ℕ → ℕ → ℕ
sub_size a b = (a + 2 ^ 64 - b) % 2 ^ 64

pub record Buffer : Type 0 where
  pub buffer : List ℕ
  pub reader_index : ℕ
  pub writer_index : ℕ

unfoldable pub readable_bytes : Buffer → ℕ
readable_bytes b = sub_size b.writer_index b.reader_index

unfoldable pub writable_bytes : Buffer → ℕ
writable_bytes b = sub_size (length b.buffer) b.writer_index

unfoldable pub prependable_bytes : Buffer → ℕ
prependable_bytes b = b.reader_index

-- The constructor, with its assertions as they are written.
unfoldable pub construct : ℕ → Checked Buffer
unfolding readable_bytes writable_bytes prependable_bytes
construct size = do
  let fresh : Buffer = record {
    buffer = replicate (add_size cheap_prepend size) 0;
    reader_index = cheap_prepend;
    writer_index = cheap_prepend;
  }
  assert (readable_bytes fresh == 0)
  assert (writable_bytes fresh == initial_size)
  assert (prependable_bytes fresh == cheap_prepend)
  ok fresh

unfoldable pub swap : Buffer × Buffer → Buffer × Buffer
swap (b, rhs) = (
  record { buffer = rhs.buffer; reader_index = rhs.reader_index; writer_index = rhs.writer_index },
  record { buffer = b.buffer; reader_index = b.reader_index; writer_index = b.writer_index },
)

-- The bytes of the vector between two indices.
abbrev pub slice : List ℕ → ℕ → ℕ → List ℕ
slice bytes first last = take (last - first) (drop first bytes)

-- `std::copy` of `src` to the index `first` of `dst`.
abbrev pub copy_to : List ℕ → ℕ → List ℕ → List ℕ
copy_to dst first src = take first dst ++ (src ++ drop (first + length src) dst)

-- The readable bytes, in order.
abbrev pub content : Buffer → List ℕ
content b = slice b.buffer b.reader_index b.writer_index

unfoldable pub peek : Buffer → ℕ
peek b = b.reader_index

unfoldable pub begin_write : Buffer → ℕ
begin_write b = b.writer_index

unfoldable pub retrieve_all : Buffer → Buffer
retrieve_all b = record b { reader_index = cheap_prepend; writer_index = cheap_prepend }

unfoldable pub retrieve : Buffer → ℕ → Checked Buffer
unfolding readable_bytes retrieve_all
retrieve b len = do
  assert (leb len (readable_bytes b))
  ok (
      if ltb len (readable_bytes b)
      then record b { reader_index = add_size b.reader_index len }
      else retrieve_all b)

unfoldable pub retrieve_until : Buffer → ℕ → Checked Buffer
unfolding peek begin_write
retrieve_until b end = do
  assert (leb (peek b) end)
  assert (leb end (begin_write b))
  retrieve b (end - peek b)

-- The string constructor reads `len` bytes from `peek()`, and so may read past the readable ones
-- only where the assertion has failed.
unfoldable pub retrieve_as_string : Buffer → ℕ → Checked (List ℕ × Buffer)
unfolding readable_bytes peek
retrieve_as_string b len = do
  assert (leb len (readable_bytes b))
  let result = take len (drop (peek b) b.buffer)
  rest ← retrieve b len
  ok (result, rest)

unfoldable pub retrieve_all_as_string : Buffer → Checked (List ℕ × Buffer)
unfolding readable_bytes
retrieve_all_as_string b = retrieve_as_string b (readable_bytes b)

-- `buffer_.resize(n)`: new bytes are zero; a size past `max_size()` throws.
unfoldable pub resize : Buffer → ℕ → Checked Buffer
resize b n =
    if ltb max_size n
    then err length_error
    else ok (record b { buffer = take n b.buffer ++ replicate (n - length b.buffer) 0 })

-- The bytes between the two indices go to the front of the writable part.
unfoldable pub compact : Buffer → Buffer
unfolding readable_bytes
compact b =
    let readable = readable_bytes b in
    record {
      buffer = copy_to b.buffer cheap_prepend (content b);
      reader_index = cheap_prepend;
      writer_index = add_size cheap_prepend readable;
    }

unfoldable pub make_space : Buffer → ℕ → Checked Buffer
unfolding writable_bytes prependable_bytes readable_bytes
make_space b len =
    if ltb (add_size (writable_bytes b) (prependable_bytes b)) (add_size len cheap_prepend)
    then resize b (add_size b.writer_index len)
    else do
      assert (ltb cheap_prepend b.reader_index)
      assert (readable_bytes b == readable_bytes (compact b))
      ok (compact b)

unfoldable pub ensure_writable_bytes : Buffer → ℕ → Checked Buffer
unfolding writable_bytes
ensure_writable_bytes b len = do
  b' ← if ltb (writable_bytes b) len then make_space b len else ok b
  assert (leb len (writable_bytes b'))
  ok b'

unfoldable pub has_written : Buffer → ℕ → Checked Buffer
unfolding writable_bytes
has_written b len = do
  assert (leb len (writable_bytes b))
  ok (record b { writer_index = add_size b.writer_index len })

unfoldable pub unwrite : Buffer → ℕ → Checked Buffer
unfolding readable_bytes
unwrite b len = do
  assert (leb len (readable_bytes b))
  ok (record b { writer_index = sub_size b.writer_index len })

unfoldable pub append : Buffer → List ℕ → Checked Buffer
unfolding begin_write
append b src = do
  b' ← ensure_writable_bytes b (length src)
  has_written (record b' { buffer = copy_to b'.buffer (begin_write b') src }) (length src)

unfoldable pub prepend : Buffer → List ℕ → Checked Buffer
unfolding prependable_bytes
prepend b src = do
  assert (leb (length src) (prependable_bytes b))
  let first = sub_size b.reader_index (length src)
  ok (record b { reader_index = first; buffer = copy_to b.buffer first src })

-- `Buffer other;` is of the initial size, so its assertions hold.
unfoldable pub shrink : Buffer → ℕ → Checked Buffer
unfolding construct swap readable_bytes
shrink b reserve = do
  other ← construct initial_size
  roomy ← ensure_writable_bytes other (add_size (readable_bytes b) reserve)
  filled ← append roomy (content b)
  ok (swap (b, filled)).0
