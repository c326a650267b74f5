-- ===== src/Buffer/Tests.antt =====
-- net/buffer.h and buffer.cpp on small buffers.
use kaycc.Prelude.{
  ◌-◌, ◌≤◌, ◌≡◌, refl, [], ◌∷◌, length, arith, err, ◌>>=◌, assertion, Returns, ◌⊎◌, replicate,
}
use kaycc.Buffer.{Buffer, content, retrieve, append, writable_bytes}
use kaycc.Buffer.Region.{IsValid}
use kaycc.Buffer.Growth.{Appended, Filled, append_lem, append_in_place}
use kaycc.Buffer.Consume.{retrieve_past_end}
use kaycc.Buffer.Integers.Roundtrip.{int32_stream, append_all, read_all}
use kaycc.Buffer.Integers.LittleEndian.{little_endian_host}
use kaycc.Buffer.Fd.{Received, read_fd, filled, iov_size, iov_size_bound, read_fd-filled}

-- Three bytes to read, at index 9, and room for two.
abbrev small : Buffer
small = record {
  buffer = 0 ∷ 0 ∷ 0 ∷ 0 ∷ 0 ∷ 0 ∷ 0 ∷ 0 ∷ 7 ∷ 65 ∷ 66 ∷ 67 ∷ 0 ∷ 0 ∷ [];
  reader_index = 9;
  writer_index = 12;
}

small-IsValid : IsValid small
small-IsValid = omega arith

abbrev empty : Buffer
empty = record { buffer = replicate 12 0; reader_index = 8; writer_index = 8 }

empty-IsValid : IsValid empty
empty-IsValid = omega arith

append_example : Returns (append small (68 ∷ 69 ∷ 70 ∷ [])) (Appended small (68 ∷ 69 ∷ 70 ∷ []))
append_example = append_lem small (68 ∷ 69 ∷ 70 ∷ []) small-IsValid (omega arith)

append_in_place_example : Returns (append small (68 ∷ [])) (Filled small (68 ∷ []))
append_in_place_example = append_in_place small (68 ∷ []) small-IsValid (omega arith)

retrieve_past_end_example : retrieve small 4 ≡ err assertion
retrieve_past_end_example = retrieve_past_end small 4 small-IsValid (omega arith)

int32_stream_example :
    Returns
      (append_all little_endian_host empty (258 ∷ 4294967295 ∷ [])
        >>= read_all little_endian_host 2)
      (λ r. (r.0 ≡ 258 ∷ 4294967295 ∷ []) × (content r.1 ≡ []))
int32_stream_example =
    int32_stream little_endian_host empty (258 ∷ 4294967295 ∷ []) empty-IsValid refl (omega arith)
      (omega arith, (omega arith, tt))

small_iov : 4 ≤ iov_size small
unfolding iov_size writable_bytes
small_iov = omega arith

read_fd_example :
    Returns (read_fd small (filled (1 ∷ 2 ∷ 3 ∷ 4 ∷ []))) (Received small (1 ∷ 2 ∷ 3 ∷ 4 ∷ []))
read_fd_example = read_fd-filled small (1 ∷ 2 ∷ 3 ∷ 4 ∷ []) small-IsValid small_iov (omega arith)

iov_size_example :
    (iov_size small ≤ 131071) ⊎ (iov_size small ≡ length small.buffer - small.writer_index)
iov_size_example = iov_size_bound small small-IsValid
