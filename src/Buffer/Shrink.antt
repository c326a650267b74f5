-- ===== src/Buffer/Shrink.antt =====
-- net/buffer.h: the constructor, `swap` and `shrink`.
use kaycc.Prelude.{
  ap, ◌++◌, ℕ, ◌+◌, ◌≤◌, ◌≡◌, ◌≢◌, refl, ◌∙◌, length, arith, Returns, Returns-bind, ok, err,
  assertion, length-replicate, replicate,
}
use kaycc.Buffer.{
  Buffer, cheap_prepend, initial_size, max_size, add_size, content, construct, shrink,
  readable_bytes, ensure_writable_bytes, append,
}
use kaycc.Buffer.Region.{IsValid, readable_bytes-eq, length-content}
use kaycc.Buffer.Growth.{HasRoom, ensure_writable_bytes-HasRoom, append_in_place, Filled}

abbrev fresh : Buffer
fresh = record { buffer = replicate 1032 0; reader_index = 8; writer_index = 8 }

construct_initial : construct initial_size ≡ ok fresh
unfolding construct
construct_initial = refl

fresh-IsValid : IsValid fresh
fresh-IsValid = omega (arith, length-replicate {A = ℕ} 1032 0)

-- `Buffer(size)` fails an assertion for every size but the default one, if the size is no larger
-- than a vector may be: the constructor compares the writable bytes with the default size, not
-- with the one asked for.
pub construct_other_size :
    (size : ℕ) → size ≢ initial_size → size ≤ max_size → construct size ≡ err assertion
unfolding construct
construct_other_size size ne h =
    ground (arith, length-replicate {A = ℕ} (add_size cheap_prepend size) 0)

-- `c` is a valid buffer with the bytes of `b` and room for `reserve` more.
abbrev pub Shrunk : Buffer → ℕ → Buffer → Type 0
Shrunk b reserve c =
    IsValid c × (content c ≡ content b) × (c.writer_index + reserve ≤ length c.buffer)

-- In a valid buffer, if the prependable default, the readable bytes and `reserve` together fit in
-- a vector, `shrink(reserve)` returns, and leaves a valid buffer with the same readable bytes and
-- room for at least `reserve` more.
pub shrink_lem :
    (b : Buffer) (reserve : ℕ)
    → IsValid b
    → cheap_prepend + length (content b) + reserve ≤ max_size
    → Returns (shrink b reserve) (Shrunk b reserve)
unfolding shrink
shrink_lem b reserve v h =
    let n : add_size (readable_bytes b) reserve ≡ length (content b) + reserve =
      omega (arith, readable_bytes-eq b v, length-content b v) in
    rw n (
      Returns-bind (HasRoom fresh (length (content b) + reserve)) (Shrunk b reserve)
        (ensure_writable_bytes fresh (length (content b) + reserve)) _
        (ensure_writable_bytes-HasRoom fresh (length (content b) + reserve) fresh-IsValid
          (omega arith))
        λ roomy room.
          Returns-bind (Filled roomy (content b)) (Shrunk b reserve) (append roomy (content b)) _
            (append_in_place roomy (content b) room.0 (omega arith))
            λ filled f. (f.0.0, f.0.1 ∙ ap (λ bytes. bytes ++ content b) room.1, omega arith))
