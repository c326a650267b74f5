-- ===== src/Buffer/Search/Tests.antt =====
-- net/buffer.h: the searches on a small buffer.
use kaycc.Prelude.{[], ◌∷◌}
use kaycc.Buffer.{Buffer}

-- A carriage return alone, and then an end of line.
abbrev lines : Buffer
lines = record {
  buffer = 0 ∷ 0 ∷ 0 ∷ 0 ∷ 0 ∷ 0 ∷ 0 ∷ 0 ∷ 13 ∷ 65 ∷ 13 ∷ 10 ∷ 66 ∷ 0 ∷ [];
  reader_index = 8;
  writer_index = 13;
}
