-- ===== src/Buffer/Search.antt =====
-- net/buffer.h: the searches for an end of line in the readable bytes. A null pointer is `none`,
-- and any other an index from `begin()`.
pub mod First
mod Tests
use kaycc.Prelude.{
  ℕ, suc, ◌+◌, Bool, false, ◌&&◌, Option, none, some, List, [], ◌∷◌, leb, ◌==◌, if◌then◌else◌,
  Checked, ok, ◌>>◌, assert,
}
use kaycc.Buffer.{Buffer, slice, content, peek, begin_write}

unfoldable pub starts_crlf : List ℕ → Bool
starts_crlf [] = false
starts_crlf (x ∷ []) = false
starts_crlf (x ∷ y ∷ rest) = x == 13 && y == 10

-- `std::search` for "\r\n": the offset of the first match, or the length.
pub search_crlf : List ℕ → ℕ
unfolding starts_crlf
search_crlf [] = 0
search_crlf (x ∷ xs) = if starts_crlf (x ∷ xs) then 0 else suc (search_crlf xs)

unfoldable pub starts_eol : List ℕ → Bool
starts_eol [] = false
starts_eol (x ∷ rest) = x == 10

-- `memchr` for '\n'.
pub memchr_eol : List ℕ → Option ℕ
memchr_eol [] = none
memchr_eol (x ∷ xs) =
    if x == 10 then some 0 else elim (memchr_eol xs) [ none ↦ none | some i ↦ some (suc i) ]

pub find_crlf_from : Buffer → ℕ → Checked (Option ℕ)
unfolding peek begin_write
find_crlf_from b start = do
  assert (leb (peek b) start)
  assert (leb start (begin_write b))
  let crlf = start + search_crlf (slice b.buffer start (begin_write b))
  ok (if crlf == begin_write b then none else some crlf)

pub find_crlf : Buffer → Option ℕ
unfolding peek begin_write
find_crlf b =
    let crlf = peek b + search_crlf (content b) in if crlf == begin_write b then none else some crlf

pub find_eol_from : Buffer → ℕ → Checked (Option ℕ)
unfolding peek begin_write
find_eol_from b start = do
  assert (leb (peek b) start)
  assert (leb start (begin_write b))
  ok (elim (memchr_eol (slice b.buffer start (begin_write b))) [
    | none ↦ none
    | some i ↦ some (start + i)
  ])

pub find_eol : Buffer → Option ℕ
unfolding peek
find_eol b = elim (memchr_eol (content b)) [ none ↦ none | some i ↦ some (peek b + i) ]
