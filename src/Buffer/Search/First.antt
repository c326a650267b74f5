-- ===== src/Buffer/Search/First.antt =====
-- net/buffer.h: the searches find the first match, and miss none.
use kaycc.Prelude.{
  ℕ, zero, suc, ◌+◌, ◌-◌, ◌<◌, ◌≤◌, ◌≡◌, refl, ◌⊎◌, inl, inr, Bool, true, false, Option, none, some,
  List, [], ◌∷◌, length, drop, ◌==◌, arith, Bool-cases,
}
use kaycc.Buffer.{Buffer, content, peek, begin_write}
use kaycc.Buffer.Region.{IsValid, length-content}
use kaycc.Buffer.Search.{starts_crlf, search_crlf, starts_eol, memchr_eol, find_crlf, find_eol}

-- The first place in the bytes from which the test holds is `k`.
abbrev pub FirstAt : (List ℕ → Bool) → List ℕ → ℕ → Type 0
FirstAt test bytes k =
    (test (drop k bytes) ≡ true) × ((j : ℕ) → j < k → test (drop j bytes) ≡ false)

-- The test holds from no place in the bytes.
abbrev pub Nowhere : (List ℕ → Bool) → List ℕ → Type 0
Nowhere test bytes = (j : ℕ) → test (drop j bytes) ≡ false

-- What a search answers about the readable bytes, as an index from `begin()`.
abbrev pub Answers : (List ℕ → Bool) → Buffer → Option ℕ → Type 0
Answers test b none = Nowhere test (content b)
Answers test b (some i) =
    (b.reader_index ≤ i) × (i < b.writer_index) × FirstAt test (content b) (i - b.reader_index)

module _ (test : List ℕ → Bool) where
  before_suc :
      (x : ℕ) (xs : List ℕ) (k : ℕ)
      → test (x ∷ xs) ≡ false
      → ((j : ℕ) → j < k → test (drop j xs) ≡ false)
      → (j : ℕ) → j < suc k
      → test (drop j (x ∷ xs)) ≡ false
  before_suc x xs k e h zero l = e
  before_suc x xs k e h (suc j) l = h j (omega arith)

  Nowhere-cons :
      (x : ℕ) (xs : List ℕ) → test (x ∷ xs) ≡ false → Nowhere test xs → Nowhere test (x ∷ xs)
  Nowhere-cons x xs e h zero = e
  Nowhere-cons x xs e h (suc j) = h j

  Nowhere-nil : test [] ≡ false → Nowhere test []
  Nowhere-nil e zero = e
  Nowhere-nil e (suc j) = e

search_crlf_lem :
    (bytes : List ℕ)
    → ((search_crlf bytes < length bytes) × FirstAt starts_crlf bytes (search_crlf bytes))
      ⊎ ((search_crlf bytes ≡ length bytes) × Nowhere starts_crlf bytes)
unfolding search_crlf
search_crlf_lem [] = inr (refl, Nowhere-nil starts_crlf (unfold starts_crlf in refl))
search_crlf_lem (x ∷ xs) = elim (Bool-cases (starts_crlf (x ∷ xs))) [
  | inl e ↦ rw e (inl (omega arith, (e, λ j l. absurd (omega arith))))
  | inr e ↦ rw e (elim (search_crlf_lem xs) [
    | inl (l, (f, h)) ↦ inl (omega arith, (f, before_suc starts_crlf x xs _ e h))
    | inr (l, h) ↦ inr (omega arith, Nowhere-cons starts_crlf x xs e h)
  ])
]

abbrev MemchrAnswers : List ℕ → Option ℕ → Type 0
MemchrAnswers bytes none = Nowhere starts_eol bytes
MemchrAnswers bytes (some k) = (k < length bytes) × FirstAt starts_eol bytes k

memchr_cons :
    (x : ℕ) (xs : List ℕ) (r : Option ℕ)
    → (x == 10) ≡ false
    → MemchrAnswers xs r
    → MemchrAnswers (x ∷ xs) (elim r [ none ↦ none | some i ↦ some (suc i) ])
memchr_cons x xs none e h = Nowhere-cons starts_eol x xs (unfold starts_eol in e) h
memchr_cons x xs (some k) e (l, (f, h)) =
    (omega arith, (f, before_suc starts_eol x xs k (unfold starts_eol in e) h))

memchr_eol_lem : (bytes : List ℕ) → MemchrAnswers bytes (memchr_eol bytes)
unfolding memchr_eol
memchr_eol_lem [] = Nowhere-nil starts_eol (unfold starts_eol in refl)
memchr_eol_lem (x ∷ xs) = elim (Bool-cases (x == 10)) [
  | inl e ↦ rw e (omega arith, ((unfold starts_eol in e), λ j l. absurd (omega arith)))
  | inr e ↦ rw e (memchr_cons x xs (memchr_eol xs) e (memchr_eol_lem xs))
]

-- An offset from `peek()`, as an index.
shift-Answers :
    (test : List ℕ → Bool) (b : Buffer) (k : ℕ)
    → IsValid b
    → k < length (content b)
    → FirstAt test (content b) k
    → Answers test b (some (b.reader_index + k))
shift-Answers test b k v l f =
    let back : b.reader_index + k - b.reader_index ≡ k = omega arith in
    (omega arith, omega (arith, length-content b v), rw back f)

-- In a valid buffer `findCRLF()` answers with the place of the first "\r\n" in the readable
-- bytes, and with a null pointer only if there is none.
pub find_crlf-Answers : (b : Buffer) → IsValid b → Answers starts_crlf b (find_crlf b)
unfolding find_crlf peek begin_write
find_crlf-Answers b v = elim (search_crlf_lem (content b)) [
  | inl (l, f) ↦
      let found : (b.reader_index + search_crlf (content b) == b.writer_index) ≡ false =
        ground (arith, length-content b v) in
      rw found (shift-Answers starts_crlf b (search_crlf (content b)) v l f)
  | inr (l, h) ↦
      let missed : (b.reader_index + search_crlf (content b) == b.writer_index) ≡ true =
        ground (arith, length-content b v) in
      rw missed h
]

eol_answer :
    (b : Buffer)
    → IsValid b
    → (r : Option ℕ) → MemchrAnswers (content b) r
    → Answers starts_eol b (elim r [ none ↦ none | some i ↦ some (b.reader_index + i) ])
eol_answer b v none h = h
eol_answer b v (some k) (l, f) = shift-Answers starts_eol b k v l f

-- In a valid buffer `findEOL()` answers with the place of the first '\n' in the readable bytes,
-- and with a null pointer only if there is none.
pub find_eol-Answers : (b : Buffer) → IsValid b → Answers starts_eol b (find_eol b)
unfolding find_eol peek begin_write
find_eol-Answers b v = eol_answer b v (memchr_eol (content b)) (memchr_eol_lem (content b))
