-- ===== src/CurrentThread/Cache.antt =====
-- base/current_thread.h, base/thread.cpp: the cached id of a thread.
use kaycc.Prelude.{
  ℕ, zero, suc, sym, ap, take_all, length-append, append-nil, append_assoc, ◌∙◌, ◌-◌, ◌^◌, ◌≡◌, ◌<◌,
  ◌⊎◌, inl, inr, refl, false, List, [], ◌∷◌, ◌++◌, length, take, ◌==◌, arith,
}
use kaycc.Prelude.Decimal.{decimal, length-digits}
use kaycc.CurrentThread.{
  CurrentThread, main_name, construct, blanks, decimal5, cache_tid, tid, is_main_thread, after_fork,
}

-- A thread asks for its id, looks whether it is the main one, or forks; `child` is the id of the thread in
-- the new process, which the handler of the fork runs in.
pub data Event : Type 0 where
  asks : Event
  compares : (process : ℕ) → Event
  forks : (child : ℕ) → Event

-- The answers for ids, the id that the kernel has for the thread, and the variables of the thread.
pub record Run : Type 0 where
  pub answers : List ℕ
  pub kernel_tid : ℕ
  pub local : CurrentThread

unfoldable pub happen : Event → Run → Run
happen asks r =
    let (id, t) = tid r.kernel_tid r.local in record r { answers = r.answers ++ id ∷ []; local = t }
happen (compares process) r = record r { local = (is_main_thread process r.kernel_tid r.local).1 }
happen (forks child) r = record r { kernel_tid = child; local = after_fork child r.local }

pub happen_all : List Event → Run → Run
happen_all [] r = r
happen_all (e ∷ es) r = happen_all es (happen e r)

-- What the kernel would have answered.
unfoldable pub kernel_answers : List Event → ℕ → List ℕ
kernel_answers [] id = []
kernel_answers (asks ∷ es) id = id ∷ kernel_answers es id
kernel_answers (compares process ∷ es) id = kernel_answers es id
kernel_answers (forks child ∷ es) id = kernel_answers es child

-- A new thread.
abbrev pub new_run : ℕ → Run
new_run id = record { answers = []; kernel_tid = id; local = construct }

-- The id of a thread is positive, and an `int`.
abbrev pub IsId : ℕ → Type 0
IsId n = (0 < n) × (n < 2 ^ 31)

abbrev pub Ids : List Event → Type 0
Ids [] = Unit
Ids (asks ∷ es) = Ids es
Ids (compares process ∷ es) = Ids es
Ids (forks child ∷ es) = IsId child × Ids es

-- What is cached is what the kernel says, as a number and as text.
pub record Cached (id : ℕ) (t : CurrentThread) : Type 0 where
  pub number : t.cached_tid ≡ id
  pub text : t.tid_string ≡ decimal5 id
  pub text_length : t.tid_string_length ≡ length t.tid_string

abbrev pub Fresh : ℕ → CurrentThread → Type 0
Fresh id t = (t.cached_tid ≡ 0) ⊎ Cached id t

length-blanks : (n : ℕ) → length (blanks n) ≡ n
unfolding blanks
length-blanks zero = refl
length-blanks (suc n) = ap suc (length-blanks n)

-- The text has room.
decimal5-whole : (id : ℕ) → id < 2 ^ 31 → take 31 (decimal5 id) ≡ decimal5 id
decimal5-whole id h = take_all 31 (decimal5 id) (
    omega (
      arith,
      length-append (blanks (5 - length (decimal id))) (decimal id),
      length-blanks (5 - length (decimal id)),
      length-digits 20 id 9 (omega arith),
    ))

written-Cached :
    (id : ℕ) (name : List ℕ)
    → IsId id
    → Cached id (record {
      cached_tid = id;
      tid_string = take 31 (decimal5 id);
      tid_string_length = length (decimal5 id);
      thread_name = name;
    })
written-Cached id name h = record {
  number = refl;
  text = decimal5-whole id h.1;
  text_length = sym (ap length (decimal5-whole id h.1));
}

tid-Cached : (id : ℕ) (t : CurrentThread) → IsId id → Fresh id t → Cached id (tid id t).1
unfolding tid cache_tid
tid-Cached id t h (inl e) = rw e (written-Cached id t.thread_name h)
tid-Cached id t h (inr v) =
    let there : (t.cached_tid == 0) ≡ false = ground (arith, v.number, h.0) in rw there v

tid_answer : (id : ℕ) (t : CurrentThread) → (tid id t).0 ≡ (tid id t).1.cached_tid
unfolding tid
tid_answer id t = refl

happen_all_lem :
    (es : List Event) (r : Run)
    → IsId r.kernel_tid
    → Ids es
    → Fresh r.kernel_tid r.local
    → ((happen_all es r).answers ≡ r.answers ++ kernel_answers es r.kernel_tid)
      × Fresh (happen_all es r).kernel_tid (happen_all es r).local
unfolding happen_all happen kernel_answers is_main_thread after_fork
happen_all_lem [] r h hs v = (sym (append-nil r.answers), v)
happen_all_lem (asks ∷ es) r h hs v =
    let c = tid-Cached r.kernel_tid r.local h v in
    let ih = happen_all_lem es (happen asks r) h hs (inr c) in
    (
      ih.0
          ∙ append_assoc r.answers ((tid r.kernel_tid r.local).0 ∷ []) _
          ∙ ap (λ n. r.answers ++ n ∷ kernel_answers es r.kernel_tid)
              (tid_answer r.kernel_tid r.local ∙ c.number),
      ih.1,
    )
happen_all_lem (compares process ∷ es) r h hs v =
    happen_all_lem es (happen (compares process) r) h hs (inr (tid-Cached r.kernel_tid r.local h v))
happen_all_lem (forks child ∷ es) r h hs v = happen_all_lem es (happen (forks child) r) hs.0 hs.1 (
    inr (
      tid-Cached child (record r.local { cached_tid = 0; thread_name = main_name }) hs.0
        (inl refl)))

-- A thread with an id from 1 to 2 ^ 31 - 1 asks for its id, looks whether it is the main thread, and
-- forks, where the id in the new process is such a number too: each time it asks, it gets the id that
-- the kernel has for it at that moment, and at the
-- end nothing is cached, or that id, its text by "%5d" in full, and the length of the text.
pub tid_fresh :
    (es : List Event) (id : ℕ)
    → IsId id
    → Ids es
    → ((happen_all es (new_run id)).answers ≡ kernel_answers es id)
      × Fresh (happen_all es (new_run id)).kernel_tid (happen_all es (new_run id)).local
unfolding construct
tid_fresh es id h hs = happen_all_lem es (new_run id) h hs (inl refl)
