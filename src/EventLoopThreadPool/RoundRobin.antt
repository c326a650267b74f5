-- ===== src/EventLoopThreadPool/RoundRobin.antt =====
-- net/eventloopthreadpool.cpp: `getNextLoop` takes the loops in turn.
use kaycc.Prelude.{
  ℕ, zero, suc, ◌+◌, ◌<◌, ◌≡◌, refl, ap, ◌∙◌, true, false, some, List, [], ◌∷◌, length, get_elem?,
  drop, leb, ◌==◌, if◌then◌else◌, Checked, ok, ◌>>=◌, arith, sym, drop_all,
}
use kaycc.EventLoopThreadPool.{EventLoopThreadPool, index, get_next_loop}

-- What stands in range, and what follows it.
get_elem?-some :
    (xs : List ℕ) (i : ℕ)
    → i < length xs
    → (x : ℕ) × (get_elem? xs i ≡ some x) × (drop i xs ≡ x ∷ drop (suc i) xs)
get_elem?-some [] i h = absurd (omega arith)
get_elem?-some (x ∷ xs) zero h = (x, refl, refl)
get_elem?-some (x ∷ xs) (suc i) h = get_elem?-some xs i (omega arith)

index-some : (loops : List ℕ) (i loop : ℕ) → get_elem? loops i ≡ some loop → index loops i ≡ ok loop
index-some loops i loop e = rw (e, index) refl

-- One call takes the loop that is next; after the last comes the first.
get_next_loop-eq :
    (s : EventLoopThreadPool) (loop : ℕ)
    → s.started ≡ true
    → s.next < length s.loops
    → get_elem? s.loops s.next ≡ some loop
    → get_next_loop s
      ≡ ok (loop, record s { next = if leb (length s.loops) (s.next + 1) then 0 else s.next + 1 })
unfolding get_next_loop
get_next_loop-eq s loop on h e =
    let some_loops : (length s.loops == 0) ≡ false = ground arith in
    rw (some_loops, index-some s.loops s.next loop e) (simp on refl)

-- So many calls of `getNextLoop`, one after the other.
pub take_loops : ℕ → EventLoopThreadPool → Checked (List ℕ × EventLoopThreadPool)
take_loops zero s = ok ([], s)
take_loops (suc k) s = do
  (loop, t) ← get_next_loop s
  (rest, u) ← take_loops k t
  ok (loop ∷ rest, u)

-- The calls that are left of a round.
rest_of_round :
    (k : ℕ) (s : EventLoopThreadPool)
    → s.started ≡ true
    → s.next + suc k ≡ length s.loops
    → take_loops (suc k) s ≡ ok (drop s.next s.loops, record s { next = 0 })
unfolding take_loops
rest_of_round zero s on n =
    let (loop, e, d) = get_elem?-some s.loops s.next (omega arith) in
    let last : leb (length s.loops) (s.next + 1) ≡ true = ground arith in
    rw
      (
        get_next_loop-eq s loop on (omega arith) e,
        last,
        d,
        drop_all (suc s.next) s.loops (omega arith),
      )
      refl
rest_of_round (suc k) s on n =
    let (loop, e, d) = get_elem?-some s.loops s.next (omega arith) in
    let more : leb (length s.loops) (s.next + 1) ≡ false = ground arith in
    let t : EventLoopThreadPool = record s { next = s.next + 1 } in
    let following : s.next + 1 ≡ suc s.next = omega arith in
    let after : drop (s.next + 1) s.loops ≡ drop (suc s.next) s.loops =
      ap (λ i. drop i s.loops) following in
    rw (get_next_loop-eq s loop on (omega arith) e, more)
      (ap (λ m. m >>= λ r. ok (loop ∷ r.0, r.1)) (rest_of_round k t on (omega arith))
        ∙ ap (λ bs. ok (bs, record s { next = 0 })) (ap (λ l. loop ∷ l) after ∙ sym d))

-- In a pool that has been started with at least one thread and is at the start of a round, as many
-- calls of `getNextLoop` as there are loops return each loop once, in order, and leave the pool as
-- it was, for the next round.
pub one_round :
    (s : EventLoopThreadPool)
    → s.started ≡ true
    → s.next ≡ 0
    → 0 < length s.loops
    → take_loops (length s.loops) s ≡ ok (s.loops, s)
one_round s on n h = whole (length s.loops) refl
  where
    whole : (m : ℕ) → m ≡ length s.loops → take_loops m s ≡ ok (s.loops, s)
    whole zero e = absurd (omega arith)
    whole (suc k) e = rest_of_round k s on (omega arith) ∙ rw n refl
