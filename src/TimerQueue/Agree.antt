-- ===== src/TimerQueue/Agree.antt =====
-- net/timerqueue.cpp: the two sets of a queue hold the same live timers.
use kaycc.Prelude.{
  ℕ, ◌≡◌, ◌≢◌, refl, ◌||◌, sym, inl, inr, Bool, true, false, some, List, length, ok, Returns, arith,
  Bool-cases,
}
use kaycc.TimerQueue.{Timer, TimerQueue, deref, same_size, is_earliest, insert}
use kaycc.TimerQueue.Sets
use kaycc.TimerQueue.Sets.{
  Entry, same, contains, erase, Sorted, contains-insert, length-insert, insert-Sorted, length-erase,
  contains-erase, erase-Sorted,
}

-- An entry of `timers_` belongs to a live timer that expires then, and that is active.
abbrev pub Live : TimerQueue → ℕ → ℕ → Type 0
Live q when p =
    (t : Timer) × (q.heap p ≡ some t)
    × (t.expiration ≡ when)
    × (contains (p, t.sequence) q.active_timers ≡ true)

-- An active timer is live, and stands in `timers_` at the time when it expires.
abbrev pub Active : TimerQueue → ℕ → ℕ → Type 0
Active q p sequence =
    (t : Timer) × (q.heap p ≡ some t)
    × (t.sequence ≡ sequence)
    × (contains (t.expiration, p) q.timers ≡ true)

-- The timer of an expired entry is live and in neither set.
abbrev pub Away : TimerQueue → Entry → Type 0
Away q e =
    (t : Timer) × (q.heap e.1 ≡ some t) × ((when : ℕ) → contains (when, e.1) q.timers ≡ false)

pub record Agree (q : TimerQueue) : Type 0 where
  pub timers_Sorted : Sorted q.timers
  pub active_Sorted : Sorted q.active_timers
  pub size : length q.timers ≡ length q.active_timers
  pub live : (when p : ℕ) → contains (when, p) q.timers ≡ true → Live q when p
  pub active :
      (p sequence : ℕ) → contains (p, sequence) q.active_timers ≡ true → Active q p sequence

same_pair : (a b c d : ℕ) → same (a, b) (c, d) ≡ true → (a ≡ c) × (b ≡ d)
unfolding same
same_pair a b c d h = ground arith

pub same_refl : (a b : ℕ) → same (a, b) (a, b) ≡ true
unfolding same
same_refl a b = ground arith

-- A timer that is not active is not in `timers_`.
not_in_timers :
    (p : ℕ) (q : TimerQueue) (t : Timer)
    → Agree q
    → q.heap p ≡ some t
    → contains (p, t.sequence) q.active_timers ≡ false
    → contains (t.expiration, p) q.timers ≡ false
not_in_timers p q t v e h = elim (Bool-cases (contains (t.expiration, p) q.timers)) [
  | inl c ↦ (let (t', e', x, a) = v.live t.expiration p c in absurd (cc))
  | inr c ↦ c
]

pub insert_hit : (x : Entry) (xs : List Entry) → contains x (Sets.insert x xs) ≡ true
insert_hit x xs = ground (arith, contains-insert x x xs, same_refl x.0 x.1)

pub insert_old :
    (x y : Entry) (xs : List Entry) → contains y xs ≡ true → contains y (Sets.insert x xs) ≡ true
insert_old x y xs h = ground (arith, contains-insert x y xs)

insert_other :
    (x y : Entry) (xs : List Entry)
    → same y x ≡ false
    → contains y (Sets.insert x xs) ≡ true
    → contains y xs ≡ true
insert_other x y xs s h = ground (arith, contains-insert x y xs)

-- The queue with a live timer put into both sets.
abbrev pub inserted : ℕ → Timer → TimerQueue → TimerQueue
inserted p t q = record q {
  timers = Sets.insert (t.expiration, p) q.timers;
  active_timers = Sets.insert (p, t.sequence) q.active_timers;
}

inserted-Agree :
    (p : ℕ) (q : TimerQueue) (t : Timer)
    → Agree q
    → q.heap p ≡ some t
    → contains (p, t.sequence) q.active_timers ≡ false
    → Agree (inserted p t q)
inserted-Agree p q t v e h =
    let out = not_in_timers p q t v e h in
    record {
      timers_Sorted = insert-Sorted (t.expiration, p) q.timers v.timers_Sorted;
      active_Sorted = insert-Sorted (p, t.sequence) q.active_timers v.active_Sorted;
      size = omega (
        arith,
        v.size,
        length-insert (t.expiration, p) q.timers out,
        length-insert (p, t.sequence) q.active_timers h,
      );
      live = λ when r c. elim (Bool-cases (same (when, r) (t.expiration, p))) [
        | inl s ↦
            let (a, b) = same_pair when r t.expiration p s in
            (t, rw b e, sym a, rw b (insert_hit (p, t.sequence) q.active_timers))
        | inr s ↦
            let (t', e', x, a) = v.live when r (insert_other _ _ q.timers s c) in
            (t', e', x, insert_old _ _ q.active_timers a)
      ];
      active = λ r n c. elim (Bool-cases (same (r, n) (p, t.sequence))) [
        | inl s ↦
            let (a, b) = same_pair r n p t.sequence s in
            (t, rw a e, sym b, rw a (insert_hit (t.expiration, p) q.timers))
        | inr s ↦
            let (t', e', x, a) = v.active r n (insert_other _ _ q.active_timers s c) in
            (t', e', x, insert_old _ _ q.timers a)
      ];
    }

pub deref-some : (p : ℕ) (q : TimerQueue) (t : Timer) → q.heap p ≡ some t → deref p q ≡ ok t
deref-some p q t e = rw (e, deref) refl

other_address : (a b c d : ℕ) → d ≢ b → same (a, b) (c, d) ≡ false
unfolding same
other_address a b c d n = ground arith

-- What `insert` leaves: the timer is in both sets, and the result says whether it comes first.
pub record Inserted (p : ℕ) (t : Timer) (q : TimerQueue) (r : Bool × TimerQueue) : Type 0 where
  pub agree : Agree r.1
  pub pending : contains (t.expiration, p) r.1.timers ≡ true
  pub earliest : r.0 ≡ is_earliest t.expiration q.timers
  pub heap_eq : r.1.heap ≡ q.heap
  pub active_eq :
      (e : Entry)
      → contains e r.1.active_timers ≡ (same e (p, t.sequence) || contains e q.active_timers)
  pub canceling_eq : r.1.canceling_timers ≡ q.canceling_timers
  pub timers_eq : (when s : ℕ) → p ≢ s → contains (when, s) r.1.timers ≡ contains (when, s) q.timers

-- In a queue whose two sets agree, inserting a live timer that is not active returns: no assertion
-- fails, the sets agree again and have the timer, and the result says whether the timer expires
-- before all others.
pub insert-Inserted :
    (p : ℕ) (t : Timer) (q : TimerQueue)
    → Agree q
    → q.heap p ≡ some t
    → contains (p, t.sequence) q.active_timers ≡ false
    → Returns (insert p q) (Inserted p t q)
unfolding insert
insert-Inserted p t q v e h =
    let out = not_in_timers p q t v e h in
    let w : Agree (inserted p t q) = inserted-Agree p q t v e h in
    let before_eq : same_size q ≡ true = ground (arith, v.size) in
    let after_eq : same_size (inserted p t q) ≡ true = ground (arith, w.size) in
    rw (before_eq, deref-some p q t e, out, h, after_eq)
      (record {
        agree = w;
        pending = insert_hit (t.expiration, p) q.timers;
        earliest = refl;
        heap_eq = refl;
        active_eq = λ e'. contains-insert (p, t.sequence) e' q.active_timers;
        canceling_eq = refl;
        timers_eq = λ when s n. ground (
          arith,
          contains-insert (t.expiration, p) (when, s) q.timers,
          other_address when s t.expiration p n,
        );
      })
