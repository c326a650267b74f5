-- ===== src/TimerQueue/Removal.antt =====
-- net/timerqueue.cpp: taking a timer out of both sets, and writing to the heap.
use kaycc.Prelude.{
  subst, ℕ, ◌≡◌, ◌≢◌, refl, sym, ap, ◌∙◌, ◌⊎◌, inl, inr, true, false, Option, some, List, arith,
  Bool-cases, update,
}
use kaycc.TimerQueue.{Timer, TimerQueue}
use kaycc.TimerQueue.Sets.{
  Entry, same, contains, erase, Sorted, length-erase, contains-erase, erase-Sorted,
}
use kaycc.TimerQueue.Agree.{Agree}

-- The queue once the timer has been taken out of both sets.
abbrev pub removed : ℕ → Timer → TimerQueue → TimerQueue
removed p t q = record q {
  timers = erase (t.expiration, p) q.timers;
  active_timers = erase (p, t.sequence) q.active_timers;
}

erase_other :
    (x y : Entry) (xs : List Entry)
    → Sorted xs
    → same y x ≡ false
    → contains y xs ≡ true
    → contains y (erase x xs) ≡ true
erase_other x y xs s n h = ground (arith, contains-erase x y xs s)

erase_old :
    (x y : Entry) (xs : List Entry)
    → Sorted xs
    → contains y (erase x xs) ≡ true
    → (same y x ≡ false) × (contains y xs ≡ true)
erase_old x y xs s h = ground (arith, contains-erase x y xs s)

pub same_ne : (a b c d : ℕ) → (a ≢ c) ⊎ (b ≢ d) → same (a, b) (c, d) ≡ false
unfolding same
same_ne a b c d h = ground arith

same_eq : (a b c d : ℕ) → a ≡ c → b ≡ d → same (a, b) (c, d) ≡ true
unfolding same
same_eq a b c d h k = ground arith

pub update_ne : (m : ℕ → Option Timer) (p r : ℕ) (o : Option Timer) → p ≢ r → update m p o r ≡ m r
update_ne m p r o n = ground arith

-- One address has one timer.
pub alike :
    (q : TimerQueue) (p r : ℕ) (t u : Timer)
    → q.heap p ≡ some t
    → q.heap r ≡ some u
    → p ≡ r
    → (u.expiration ≡ t.expiration) × (u.sequence ≡ t.sequence)
alike q p r t u e f z =
    let same_timer : u ≡ t = cc in
    (ap (λ w. w.expiration) same_timer, ap (λ w. w.sequence) same_timer)

pub removed-Agree :
    (p : ℕ) (t : Timer) (q : TimerQueue)
    → Agree q
    → q.heap p ≡ some t
    → contains (t.expiration, p) q.timers ≡ true
    → contains (p, t.sequence) q.active_timers ≡ true
    → Agree (removed p t q)
removed-Agree p t q v e c d = record {
  timers_Sorted = erase-Sorted (t.expiration, p) q.timers v.timers_Sorted;
  active_Sorted = erase-Sorted (p, t.sequence) q.active_timers v.active_Sorted;
  size = omega (
    arith,
    v.size,
    length-erase (t.expiration, p) q.timers c,
    length-erase (p, t.sequence) q.active_timers d,
  );
  live = λ when r h.
      let (n, old) = erase_old (t.expiration, p) (when, r) q.timers v.timers_Sorted h in
      let (t', e', x, a) = v.live when r old in
      let ne : p ≢ r = λ z.
        absurd (ground (arith, n, x, z, same_eq when r t.expiration p, alike q p r t t' e e' z)) in
      (
        t',
        e',
        x,
        erase_other _ _ q.active_timers v.active_Sorted (same_ne _ _ _ _ (inl λ z. ne (sym z))) a,
      );
  active = λ r s h.
      let (n, old) = erase_old (p, t.sequence) (r, s) q.active_timers v.active_Sorted h in
      let (t', e', x, a) = v.active r s old in
      let ne : p ≢ r =
        λ z. absurd (ground (arith, n, x, z, same_eq r s p t.sequence, alike q p r t t' e e' z)) in
      (
        t',
        e',
        x,
        erase_other _ _ q.timers v.timers_Sorted (same_ne _ _ _ _ (inr λ z. ne (sym z))) a,
      );
}

-- The timer's address is no longer in `timers_`.
pub removed-absent :
    (p : ℕ) (t : Timer) (q : TimerQueue)
    → Agree q
    → q.heap p ≡ some t
    → (when : ℕ) → contains (when, p) (removed p t q).timers ≡ false
removed-absent p t q v e when = elim (Bool-cases (contains (when, p) (removed p t q).timers)) [
  | inl h ↦
      let (n, old) = erase_old (t.expiration, p) (when, p) q.timers v.timers_Sorted h in
      let (t', e', x, a) = v.live when p old in
      absurd (ground (arith, n, x, same_eq when p t.expiration p, alike q p p t t' e e' refl))
  | inr h ↦ h
]

-- What the heap has at an address that is not in `timers_` does not matter.
pub heap-Agree :
    (p : ℕ) (o : Option Timer) (q : TimerQueue)
    → Agree q
    → ((when : ℕ) → contains (when, p) q.timers ≡ false)
    → Agree (record q { heap = update q.heap p o })
heap-Agree p o q v out = record {
  timers_Sorted = v.timers_Sorted;
  active_Sorted = v.active_Sorted;
  size = v.size;
  live = λ when r h.
      let (t, e, x, a) = v.live when r h in
      let ne : p ≢ r = λ z. absurd (ground (arith, out when, rw (sym z) at h)) in
      (t, update_ne q.heap p r o ne ∙ e, x, a);
  active = λ r s h.
      let (t, e, x, a) = v.active r s h in
      let ne : p ≢ r = λ z. absurd (
        ground (
          arith,
          out t.expiration,
          subst (λ y. contains (t.expiration, y) q.timers ≡ true) (sym z) a,
        )) in
      (t, update_ne q.heap p r o ne ∙ e, x, a);
}
