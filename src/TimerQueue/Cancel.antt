-- ===== src/TimerQueue/Cancel.antt =====
-- net/timerqueue.cpp: `cancelInLoop`.
use kaycc.Prelude.{
  All, All-map, subst, refl, false, Option, ap, ap₂, not, ◌&&◌, ℕ, ◌≡◌, ◌≢◌, sym, ◌∙◌, inl, inr,
  true, false, none, some, List, Returns, arith, Bool-cases,
}
use kaycc.TimerQueue.{Timer, TimerQueue, delete, same_size, cancel_in_loop}
use kaycc.TimerQueue.Sets.{Entry, same, contains, erase, contains-erase}
use kaycc.TimerQueue.Agree.{Away, Agree, same_refl, insert_hit, deref-some}
use kaycc.TimerQueue.Removal.{update_ne, removed, removed-Agree, removed-absent, heap-Agree}

-- The queue once the timer has been taken out of both sets and deleted.
abbrev pub erased : ℕ → Timer → TimerQueue → TimerQueue
erased p t q = delete p (record q {
  timers = erase (t.expiration, p) q.timers;
  active_timers = erase (p, t.sequence) q.active_timers;
})

erased-Agree :
    (p : ℕ) (t : Timer) (q : TimerQueue)
    → Agree q
    → q.heap p ≡ some t
    → contains (t.expiration, p) q.timers ≡ true
    → contains (p, t.sequence) q.active_timers ≡ true
    → Agree (erased p t q)
erased-Agree p t q v e c d =
    heap-Agree p none (removed p t q) (removed-Agree p t q v e c d) (removed-absent p t q v e)

-- After `cancelInLoop` the sets agree and the timer is not active; one whose callback may be running
-- is marked, so that it is not put back.
pub record Cancelled (p sequence : ℕ) (q r : TimerQueue) : Type 0 where
  pub agree : Agree r
  pub inactive : contains (p, sequence) r.active_timers ≡ false
  pub marked :
      contains (p, sequence) q.active_timers ≡ false
      → q.calling_expired_timers ≡ true
      → contains (p, sequence) r.canceling_timers ≡ true
  pub active_eq :
      (e : Entry)
      → contains e r.active_timers ≡ (not (same e (p, sequence)) && contains e q.active_timers)
  -- Only an active timer is deleted.
  pub kept :
      (s : ℕ) (t : Timer)
      → q.heap s ≡ some t
      → contains (s, t.sequence) q.active_timers ≡ false
      → r.heap s ≡ some t
  -- Live timers that are in neither set stay so.
  pub away : (es : List Entry) → All (Away q) es → All (Away r) es

erased-Away :
    (p : ℕ) (t : Timer) (q : TimerQueue)
    → Agree q
    → contains (t.expiration, p) q.timers ≡ true
    → (e : Entry) → Away q e
    → Away (erased p t q) e
erased-Away p t q v c e (u, h, out) =
    let other : p ≢ e.1 = λ z. absurd (
      ground
        (arith, out t.expiration, subst (λ y. contains (t.expiration, y) q.timers ≡ true) z c)) in
    (
      u,
      update_ne q.heap p e.1 none other ∙ h,
      λ when.
          ground (
            arith,
            contains-erase (t.expiration, p) (when, e.1) q.timers v.timers_Sorted,
            out when,
          ),
    )

false-true : false ≢ true
false-true h = cc

at_address :
    (q : TimerQueue) (p s : ℕ) (t u : Timer)
    → p ≡ s
    → q.heap p ≡ some t
    → q.heap s ≡ some u
    → contains (p, t.sequence) q.active_timers ≡ true
    → contains (s, u.sequence) q.active_timers ≡ true
at_address q p s t u z e g d =
    let eq : ◌≡◌ {A = Option Timer} (some t) (some u) = sym e ∙ ap q.heap z ∙ g in
    let same_timer : t ≡ u = cc in
    subst (λ y. contains (s, y.sequence) q.active_timers ≡ true) same_timer
      (subst (λ y. contains (y, t.sequence) q.active_timers ≡ true) z d)

same_eq : (a b : Entry) → same a b ≡ true → a ≡ b
unfolding same
same_eq a b h = ap₂ (λ x y. (x, y)) (ground (arith, h)) (ground (arith, h))

inactive_eq :
    (p sequence : ℕ) (q : TimerQueue)
    → contains (p, sequence) q.active_timers ≡ false
    → (e : Entry)
    → contains e q.active_timers ≡ (not (same e (p, sequence)) && contains e q.active_timers)
inactive_eq p sequence q d e = elim (Bool-cases (same e (p, sequence))) [
  | inl h ↦ rw h (ap (λ y. contains y q.active_timers) (same_eq e (p, sequence) h) ∙ d)
  | inr h ↦ rw h refl
]

cancel_active :
    (p : ℕ) (t : Timer) (q : TimerQueue)
    → Agree q
    → q.heap p ≡ some t
    → contains (t.expiration, p) q.timers ≡ true
    → contains (p, t.sequence) q.active_timers ≡ true
    → Returns (cancel_in_loop p t.sequence q) (Cancelled p t.sequence q)
unfolding cancel_in_loop
cancel_active p t q v e c d =
    let w : Agree (erased p t q) = erased-Agree p t q v e c d in
    let before_eq : same_size q ≡ true = ground (arith, v.size) in
    let after_eq : same_size (erased p t q) ≡ true = ground (arith, w.size) in
    rw (before_eq, d, deref-some p q t e, c, after_eq)
      (record {
        agree = w;
        inactive = ground (
          arith,
          contains-erase (p, t.sequence) (p, t.sequence) q.active_timers v.active_Sorted,
          same_refl p t.sequence,
        );
        marked = λ h k. absurd (ground arith);
        active_eq = λ e'. contains-erase (p, t.sequence) e' q.active_timers v.active_Sorted;
        kept = λ s u g n.
            update_ne q.heap p s none
              (λ z. absurd (false-true (sym n ∙ at_address q p s t u z e g d)))
            ∙ g;
        away = λ es a. All-map (Away q) (Away (erased p t q)) es (erased-Away p t q v c) a;
      })

cancel_inactive :
    (p sequence : ℕ) (q : TimerQueue)
    → Agree q
    → contains (p, sequence) q.active_timers ≡ false
    → Returns (cancel_in_loop p sequence q) (Cancelled p sequence q)
unfolding cancel_in_loop
cancel_inactive p sequence q v d =
    let before_eq : same_size q ≡ true = ground (arith, v.size) in
    elim (Bool-cases q.calling_expired_timers) [
      | inl e ↦
          rw (before_eq, d, e, before_eq)
            (record {
              agree = record {
                timers_Sorted = v.timers_Sorted;
                active_Sorted = v.active_Sorted;
                size = v.size;
                live = v.live;
                active = v.active;
              };
              inactive = d;
              marked = λ h k. insert_hit (p, sequence) q.canceling_timers;
              active_eq = inactive_eq p sequence q d;
              kept = λ s u g n. g;
              away = λ es a. a;
            })
      | inr e ↦
          rw (before_eq, d, e, before_eq)
            (record {
              agree = record {
                timers_Sorted = v.timers_Sorted;
                active_Sorted = v.active_Sorted;
                size = v.size;
                live = v.live;
                active = v.active;
              };
              inactive = d;
              marked = λ h k. absurd (ground arith);
              active_eq = inactive_eq p sequence q d;
              kept = λ s u g n. g;
              away = λ es a. a;
            })
    ]

-- In a queue whose two sets agree, cancelling any timer, known or not, returns: no assertion fails,
-- the sets agree again and the timer is not active. If it was not active while the callbacks of
-- expired timers run, it is marked as cancelled.
pub cancel_in_loop-Cancelled :
    (p sequence : ℕ) (q : TimerQueue)
    → Agree q
    → Returns (cancel_in_loop p sequence q) (Cancelled p sequence q)
cancel_in_loop-Cancelled p sequence q v =
    elim (Bool-cases (contains (p, sequence) q.active_timers)) [
      | inl d ↦
          let (t, e, x, c) = v.active p sequence d in
          subst (λ n. Returns (cancel_in_loop p n q) (Cancelled p n q)) x
            (cancel_active p t q v e c
              (subst (λ n. contains (p, n) q.active_timers ≡ true) (sym x) d))
      | inr d ↦ cancel_inactive p sequence q v d
    ]
