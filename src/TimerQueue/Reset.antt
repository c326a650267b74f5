-- ===== src/TimerQueue/Reset.antt =====
-- net/timerqueue.cpp: `reset`, after the callbacks of the expired timers.
use kaycc.Prelude.{
  ℕ, ◌+◌, ◌≡◌, ◌≢◌, refl, sym, ap, ◌∙◌, Bool, true, false, not, ◌&&◌, Option, none, some, List, [],
  ◌∷◌, if◌then◌else◌, ok, ◌>>=◌, Returns, Returns-bind, Returns-map, All, arith, Bool-cases, inl,
  inr, subst, update,
}
use kaycc.TimerQueue.{Timer, TimerQueue, delete, restart, reinsert, insert}
use kaycc.TimerQueue.Sets.{Entry, contains}
use kaycc.TimerQueue.Agree.{Away, Agree, Inserted, insert-Inserted, deref-some}
use kaycc.TimerQueue.Removal.{heap-Agree}

abbrev pub Distinct : List Entry → Type 0
Distinct [] = Unit
Distinct (e ∷ es) = All (λ f. e.1 ≢ f.1) es × Distinct es

-- Whether `reset` puts the timer back.
abbrev pub goes_back : Timer → ℕ → TimerQueue → Bool
goes_back t p q = t.repeat && not (contains (p, t.sequence) q.canceling_timers)

-- A periodic timer that was not cancelled is pending again, an interval after now; any other timer
-- is deleted.
pub record Settled (now : ℕ) (q r : TimerQueue) (e : Entry) : Type 0 where
  pub back :
      (t : Timer)
      → q.heap e.1 ≡ some t
      → goes_back t e.1 q ≡ true
      → contains (now + t.interval, e.1) r.timers ≡ true
  pub gone : (t : Timer) → q.heap e.1 ≡ some t → goes_back t e.1 q ≡ false → r.heap e.1 ≡ none

pub record Reinserted (es : List Entry) (now : ℕ) (q r : TimerQueue) : Type 0 where
  pub agree : Agree r
  pub settled : All (Settled now q r) es
  pub kept :
      (p : ℕ)
      → All (λ f. p ≢ f.1) es
      → (r.heap p ≡ q.heap p)
        × ((when : ℕ) → contains (when, p) q.timers ≡ true → contains (when, p) r.timers ≡ true)

-- What one round of the loop leaves for the timers other than `e`.
record Round (now : ℕ) (e : Entry) (q r : TimerQueue) : Type 0 where
  agree : Agree r
  settled : Settled now q r e
  canceling_eq : r.canceling_timers ≡ q.canceling_timers
  heap_eq : (p : ℕ) → e.1 ≢ p → r.heap p ≡ q.heap p
  timers_eq : (when p : ℕ) → e.1 ≢ p → contains (when, p) r.timers ≡ contains (when, p) q.timers

-- An address that is in no entry of `timers_` is not active.
not_active :
    (p : ℕ) (q : TimerQueue)
    → Agree q
    → ((when : ℕ) → contains (when, p) q.timers ≡ false)
    → (n : ℕ) → contains (p, n) q.active_timers ≡ false
not_active p q v out n = elim (Bool-cases (contains (p, n) q.active_timers)) [
  | inl h ↦ (let (t, e, x, c) = v.active p n h in absurd (ground (arith, out t.expiration)))
  | inr h ↦ h
]

update_self : (m : ℕ → Option Timer) (p : ℕ) (o : Option Timer) → update m p o p ≡ o
update_self m p o = ground arith

update_other : (m : ℕ → Option Timer) (p r : ℕ) (o : Option Timer) → p ≢ r → update m p o r ≡ m r
update_other m p r o n = ground arith

-- The queue once the timer has its next time.
abbrev restarted : ℕ → ℕ → Timer → TimerQueue → TimerQueue
restarted now p t q = record q { heap = update q.heap p (some (restart now t)) }

repeats : (t : Timer) (p : ℕ) (q : TimerQueue) → goes_back t p q ≡ true → t.repeat ≡ true
repeats t p q h = ground arith

go_back :
    (now : ℕ) (e : Entry) (t : Timer) (q : TimerQueue)
    → Agree q
    → q.heap e.1 ≡ some t
    → ((when : ℕ) → contains (when, e.1) q.timers ≡ false)
    → goes_back t e.1 q ≡ true
    → Returns (insert e.1 (restarted now e.1 t q)) (λ r. Round now e q r.1)
unfolding restart
go_back now e t q v h out g =
    let q' = restarted now e.1 t q in
    let w : Agree q' = heap-Agree e.1 (some (restart now t)) q v out in
    Returns-map (Inserted e.1 (restart now t) q') (λ r. Round now e q r.1) (insert e.1 q')
      (insert-Inserted e.1 (restart now t) q' w (update_self q.heap e.1 _)
        (not_active e.1 q v out t.sequence))
      λ r i. record {
        agree = i.agree;
        settled = record {
          back = λ u f b.
              let s : t ≡ u = cc in
              subst (λ w. contains (now + w.interval, e.1) r.1.timers ≡ true) s
                (rw (repeats t e.1 q g) at i.pending);
          gone = λ u f b.
              let s : t ≡ u = cc in absurd (ground (arith, g, b, ap (λ w. goes_back w e.1 q) s));
        };
        canceling_eq = i.canceling_eq;
        heap_eq = λ p n. ap (λ m. m p) i.heap_eq ∙ update_other q.heap e.1 p _ n;
        timers_eq = λ when p n. i.timers_eq when p n;
      }

drop_timer :
    (now : ℕ) (e : Entry) (t : Timer) (q : TimerQueue)
    → Agree q
    → q.heap e.1 ≡ some t
    → ((when : ℕ) → contains (when, e.1) q.timers ≡ false)
    → goes_back t e.1 q ≡ false
    → Round now e q (delete e.1 q)
drop_timer now e t q v h out g = record {
  agree = heap-Agree e.1 none q v out;
  settled = record {
    back =
        λ u f b. let s : t ≡ u = cc in absurd (ground (arith, g, b, ap (λ w. goes_back w e.1 q) s));
    gone = λ u f b. update_self q.heap e.1 none;
  };
  canceling_eq = refl;
  heap_eq = λ p n. update_other q.heap e.1 p none n;
  timers_eq = λ when p n. refl;
}

-- The other expired timers are still live and in neither set.
Round-Away :
    (now : ℕ) (e : Entry) (q r : TimerQueue) (es : List Entry)
    → Round now e q r
    → All (λ f. e.1 ≢ f.1) es
    → All (Away q) es
    → All (Away r) es
Round-Away now e q r [] o n a = tt
Round-Away now e q r (f ∷ fs) o n ((t, h, out), a) = (
  (t, o.heap_eq f.1 n.0 ∙ h, λ when. o.timers_eq when f.1 n.0 ∙ out when),
  Round-Away now e q r fs o n.1 a,
)

-- What the rest of the loop says of the other timers holds of the queue before the round.
Settled-back :
    (now : ℕ) (e : Entry) (q r u : TimerQueue) (es : List Entry)
    → Round now e q r
    → All (λ f. e.1 ≢ f.1) es
    → All (Settled now r u) es
    → All (Settled now q u) es
Settled-back now e q r u [] o n a = tt
Settled-back now e q r u (f ∷ fs) o n (s, a) = (
  record {
    back = λ t h b.
        s.back t (o.heap_eq f.1 n.0 ∙ h)
          (ap (λ cs. t.repeat && not (contains (f.1, t.sequence) cs)) o.canceling_eq ∙ b);
    gone = λ t h b.
        s.gone t (o.heap_eq f.1 n.0 ∙ h)
          (ap (λ cs. t.repeat && not (contains (f.1, t.sequence) cs)) o.canceling_eq ∙ b);
  },
  Settled-back now e q r u fs o n.1 a,
)

Reinserted-cons :
    (now : ℕ) (e : Entry) (es : List Entry) (q r u : TimerQueue)
    → Round now e q r
    → All (λ f. e.1 ≢ f.1) es
    → Reinserted es now r u
    → Reinserted (e ∷ es) now q u
Reinserted-cons now e es q r u o n i =
    let (heap_eq, timers) = i.kept e.1 n in
    record {
      agree = i.agree;
      settled = (
        record {
          back = λ t h b. timers (now + t.interval) (o.settled.back t h b);
          gone = λ t h b. heap_eq ∙ o.settled.gone t h b;
        },
        Settled-back now e q r u es o n i.settled,
      );
      kept = λ p ne.
          let other : e.1 ≢ p = λ z. ne.0 (sym z) in
          let (h, k) = i.kept p ne.1 in
          (h ∙ o.heap_eq p other, λ when c. k when (o.timers_eq when p other ∙ c));
    }

-- In a queue whose two sets agree, the loop of `reset` over expired timers at different addresses, all
-- live and in neither set, returns: no assertion fails and the sets agree again. A periodic timer
-- that was not cancelled is pending again, its interval after now; any other of the expired timers
-- is deleted; and every other timer is where it was.
pub reinsert-Reinserted :
    (es : List Entry) (now : ℕ) (q : TimerQueue)
    → Agree q
    → Distinct es
    → All (Away q) es
    → Returns (reinsert es now q) (Reinserted es now q)
unfolding reinsert
reinsert-Reinserted [] now q v d a = record {
  agree = v;
  settled = tt;
  kept = λ p n. (refl, λ when c. c);
}
reinsert-Reinserted (e ∷ es) now q v d ((t, h, out), a) = rw (deref-some e.1 q t h) (
    Returns-bind (Round now e q) (Reinserted (e ∷ es) now q) _ (reinsert es now) round λ r o.
      Returns-map (Reinserted es now r) (Reinserted (e ∷ es) now q) (reinsert es now r)
        (reinsert-Reinserted es now r o.agree d.1 (Round-Away now e q r es o d.0 a))
        λ u i. Reinserted-cons now e es q r u o d.0 i)
  where
    round :
        Returns
          (if goes_back t e.1 q
            then (do (earliest_changed, r) ← insert e.1 (restarted now e.1 t q); ok r)
            else ok (delete e.1 q))
          (Round now e q)
    round = elim (Bool-cases (goes_back t e.1 q)) [
      | inl g ↦ rw g (
          Returns-bind (λ r. Round now e q r.1) (Round now e q) (insert e.1 (restarted now e.1 t q))
            _ (go_back now e t q v h out g) λ r o. o)
      | inr g ↦ rw g (drop_timer now e t q v h out g)
    ]
