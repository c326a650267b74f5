-- ===== src/TimerQueue/Requests/Order.antt =====
-- net/timerqueue.cpp: what becomes of the timers, by the order of the requests for them.
use kaycc.Prelude.{
  ℕ, ◌≡◌, ◌≢◌, refl, sym, ap, ◌∙◌, inl, inr, Bool, false, not, ◌&&◌, ◌||◌, Option, none, some, List,
  [], ◌∷◌, All, All-map, Returns, Returns-bind, Returns-map, arith, Bool-cases,
}
use kaycc.TimerQueue.{Timer, TimerQueue, add_timer_in_loop, cancel_in_loop, insert}
use kaycc.TimerQueue.Sets.{Entry, contains, same}
use kaycc.TimerQueue.Agree.{Agree, Inserted, insert-Inserted, deref-some}
use kaycc.TimerQueue.Cancel.{Cancelled, cancel_in_loop-Cancelled}
use kaycc.TimerQueue.Requests.{Functor, adds, cancels, run_functor, run_functors}

-- The id of the timer at `p` is put in.
abbrev pub with_timer : Option Timer → ℕ → Entry → Bool → Bool
with_timer none p e b = b
with_timer (some t) p e b = same e (p, t.sequence) || b

-- The specification: a set of timers, as a predicate on their ids, under the requests in order.
-- Adding puts in the id of the timer at that address, cancelling takes out this one id.
pub after : (ℕ → Option Timer) → List Functor → Entry → Bool → Bool
after heap [] e b = b
after heap (adds p ∷ fs) e b = after heap fs e (with_timer (heap p) p e b)
after heap (cancels p n ∷ fs) e b = after heap fs e (not (same e (p, n)) && b)

-- The timer at `p` is live and not active.
abbrev pub Fresh : TimerQueue → ℕ → Type 0
Fresh q p = (t : Timer) × (q.heap p ≡ some t) × (contains (p, t.sequence) q.active_timers ≡ false)

-- The addresses that these functors add.
abbrev pub added : List Functor → List ℕ
added [] = []
added (adds p ∷ fs) = p ∷ added fs
added (cancels p n ∷ fs) = added fs

abbrev pub Distinct : List ℕ → Type 0
Distinct [] = Unit
Distinct (p ∷ ps) = All (λ q. p ≢ q) ps × Distinct ps

-- What one functor does to the queue.
pub record Ran (change : Entry → Bool → Bool) (q r : TimerQueue) : Type 0 where
  pub agree : Agree r
  pub active_eq : (e : Entry) → contains e r.active_timers ≡ change e (contains e q.active_timers)
  pub kept :
      (s : ℕ) (t : Timer)
      → q.heap s ≡ some t
      → contains (s, t.sequence) q.active_timers ≡ false
      → r.heap s ≡ some t

rearmed-Agree : (q : TimerQueue) (a : Option ℕ) → Agree q → Agree (record q { armed = a })
rearmed-Agree q a v = record {
  timers_Sorted = v.timers_Sorted;
  active_Sorted = v.active_Sorted;
  size = v.size;
  live = v.live;
  active = v.active;
}

pub adds-Ran :
    (p : ℕ) (t : Timer) (q : TimerQueue)
    → Agree q
    → q.heap p ≡ some t
    → contains (p, t.sequence) q.active_timers ≡ false
    → Returns (run_functor (adds p) q) (Ran (λ e b. same e (p, t.sequence) || b) q)
unfolding run_functor add_timer_in_loop
adds-Ran p t q v e h =
    Returns-bind (Inserted p t q) (Ran (λ e b. same e (p, t.sequence) || b) q) (insert p q) _
      (insert-Inserted p t q v e h)
      (λ r i.
        let there : r.1.heap p ≡ some t = ap (λ y. y p) i.heap_eq ∙ e in
        rw (deref-some p r.1 t there) (elim (Bool-cases r.0) [
          | inl y ↦ rw y (record {
            agree = rearmed-Agree r.1 (some t.expiration) i.agree;
            active_eq = i.active_eq;
            kept = λ s u k n. ap (λ y. y s) i.heap_eq ∙ k;
          })
          | inr y ↦ rw y (record {
            agree = i.agree;
            active_eq = i.active_eq;
            kept = λ s u k n. ap (λ y. y s) i.heap_eq ∙ k;
          })
        ]))

pub cancels-Ran :
    (p n : ℕ) (q : TimerQueue)
    → Agree q
    → Returns (run_functor (cancels p n) q) (Ran (λ e b. not (same e (p, n)) && b) q)
unfolding run_functor
cancels-Ran p n q v =
    Returns-map (Cancelled p n q) _ (cancel_in_loop p n q) (cancel_in_loop-Cancelled p n q v)
      (λ r c. record { agree = c.agree; active_eq = c.active_eq; kept = c.kept })

pub same-other : (p q m n : ℕ) → p ≢ q → same (q, m) (p, n) ≡ false
unfolding same
same-other p q m n h = ground arith

after-heap :
    (h h' : ℕ → Option Timer) (fs : List Functor) (e : Entry) (b : Bool)
    → All (λ p. h p ≡ h' p) (added fs)
    → after h fs e b ≡ after h' fs e b
unfolding after
after-heap h h' [] e b k = refl
after-heap h h' (cancels p n ∷ fs) e b k = after-heap h h' fs e (not (same e (p, n)) && b) k
after-heap h h' (adds p ∷ fs) e b k =
    ap (λ o. after h fs e (with_timer o p e b)) k.0
    ∙ after-heap h h' fs e (with_timer (h' p) p e b) k.1

-- After one functor, the others' timers are where they were.
pub Ran-Fresh :
    (change : Entry → Bool → Bool) (q r : TimerQueue) (ps : List ℕ)
    → Ran change q r
    → All (λ p. (n : ℕ) → change (p, n) false ≡ false) ps
    → All (Fresh q) ps
    → All (Fresh r) ps × All (λ p. r.heap p ≡ q.heap p) ps
Ran-Fresh change q r [] w c f = (tt, tt)
Ran-Fresh change q r (p ∷ ps) w c ((t, e, h), fs) =
    let rest = Ran-Fresh change q r ps w c.1 fs in
    let there = w.kept p t e h in
    (
      (
        (t, there, w.active_eq (p, t.sequence) ∙ ap (change (p, t.sequence)) h ∙ c.0 t.sequence),
        rest.0,
      ),
      (there ∙ sym e, rest.1),
    )

-- In a queue whose two sets agree, if the functors add distinct timers that are live and not active:
-- they all return, the sets agree again, and the active timers are those of the specification.
pub run_functors-After :
    (fs : List Functor) (q : TimerQueue)
    → Agree q
    → Distinct (added fs)
    → All (Fresh q) (added fs)
    → Returns (run_functors fs q) (λ r.
      Agree r
      × ((e : Entry) → contains e r.active_timers ≡ after q.heap fs e (contains e q.active_timers)))
unfolding run_functors after
run_functors-After [] q v d f = (v, λ e. refl)
run_functors-After (adds p ∷ fs) q v d ((t, e, h), f) =
    Returns-bind (Ran (λ e b. same e (p, t.sequence) || b) q) _ (run_functor (adds p) q) _
      (adds-Ran p t q v e h)
      (λ r w.
        let g =
          Ran-Fresh (λ e b. same e (p, t.sequence) || b) q r (added fs) w
            (All-map _ _ (added fs) (λ s ne n. rw (same-other p s n t.sequence ne) refl) d.0) f in
        Returns-map _ _ (run_functors fs r) (run_functors-After fs r w.agree d.1 g.0) (λ u k. (
          k.0,
          λ x.
              k.1 x
              ∙ after-heap r.heap q.heap fs x (contains x r.active_timers) g.1
              ∙ ap (after q.heap fs x)
                  (w.active_eq x ∙ sym (ap (λ o. with_timer o p x (contains x q.active_timers)) e)),
        )))
run_functors-After (cancels p n ∷ fs) q v d f =
    Returns-bind (Ran (λ e b. not (same e (p, n)) && b) q) _ (run_functor (cancels p n) q) _
      (cancels-Ran p n q v)
      (λ r w.
        let g =
          Ran-Fresh (λ e b. not (same e (p, n)) && b) q r (added fs) w
            (All-map _ _ (added fs) (λ s k m. ground (arith)) f) f in
        Returns-map _ _ (run_functors fs r) (run_functors-After fs r w.agree d g.0) (λ u k. (
          k.0,
          λ x.
              k.1 x
              ∙ after-heap r.heap q.heap fs x (contains x r.active_timers) g.1
              ∙ ap (after q.heap fs x) (w.active_eq x),
        )))
