-- ===== src/TimerQueue/Requests/Steps.antt =====
-- net/timerqueue.cpp: no request for a timer fails, in whatever order and from whichever thread they come.
use kaycc.Prelude.{
  ℕ, ◌+◌, ◌≡◌, ◌≢◌, refl, sym, ap, ◌∙◌, inl, inr, Bool, true, false, ◌||◌, Option, none, some, List,
  [], ◌∷◌, ◌++◌, append-nil, All, All-map, All-append, Checked, ok, Returns, Returns-bind, arith,
  ◌>>=◌, Bool-cases, update, subst, ltb,
}
use kaycc.TimerQueue.{Timer, TimerQueue}
use kaycc.TimerQueue.Sets.{Entry, contains, same}
use kaycc.TimerQueue.Agree.{Agree}
use kaycc.TimerQueue.Requests.{
  Functor, adds, cancels, TimerLoop, construct, run_functor, run_functors, run_in_loop, new_timer,
  add_timer, cancel, do_pending_functors, Step, starts, stops, runs, Reach, here, next,
}
use kaycc.TimerQueue.Requests.Order.{
  after, Fresh, added, Distinct, Ran, Ran-Fresh, adds-Ran, cancels-Ran, same-other,
  run_functors-After,
}

pub record Inv (s : TimerLoop) : Type 0 where
  pub agree : Agree s.queue
  pub distinct : Distinct (added s.pending_functors)
  pub fresh : All (Fresh s.queue) (added s.pending_functors)

construct-Inv : Inv construct
unfolding construct contains
construct-Inv = record {
  agree = record {
    timers_Sorted = tt;
    active_Sorted = tt;
    size = refl;
    live = λ when p c. absurd (ground arith);
    active = λ p n c. absurd (ground arith);
  };
  distinct = tt;
  fresh = tt;
}

added-append : (fs gs : List Functor) → added (fs ++ gs) ≡ added fs ++ added gs
added-append [] gs = refl
added-append (adds p ∷ fs) gs = ap (λ l. p ∷ l) (added-append fs gs)
added-append (cancels p n ∷ fs) gs = added-append fs gs

Distinct-append :
    (ps : List ℕ) (p : ℕ) → Distinct ps → All (λ q. q ≢ p) ps → Distinct (ps ++ p ∷ [])
Distinct-append [] p d n = (tt, tt)
Distinct-append (q ∷ ps) p d n =
    (All-append _ ps (p ∷ []) d.0 (n.0, tt), Distinct-append ps p d.1 n.1)

-- A new timer at a free address is fresh, and leaves all else as it was.
update_hit : (h : ℕ → Option Timer) (p : ℕ) (o : Option Timer) → update h p o p ≡ o
update_hit h p o = ground arith

update_miss : (h : ℕ → Option Timer) (p q : ℕ) (o : Option Timer) → p ≢ q → update h p o q ≡ h q
update_miss h p q o n = ground arith

live_elsewhere : (h : ℕ → Option Timer) (p q : ℕ) (t : Timer) → h p ≡ none → h q ≡ some t → p ≢ q
live_elsewhere h p q t e g n = (let z = sym e ∙ ap h n ∙ g in cc)

stored-Agree :
    (p : ℕ) (t : Timer) (q : TimerQueue)
    → Agree q
    → q.heap p ≡ none
    → Agree (record q { heap = update q.heap p (some t) })
stored-Agree p t q v e = record {
  timers_Sorted = v.timers_Sorted;
  active_Sorted = v.active_Sorted;
  size = v.size;
  live = λ when r c.
      let (u, g, x, a) = v.live when r c in
      (u, update_miss q.heap p r (some t) (live_elsewhere q.heap p r u e g) ∙ g, x, a);
  active = λ r n c.
      let (u, g, x, a) = v.active r n c in
      (u, update_miss q.heap p r (some t) (live_elsewhere q.heap p r u e g) ∙ g, x, a);
}

stored-Fresh :
    (p : ℕ) (t : Timer) (q : TimerQueue) (ps : List ℕ)
    → q.heap p ≡ none
    → All (Fresh q) ps
    → All (Fresh (record q { heap = update q.heap p (some t) })) ps × All (λ r. r ≢ p) ps
stored-Fresh p t q [] e f = (tt, tt)
stored-Fresh p t q (r ∷ ps) e ((u, g, h), f) =
    let rest = stored-Fresh p t q ps e f in
    let ne = live_elsewhere q.heap p r u e g in
    (((u, update_miss q.heap p r (some t) ne ∙ g, h), rest.0), (λ z. ne (sym z), rest.1))

-- No timer at a free address is active.
free_inactive :
    (q : TimerQueue) (p n : ℕ) → Agree q → q.heap p ≡ none → contains (p, n) q.active_timers ≡ false
free_inactive q p n v e = elim (Bool-cases (contains (p, n) q.active_timers)) [
  | inl c ↦ (let (u, g, x, a) = v.active p n c in let z = sym e ∙ g in cc)
  | inr c ↦ c
]

add_timer-Inv :
    (in_loop : Bool) (p when interval : ℕ) (s : TimerLoop)
    → Inv s
    → s.queue.heap p ≡ none
    → Returns (add_timer in_loop p when interval s) (λ r. Inv r.1)
unfolding add_timer run_in_loop new_timer
add_timer-Inv false p when interval s v e =
    let t : Timer = record {
      expiration = when;
      interval = interval;
      repeat = ltb 0 interval;
      sequence = s.num_created + 1;
    } in
    let (f, n) = stored-Fresh p t s.queue (added s.pending_functors) e v.fresh in
    let eq = added-append s.pending_functors (adds p ∷ []) in
    record {
      agree = stored-Agree p t s.queue v.agree e;
      distinct = rw eq (Distinct-append (added s.pending_functors) p v.distinct n);
      fresh = rw eq (
          All-append _ (added s.pending_functors) (p ∷ []) f (
            (
              t,
              update_hit s.queue.heap p (some t),
              free_inactive s.queue p (s.num_created + 1) v.agree e,
            ),
            tt,
          ));
    }
add_timer-Inv true p when interval s v e =
    let t : Timer = record {
      expiration = when;
      interval = interval;
      repeat = ltb 0 interval;
      sequence = s.num_created + 1;
    } in
    let q : TimerQueue = record s.queue { heap = update s.queue.heap p (some t) } in
    let (f, n) = stored-Fresh p t s.queue (added s.pending_functors) e v.fresh in
    Returns-bind _ _
      (do r ← run_functor (adds p) q; ok (record (new_timer p when interval s) { queue = r })) _
      (Returns-bind (Ran (λ e b. same e (p, t.sequence) || b) q) (λ u. Inv u)
        (run_functor (adds p) q) _
        (adds-Ran p t q (stored-Agree p t s.queue v.agree e) (update_hit s.queue.heap p (some t))
          (free_inactive s.queue p (s.num_created + 1) v.agree e))
        (λ r w. record {
          agree = w.agree;
          distinct = v.distinct;
          fresh =
              (Ran-Fresh _ q r (added s.pending_functors) w
                (All-map _ _ (added s.pending_functors)
                  (λ x ne m. rw (same-other p x m t.sequence (λ z. ne (sym z))) refl) n)
                f).0;
        }))
      (λ u w. w)

cancel-Inv :
    (in_loop : Bool) (id : ℕ × ℕ) (s : TimerLoop) → Inv s → Returns (cancel in_loop id s) Inv
unfolding cancel run_in_loop
cancel-Inv false id s v =
    let eq =
      added-append s.pending_functors (cancels id.0 id.1 ∷ [])
      ∙ append-nil (added s.pending_functors) in
    record { agree = v.agree; distinct = rw eq v.distinct; fresh = rw eq v.fresh }
cancel-Inv true id s v =
    Returns-bind _ _ (run_functor (cancels id.0 id.1) s.queue) _
      (cancels-Ran id.0 id.1 s.queue v.agree)
      (λ r w. record {
        agree = w.agree;
        distinct = v.distinct;
        fresh =
            (Ran-Fresh _ s.queue r (added s.pending_functors) w
              (All-map _ _ (added s.pending_functors) (λ x k m. ground arith) v.fresh) v.fresh).0;
      })

-- What a round of the pending functors leaves behind.
pub record Served (s t : TimerLoop) : Type 0 where
  pub inv : Inv t
  pub served : t.pending_functors ≡ []
  pub active_eq :
      (e : Entry)
      → contains e t.queue.active_timers
        ≡ after s.queue.heap s.pending_functors e (contains e s.queue.active_timers)

do_pending_functors-Served : (s : TimerLoop) → Inv s → Returns (do_pending_functors s) (Served s)
unfolding do_pending_functors
do_pending_functors-Served s v =
    Returns-bind _ _ (run_functors s.pending_functors s.queue) _
      (run_functors-After s.pending_functors s.queue v.agree v.distinct v.fresh)
      (λ r h. record {
        inv = record { agree = h.0; distinct = tt; fresh = tt };
        served = refl;
        active_eq = h.1;
      })

-- A result that is known, with what it satisfies.
Returns-known {ℓ} :
    {A : Type ℓ} (P : A → Type 0) (m : Checked A) (a : A) → Returns m P → m ≡ ok a → P a
Returns-known P m a h e = subst (λ x. Returns x P) e h

Step-Inv : {s t : TimerLoop} → Step s t → Inv s → Inv t
Step-Inv {s} (starts b p when interval id t e h) v =
    Returns-known (λ r. Inv r.1) _ (id, t) (add_timer-Inv b p when interval s v e) h
Step-Inv {s} (stops b id t h) v = Returns-known Inv _ t (cancel-Inv b id s v) h
Step-Inv {s} (runs t h) v = (Returns-known (Served s) _ t (do_pending_functors-Served s v) h).inv

Reach-Inv : {s t : TimerLoop} → Reach s t → Inv s → Inv t
Reach-Inv here v = v
Reach-Inv (next r x) v = Step-Inv x (Reach-Inv r v)

-- From a new queue of timers on, after any requests to start and to cancel timers, from the loop's
-- thread or others, and any rounds of the pending functors, with no timer expiring in between: the
-- next round of pending functors returns, and no assertion fails. No functor is left, the two sets
-- agree, and the active timers are what the specification makes of those that were active: each
-- request in its order adds the one new timer or takes out the one with the id, no other.
pub requests_in_order :
    (t : TimerLoop) → Reach construct t → Returns (do_pending_functors t) (Served t)
requests_in_order t r = do_pending_functors-Served t (Reach-Inv r construct-Inv)
