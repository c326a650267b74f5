-- ===== src/EventLoop/Wakeup.antt =====
-- net/eventloop.cpp: the loop never sleeps on work, under every interleaving with other threads, and
-- runs each functor once, in the order of the queue.
use kaycc.Prelude.{
  ℕ, ◌<◌, ◌≡◌, ◌≢◌, refl, ◌∙◌, ◌⊎◌, inl, inr, true, false, List, [], ◌∷◌, ◌++◌, append-nil,
  append_assoc, arith, OnOk, ok, subst,
}
use kaycc.EventLoop.{
  EventLoop, Phase, outside, polling, handling, running, wakeup, handle_read, push_back,
  queue_in_loop, quit_loop, start, construct, queue_all, run_functor, swap_pending, Step,
  poll_returns, reads_wakeup, handler_queues, handler_quits, swaps, runs, goes_on, stops,
  other_pushes, other_quits, other_wakes, Reach, here, next,
}
use kaycc.EventLoop.Sequential.{queue_in_loop-calling}

-- The wakeup descriptor is readable, or another thread is about to make it so.
abbrev pub WillWake : EventLoop → Type 0
WillWake s = (0 < s.wakeup_count) ⊎ (0 < s.owed)

-- The functors that `doPendingFunctors` has still to run.
abbrev pub remaining : Phase → List ℕ
remaining outside = []
remaining polling = []
remaining handling = []
remaining (running fs) = fs

-- What holds at each point of the loop.
abbrev pub Alert : Phase → EventLoop → Type 0
Alert outside s = Unit
Alert polling s =
    (s.pending_functors ≢ [] → WillWake s)
    × (s.quit ≡ true → WillWake s)
    × (s.calling_pending_functors ≡ false)
Alert handling s = s.calling_pending_functors ≡ false
Alert (running fs) s = (s.pending_functors ≢ [] → WillWake s) × (s.calling_pending_functors ≡ true)

pub record Inv (s : EventLoop) : Type 0 where
  pub alert : Alert s.phase s
  pub order : s.posted ≡ s.executed ++ (remaining s.phase ++ s.pending_functors)

-- The loop's thread is in `doPendingFunctors`, with `todo` left.
record IsRunning (todo : List ℕ) (s : EventLoop) : Type 0 where
  at : s.phase ≡ running todo
  calling : s.calling_pending_functors ≡ true
  awake : s.pending_functors ≢ [] → WillWake s
  order : s.posted ≡ s.executed ++ (todo ++ s.pending_functors)

IsRunning-Inv : (todo : List ℕ) (s : EventLoop) → IsRunning todo s → Inv s
IsRunning-Inv todo s r = record { alert = rw r.at (r.awake, r.calling); order = rw r.at r.order }

Inv-IsRunning : (todo : List ℕ) (s : EventLoop) → s.phase ≡ running todo → Inv s → IsRunning todo s
Inv-IsRunning todo s e v =
    let alert : Alert (running todo) s = rw e at v.alert in
    record { at = e; calling = alert.1; awake = alert.0; order = rw e at v.order }

queue_in_loop-IsRunning :
    (f : ℕ) (todo : List ℕ) (s : EventLoop)
    → IsRunning todo s
    → IsRunning todo (queue_in_loop true f s)
unfolding wakeup push_back
queue_in_loop-IsRunning f todo s r = rw (queue_in_loop-calling f s r.calling) (record {
  at = r.at;
  calling = r.calling;
  awake = λ _. inl (omega arith);
  order = rw r.order (simp append_assoc);
})

queue_in_loop-idle :
    (f : ℕ) (s : EventLoop)
    → s.calling_pending_functors ≡ false
    → queue_in_loop true f s ≡ push_back f s
unfolding queue_in_loop
queue_in_loop-idle f s e = rw e refl

-- The loop's thread handles events, or is before or in `poll`.
record IsHandling (s : EventLoop) : Type 0 where
  at : s.phase ≡ handling
  calling : s.calling_pending_functors ≡ false
  order : s.posted ≡ s.executed ++ s.pending_functors

IsHandling-Inv : (s : EventLoop) → IsHandling s → Inv s
IsHandling-Inv s r = record { alert = rw r.at r.calling; order = rw r.at r.order }

Inv-IsHandling : (s : EventLoop) → s.phase ≡ handling → Inv s → IsHandling s
Inv-IsHandling s e v =
    let alert : Alert handling s = rw e at v.alert in
    record { at = e; calling = alert; order = rw e at v.order }

-- What another thread does: it may push a functor or quit, and then owes a wakeup.
Alert-others :
    (p : Phase) (s t : EventLoop)
    → t.calling_pending_functors ≡ s.calling_pending_functors
    → WillWake t
    → Alert p s
    → Alert p t
Alert-others outside s t c w a = a
Alert-others polling s t c w a = ((λ _. w), (λ _. w), c ∙ a.2)
Alert-others handling s t c w a = c ∙ a
Alert-others (running fs) s t c w a = ((λ _. w), c ∙ a.1)

start-Inv : (s : EventLoop) → start construct ≡ ok s → Inv s
unfolding start construct
start-Inv s e =
    subst (λ c. OnOk c Inv) e
      (record {
        alert = ((λ n. absurd (n refl)), (λ q. absurd (ground arith)), refl);
        order = refl;
      })

module _ (calls : ℕ → List ℕ) where
  queue_all-IsRunning :
      (fs todo : List ℕ) (s : EventLoop) → IsRunning todo s → IsRunning todo (queue_all calls fs s)
  unfolding queue_all
  queue_all-IsRunning [] todo s r = r
  queue_all-IsRunning (f ∷ fs) todo s r =
      queue_all-IsRunning fs todo (queue_in_loop true f s) (queue_in_loop-IsRunning f todo s r)

  run_functor-IsRunning :
      (f : ℕ) (fs : List ℕ) (s : EventLoop)
      → IsRunning (f ∷ fs) s
      → IsRunning fs (run_functor calls f (record s { phase = running fs }))
  unfolding run_functor
  run_functor-IsRunning f fs s r = queue_all-IsRunning (calls f) fs _ (record {
    at = refl;
    calling = r.calling;
    awake = r.awake;
    order = rw r.order (simp append_assoc);
  })

  -- Every step keeps the loop alert and the order of the queue.
  pub Step-Inv : {s t : EventLoop} → Step calls s t → Inv s → Inv t
  unfolding handle_read queue_in_loop quit_loop swap_pending push_back wakeup
  Step-Inv {s} (poll_returns e) v =
      let h : Alert polling s = rw e at v.alert in
      IsHandling-Inv _ (record { at = refl; calling = h.2; order = rw e at v.order })
  Step-Inv {s} (reads_wakeup e) v =
      let h = Inv-IsHandling s e v in
      IsHandling-Inv _ (record { at = e; calling = h.calling; order = h.order })
  Step-Inv {s} (handler_queues f e) v =
      let h = Inv-IsHandling s e v in
      rw (queue_in_loop-idle f s h.calling) (
        IsHandling-Inv _
          (record { at = e; calling = h.calling; order = rw h.order (simp append_assoc) }))
  Step-Inv {s} (handler_quits e) v =
      let h = Inv-IsHandling s e v in
      IsHandling-Inv _ (record { at = e; calling = h.calling; order = h.order })
  Step-Inv {s} (swaps e) v =
      let h = Inv-IsHandling s e v in
      record { alert = ((λ n. absurd (n refl)), refl); order = rw h.order (simp append-nil) }
  Step-Inv {s} (runs f fs e) v =
      IsRunning-Inv fs _ (run_functor-IsRunning f fs s (Inv-IsRunning (f ∷ fs) s e v))
  Step-Inv {s} (goes_on e q) v =
      let h = Inv-IsRunning [] s e v in
      record { alert = (h.awake, (λ t. absurd (ground arith)), refl); order = h.order }
  Step-Inv {s} (stops e q) v = record { alert = tt; order = (Inv-IsRunning [] s e v).order }
  Step-Inv {s} (other_pushes f) v = record {
    alert = Alert-others s.phase s _ refl (inr (omega arith)) v.alert;
    order = rw v.order (simp append_assoc);
  }
  Step-Inv {s} other_quits v = record {
    alert = Alert-others s.phase s _ refl (inr (omega arith)) v.alert;
    order = v.order;
  }
  Step-Inv {s} (other_wakes n e) v = record {
    alert = Alert-others s.phase s _ refl (inl (omega arith)) v.alert;
    order = v.order;
  }

  pub Reach-Inv : {s t : EventLoop} → Reach calls s t → Inv s → Inv t
  Reach-Inv here v = v
  Reach-Inv (next r x) v = Step-Inv x (Reach-Inv r v)

  -- From `loop()` of a new loop on, under every interleaving of its thread with others: whenever it
  -- is about to wait in `poll` with a functor pending or its `quit_` set, the wakeup descriptor is
  -- readable or the thread that queued or quit has still to write to it.
  pub loop_wakes :
      (s t : EventLoop)
      → start construct ≡ ok s
      → Reach calls s t
      → t.phase ≡ polling
      → (t.pending_functors ≢ []) ⊎ (t.quit ≡ true)
      → WillWake t
  loop_wakes s t e r p w =
      let alert : Alert polling t = rw p at (Reach-Inv r (start-Inv s e)).alert in
      elim w [ inl n ↦ alert.0 n | inr q ↦ alert.1 q ]

  -- From `loop()` of a new loop on, under every interleaving: the functors that were queued are, in
  -- the order in which the mutex let them in, those that have run, those that the round under way has
  -- still to run, and those that wait for the next round. So each runs once, in order, and none is
  -- lost; and when a round is over and nothing is pending, all have run.
  pub functors_in_order :
      (s t : EventLoop)
      → start construct ≡ ok s
      → Reach calls s t
      → t.posted ≡ t.executed ++ (remaining t.phase ++ t.pending_functors)
  functors_in_order s t e r = (Reach-Inv r (start-Inv s e)).order
