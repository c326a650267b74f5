-- ===== src/EventLoop/Sequential.antt =====
-- net/eventloop.cpp: what one call of `doPendingFunctors` does while no other thread steps in.
use kaycc.Prelude.{
  ℕ, ◌+◌, ◌≡◌, refl, true, false, List, [], ◌∷◌, ◌++◌, append-nil, append_assoc, arith, length,
  length-append, ◌∙◌,
}
use kaycc.EventLoop.{
  EventLoop, wakeup, push_back, queue_in_loop, queue_all, run_functor, run_functors, swap_pending,
  do_pending_functors,
}

-- The functors that running these queues.
abbrev pub queued_by : (ℕ → List ℕ) → List ℕ → List ℕ
queued_by calls [] = []
queued_by calls (f ∷ fs) = calls f ++ queued_by calls fs

-- `t` is `s` after `ran` have run and `added` were queued, each with a wakeup.
pub record Ran (ran added : List ℕ) (s t : EventLoop) : Type 0 where
  pub executed : t.executed ≡ s.executed ++ ran
  pub pending : t.pending_functors ≡ s.pending_functors ++ added
  pub posted : t.posted ≡ s.posted ++ added
  pub wakeups : t.wakeup_count ≡ s.wakeup_count + length added
  pub calling : t.calling_pending_functors ≡ s.calling_pending_functors

Ran-trans :
    {ran ran' added added' : List ℕ} (s t u : EventLoop)
    → Ran ran added s t
    → Ran ran' added' t u
    → Ran (ran ++ ran') (added ++ added') s u
Ran-trans {added} {added'} s t u a b = record {
  executed = b.executed ∙ rw a.executed (simp append_assoc);
  pending = b.pending ∙ rw a.pending (simp append_assoc);
  posted = b.posted ∙ rw a.posted (simp append_assoc);
  wakeups = grind (arith, a.wakeups, b.wakeups, length-append added added');
  calling = b.calling ∙ a.calling;
}

pub queue_in_loop-calling :
    (f : ℕ) (s : EventLoop)
    → s.calling_pending_functors ≡ true
    → queue_in_loop true f s ≡ wakeup (push_back f s)
unfolding queue_in_loop
queue_in_loop-calling f s e = rw e refl

queue-Ran :
    (f : ℕ) (s : EventLoop)
    → s.calling_pending_functors ≡ true
    → Ran [] (f ∷ []) s (queue_in_loop true f s)
unfolding wakeup push_back
queue-Ran f s e = rw (queue_in_loop-calling f s e) (record {
  executed = simp append-nil;
  pending = refl;
  posted = refl;
  wakeups = refl;
  calling = refl;
})

Ran-refl : (s : EventLoop) → Ran [] [] s s
Ran-refl s = record {
  executed = simp append-nil;
  pending = simp append-nil;
  posted = simp append-nil;
  wakeups = omega arith;
  calling = refl;
}

module _ (calls : ℕ → List ℕ) where
  queue_all-Ran :
      (fs : List ℕ) (s : EventLoop)
      → s.calling_pending_functors ≡ true
      → Ran [] fs s (queue_all calls fs s)
  unfolding queue_all
  queue_all-Ran [] s e = Ran-refl s
  queue_all-Ran (f ∷ fs) s e =
      let q = queue-Ran f s e in
      Ran-trans s _ _ q (queue_all-Ran fs (queue_in_loop true f s) (q.calling ∙ e))

  run_functor-Ran :
      (f : ℕ) (s : EventLoop)
      → s.calling_pending_functors ≡ true
      → Ran (f ∷ []) (calls f) s (run_functor calls f s)
  unfolding run_functor
  run_functor-Ran f s e =
      let u : EventLoop = record s { executed = s.executed ++ f ∷ [] } in
      let first : Ran (f ∷ []) [] s u = record {
        executed = refl;
        pending = simp append-nil;
        posted = simp append-nil;
        wakeups = omega arith;
        calling = refl;
      } in
      Ran-trans s u _ first (queue_all-Ran (calls f) u e)

  run_functors-Ran :
      (fs : List ℕ) (s : EventLoop)
      → s.calling_pending_functors ≡ true
      → Ran fs (queued_by calls fs) s (run_functors calls fs s)
  unfolding run_functors
  run_functors-Ran [] s e = Ran-refl s
  run_functors-Ran (f ∷ fs) s e =
      let q = run_functor-Ran f s e in
      Ran-trans s _ _ q (run_functors-Ran fs (run_functor calls f s) (q.calling ∙ e))

  -- `doPendingFunctors`, without another thread: it runs what was pending, each functor once and in
  -- order, and nothing else; what these functors queue is pending afterwards, in order, whatever
  -- their number; and each of them has written to the wakeup descriptor, so that the next `poll` does
  -- not wait.
  pub do_pending_functors_lem :
      (s : EventLoop)
      → ((do_pending_functors calls s).executed ≡ s.executed ++ s.pending_functors)
        × ((do_pending_functors calls s).pending_functors ≡ queued_by calls s.pending_functors)
        × ((do_pending_functors calls s).wakeup_count
            ≡ s.wakeup_count + length (queued_by calls s.pending_functors))
        × ((do_pending_functors calls s).calling_pending_functors ≡ false)
  unfolding do_pending_functors swap_pending
  do_pending_functors_lem s =
      let r = run_functors-Ran s.pending_functors (swap_pending calls s) refl in
      (r.executed, r.pending, r.wakeups, refl)
