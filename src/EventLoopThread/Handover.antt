-- ===== src/EventLoopThread/Handover.antt =====
-- net/eventloopthread.cpp: how the loop comes to the caller of `startLoop`, and how it may not.
use kaycc.Prelude.{
  ℕ, ◌≡◌, ◌≢◌, ◌⊎◌, inl, inr, refl, ◌==◌, Bool-cases, subst, Bool, true, false, none, some, arith,
  ok,
}
use kaycc.EventLoopThread.{
  Caller, before, locking, waiting, waking, unlocked, returned, Child, absent, initialising,
  looping, left_loop, ended, EventLoopThread, construct, start_loop, test_loop, read_loop, publish,
  clear, destruct, Step, starts, locks, wakes, resumes, reads, publishes, leaves, clears, destructs,
  Reach, here, next,
}

-- The thread has not left its loop.
abbrev pub is_up : Child → Bool
is_up absent = true
is_up initialising = true
is_up looping = true
is_up left_loop = false
is_up ended = false

-- The thread has still to set `loop_`.
abbrev pub will_publish : Child → Bool
will_publish absent = true
will_publish initialising = true
will_publish looping = false
will_publish left_loop = false
will_publish ended = false

-- A caller that is past the test, or back with a pointer.
abbrev has_seen : Caller → Bool
has_seen before = false
has_seen locking = false
has_seen waiting = false
has_seen waking = false
has_seen unlocked = true
has_seen (returned r) = true

module _ (address : ℕ) where
  -- What `startLoop` gives back, if it is back.
  abbrev pub gives : Caller → Bool
  gives before = true
  gives locking = true
  gives waiting = true
  gives waking = true
  gives unlocked = true
  gives (returned none) = false
  gives (returned (some a)) = a == address

  record Inv (s : EventLoopThread) : Type 0 where
    up : s.child ≡ looping → s.loop ≡ some address
    early : will_publish s.child ≡ true → s.loop ≡ none
    seen : has_seen s.caller ≡ true → will_publish s.child ≡ false
    noticed : s.caller ≡ waiting → is_up s.child ≡ true → will_publish s.child ≡ true
    result : is_up s.child ≡ true → gives s.caller ≡ true
    fresh : s.caller ≡ before → s.child ≡ absent

  start_loop-eq :
      (s t : EventLoopThread)
      → start_loop s ≡ ok t
      → record s { thread_started = true; child = initialising; caller = locking } ≡ t
  unfolding start_loop
  start_loop-eq s t e = ground arith

  Step-Inv : {s t : EventLoopThread} → Step address s t → Inv s → Inv t
  unfolding test_loop read_loop publish clear destruct
  Step-Inv {s = s} (starts t b e) v = subst Inv (start_loop-eq s t e) ground arith
  Step-Inv (locks e) v = ground arith
  Step-Inv (wakes e) v = ground arith
  Step-Inv (resumes e) v = ground arith
  Step-Inv (reads e) v = ground arith
  Step-Inv (publishes e) v = ground arith
  Step-Inv (leaves e) v = ground arith
  Step-Inv (clears e) v = ground arith
  Step-Inv (destructs r e) v = ground arith

  construct-Inv : (cb : Bool) → Inv (construct cb)
  unfolding construct
  construct-Inv cb = ground arith

  Reach-Inv : (cb : Bool) {s : EventLoopThread} → Reach address (construct cb) s → Inv s
  Reach-Inv cb here = construct-Inv cb
  Reach-Inv cb (next r st) = Step-Inv st (Reach-Inv cb r)

  -- Under every interleaving of the caller of `startLoop` with the new thread, also with a condition
  -- that wakes for no reason, as long as the thread has not left its loop: the caller is in the wait
  -- only while the thread has still to set `loop_` and notify; and if `startLoop` is back, it gave the
  -- address of the loop.
  pub start_loop_waits :
      (cb : Bool) (s : EventLoopThread)
      → Reach address (construct cb) s
      → is_up s.child ≡ true
      → ((s.caller ≢ waiting) ⊎ (will_publish s.child ≡ true)) × (gives s.caller ≡ true)
  start_loop_waits cb s r up =
      let v = Reach-Inv cb r in
      (
        elim (Bool-cases (will_publish s.child)) [
          | inl h ↦ inr h
          | inr h ↦ inl (λ e. cc (v.noticed e up))
        ],
        v.result up,
      )

  -- The loop is gone and the caller has not seen it.
  pub record Missed (s : EventLoopThread) : Type 0 where
    pub gone : s.child ≡ ended
    pub cleared : s.loop ≡ none
    pub asleep : (s.caller ≡ waiting) ⊎ (s.caller ≡ waking)

  Step-Missed : {s t : EventLoopThread} → Step address s t → Missed s → Missed t
  unfolding test_loop
  Step-Missed (starts t b e) v = ground (arith, v.asleep)
  Step-Missed (locks e) v = ground (arith, v.asleep)
  Step-Missed (wakes e) v = record { gone = v.gone; cleared = v.cleared; asleep = inr refl }
  Step-Missed (resumes e) v = ground (arith, v.cleared)
  Step-Missed (reads e) v = ground (arith, v.asleep)
  Step-Missed (publishes e) v = ground (arith, v.gone)
  Step-Missed (leaves e) v = ground (arith, v.gone)
  Step-Missed (clears e) v = ground (arith, v.gone)
  Step-Missed (destructs r e) v = ground (arith, v.asleep)

  -- If the loop has run and returned, and `loop_` is NULL again, before the caller of `startLoop` has
  -- looked at it after its wait, the caller waits for ever, under every interleaving: whenever the
  -- condition wakes it, it finds NULL, and the thread is gone.
  pub Reach-Missed : (s t : EventLoopThread) → Missed s → Reach address s t → Missed t
  Reach-Missed s t m here = m
  Reach-Missed s t m (next r st) = Step-Missed st (Reach-Missed s _ m r)
