-- ===== src/Thread/Starting.antt =====
-- base/thread.cpp: what `start` promises when it is back.
use kaycc.Prelude.{
  pos, OnOk, OnOk-any, ℕ, ◌+◌, ◌≤◌, ◌<◌, ◌≡◌, ◌⊎◌, inl, inr, refl, Bool, true, false, arith, subst,
  ◌∙◌, lt→ltb, ok, if◌then◌else◌,
}
use kaycc.CountDownLatch
use kaycc.CountDownLatch.{CountDownLatch, count_down, decrement, open_if_zero, notify_all, wait}
use kaycc.CountDownLatch.Opening.{latch_opens}
use kaycc.Thread.{
  Thread, before, spawned, started_up, create_failed, Child, absent, entering, tid_set, counted,
  finished, construct, start, wait_for_tid, check_tid, join, Step, starts, waits, resumes, wakes,
  checks, sets_tid, counts, runs, joins, Reach, here, next,
}

-- Whether the new thread has set `tid_`, and how often it has counted down.
abbrev knows_tid : Child → Bool
knows_tid absent = false
knows_tid entering = false
knows_tid tid_set = true
knows_tid counted = true
knows_tid finished = true

abbrev pub counts_of : Child → ℕ
counts_of absent = 0
counts_of entering = 0
counts_of tid_set = 0
counts_of counted = 1
counts_of finished = 1

downs-wait : (l : CountDownLatch) → (wait l).downs ≡ l.downs
unfolding wait
downs-wait l = ground arith

count_down-OnOk : (l : CountDownLatch) → OnOk (count_down l) (λ m. m.downs ≡ l.downs + 1)
unfolding count_down open_if_zero notify_all
count_down-OnOk l = OnOk-any (λ m. m.downs ≡ l.downs + 1) (decrement l.count) _ (λ c. ground arith)

downs-count_down : (l m : CountDownLatch) → count_down l ≡ ok m → m.downs ≡ l.downs + 1
downs-count_down l m e = subst (λ r. OnOk r (λ k. k.downs ≡ l.downs + 1)) e (count_down-OnOk l)

-- `start` from a thread that is not started, and the results of the other checked steps.
start-eq :
    (created : Bool) (s t : Thread)
    → start created s ≡ ok t
    → (if created
        then record s { started = true; child = entering; caller = spawned }
        else record s { started = false; caller = create_failed })
      ≡ t
unfolding start
start-eq created s t e = ground arith

check_tid-eq : (s t : Thread) → check_tid s ≡ ok t → record s { caller = started_up } ≡ t
unfolding check_tid
check_tid-eq s t e = ground arith

join-eq : (s t : Thread) → join s ≡ ok t → record s { joined = true } ≡ t
unfolding join
join-eq s t e = ground arith

module _ (child_tid : ℕ) where
  record Inv (s : Thread) : Type 0 where
    latched : CountDownLatch.Reach (CountDownLatch.construct (pos 1)) s.latch
    downs_eq : s.latch.downs ≡ counts_of s.child
    tid_eq : knows_tid s.child ≡ true → s.tid ≡ child_tid
    fresh : s.caller ≡ before → s.child ≡ absent

  start-Inv :
      (created : Bool) (s : Thread)
      → s.caller ≡ before
      → Inv s
      → Inv (
          if created
          then record s { started = true; child = entering; caller = spawned }
          else record s { started = false; caller = create_failed })
  start-Inv true s b v = record {
    latched = v.latched;
    downs_eq = ground (arith, v.downs_eq, v.fresh b);
    tid_eq = λ h. cc;
    fresh = λ h. cc;
  }
  start-Inv false s b v = record {
    latched = v.latched;
    downs_eq = v.downs_eq;
    tid_eq = v.tid_eq;
    fresh = λ h. cc;
  }

  wait_for_tid-Inv : (s : Thread) → Inv s → Inv (wait_for_tid s)
  unfolding wait_for_tid
  wait_for_tid-Inv s v = record {
    latched = CountDownLatch.next v.latched CountDownLatch.enters;
    downs_eq = downs-wait s.latch ∙ v.downs_eq;
    tid_eq = v.tid_eq;
    fresh = λ h. cc;
  }

  Step-Inv : {s t : Thread} → Step child_tid s t → Inv s → Inv t
  Step-Inv {s = s} (starts created t b e) v =
      subst Inv (start-eq created s t e) (start-Inv created s b v)
  Step-Inv {s = s} (waits b) v = wait_for_tid-Inv s v
  Step-Inv {s = s} (resumes n e) v = record {
    latched = CountDownLatch.next v.latched (CountDownLatch.resumes n e);
    downs_eq = downs-wait (record s.latch { woken = n }) ∙ v.downs_eq;
    tid_eq = v.tid_eq;
    fresh = v.fresh;
  }
  Step-Inv (wakes n e) v = record {
    latched = CountDownLatch.next v.latched (CountDownLatch.wakes n e);
    downs_eq = v.downs_eq;
    tid_eq = v.tid_eq;
    fresh = v.fresh;
  }
  Step-Inv {s = s} (checks t w r e) v =
      subst Inv (check_tid-eq s t e)
        (record { latched = v.latched; downs_eq = v.downs_eq; tid_eq = v.tid_eq; fresh = λ h. cc })
  Step-Inv (sets_tid e) v = record {
    latched = v.latched;
    downs_eq = ground (arith, v.downs_eq);
    tid_eq = λ h. refl;
    fresh = λ h. ground (arith, v.fresh h);
  }
  Step-Inv {s = s} (counts l e d) v = record {
    latched = CountDownLatch.next v.latched (CountDownLatch.counts l d);
    downs_eq = ground (arith, downs-count_down s.latch l d, v.downs_eq);
    tid_eq = λ h. ground arith;
    fresh = λ h. ground (arith, v.fresh h);
  }
  Step-Inv (runs e) v = record {
    latched = v.latched;
    downs_eq = ground (arith, v.downs_eq);
    tid_eq = λ h. ground arith;
    fresh = λ h. ground (arith, v.fresh h);
  }
  Step-Inv {s = s} (joins t e) v =
      subst Inv (join-eq s t e)
        (record { latched = v.latched; downs_eq = v.downs_eq; tid_eq = v.tid_eq; fresh = v.fresh })

  construct-Inv : Inv construct
  unfolding construct CountDownLatch.construct
  construct-Inv = record {
    latched = CountDownLatch.here;
    downs_eq = refl;
    tid_eq = λ h. cc;
    fresh = λ h. refl;
  }

  Reach-Inv : {s : Thread} → Reach child_tid construct s → Inv s
  Reach-Inv here = construct-Inv
  Reach-Inv (next r st) = Step-Inv st (Reach-Inv r)

  returned_tid : (s : Thread) → Inv s → 1 ≤ s.latch.downs → s.tid ≡ child_tid
  returned_tid s v h = ground arith

  check_tid_lem : (s : Thread) → 0 < s.tid → check_tid s ≡ ok (record s { caller = started_up })
  unfolding check_tid
  check_tid_lem s h = rw (lt→ltb 0 s.tid h)

  -- A new thread object whose thread the kernel gives an id above 0, under every interleaving of the
  -- caller of `start` with the new thread, which may run and count down before the caller waits, also
  -- with a condition that wakes for no reason: when the
  -- caller is back from the latch, `tid_` is that id and the assertion on it holds; and once the new
  -- thread has counted the latch down, the caller does not wait.
  pub start_sees_tid :
      (s : Thread)
      → 0 < child_tid
      → Reach child_tid construct s
      → ((s.latch.returned ≡ 0)
          ⊎ ((s.tid ≡ child_tid) × (check_tid s ≡ ok (record s { caller = started_up }))))
        × ((counts_of s.child ≡ 0) ⊎ (s.latch.blocked ≡ 0))
  start_sees_tid s pos_tid r =
      let v = Reach-Inv r in
      let (early, late, _, _, _) = latch_opens 1 s.latch (omega arith) v.latched in
      (
        elim early [
          | inl h ↦ let e = returned_tid s v h in inr (e, check_tid_lem s (omega arith))
          | inr z ↦ inl z
        ],
        elim late [ inl h ↦ inl (omega (arith, v.downs_eq)) | inr z ↦ inr z ],
      )
