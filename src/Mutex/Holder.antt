-- ===== src/Mutex/Holder.antt =====
-- base/mutex.h: the holder is the thread in the critical section.
use kaycc.Prelude.{ℕ, ◌⊎◌, ◌≡◌, ◌≢◌, ◌↔◌, refl, Bool, true, false, none, some, inl, inr, arith}
use kaycc.Mutex.{
  Place, outside, acquired, inside, unlocking, entering_wait, blocked, MutexLock, construct, move,
  assign_holder, unassign_holder, is_locked_by_this_thread, unassigns, blocks, wakes, Step, locks,
  assigns, unassigns_holder, unlocks, waits, Reach, here, next,
}

abbrev pub owns : Place → Bool
owns outside = false
owns acquired = true
owns inside = true
owns unlocking = true
owns entering_wait = true
owns blocked = false

abbrev pub is_inside : Place → Bool
is_inside outside = false
is_inside acquired = false
is_inside inside = true
is_inside unlocking = false
is_inside entering_wait = false
is_inside blocked = false

record Inv (s : MutexLock) : Type 0 where
  owner_owns : (t : ℕ) → s.owner ≡ some t → owns (s.place t) ≡ true
  one_owner : (t : ℕ) → owns (s.place t) ≡ true → s.owner ≡ some t
  holder_inside : (t : ℕ) → t ≢ 0 → s.holder ≡ t → is_inside (s.place t) ≡ true
  inside_holds : (t : ℕ) → is_inside (s.place t) ≡ true → s.holder ≡ t

construct-Inv : Inv construct
unfolding construct
construct-Inv = record {
  owner_owns = λ t e. ground arith;
  one_owner = λ t e. ground arith;
  holder_inside = λ t n e. ground arith;
  inside_holds = λ t e. ground arith;
}

inside-owns : (p : Place) → is_inside p ≡ true → owns p ≡ true
inside-owns p h = ground arith

-- The thread with the mutex moves to another place where it has it, and the holder changes.
owner_moves :
    (tid h : ℕ) (p : Place) (s : MutexLock)
    → tid ≢ 0
    → owns (s.place tid) ≡ true
    → owns p ≡ true
    → ((is_inside p ≡ true) × (h ≡ tid)) ⊎ ((is_inside p ≡ false) × (h ≡ 0))
    → Inv s
    → Inv (record (move tid p s) { holder = h })
owner_moves tid h p s n o o' c v = record {
  owner_owns = λ t e. ground (arith, v.owner_owns t);
  one_owner = λ t e. ground (arith, v.one_owner t, v.one_owner tid);
  holder_inside = λ t m e. ground (arith, c);
  inside_holds = λ t e. ground (arith, c, v.one_owner t, v.one_owner tid, inside-owns (s.place t));
}

-- It gives the mutex up.
owner_leaves :
    (tid : ℕ) (p : Place) (s : MutexLock)
    → owns (s.place tid) ≡ true
    → is_inside (s.place tid) ≡ false
    → owns p ≡ false
    → Inv s
    → Inv (record (move tid p s) { owner = none })
owner_leaves tid p s o i o' v = record {
  owner_owns = λ t e. absurd (ground arith);
  one_owner = λ t e. ground (arith, v.one_owner t, v.one_owner tid);
  holder_inside = λ t m e. ground (arith, v.holder_inside t m);
  inside_holds =
      λ t e. ground (arith, v.one_owner t, v.one_owner tid, inside-owns (s.place t), inside-owns p);
}

-- A thread takes the free mutex.
mutex_taken :
    (tid : ℕ) (s : MutexLock)
    → owns (s.place tid) ≡ false
    → s.owner ≡ none
    → Inv s
    → Inv (record (move tid acquired s) { owner = some tid })
mutex_taken tid s o f v = record {
  owner_owns = λ t h. ground (arith, v.owner_owns t);
  one_owner = λ t h. ground (arith, v.one_owner t);
  holder_inside = λ t m h. ground (arith, v.holder_inside t m, inside-owns (s.place t));
  inside_holds = λ t h. ground (arith, v.inside_holds t);
}

Step-Inv : (tid : ℕ) → tid ≢ 0 → {s u : MutexLock} → Step tid s u → Inv s → Inv u
unfolding assign_holder unassign_holder
Step-Inv tid n {s} (locks e f) v = mutex_taken tid s (rw e refl) f v
Step-Inv tid n {s} (assigns e) v =
    owner_moves tid tid inside s n (rw e refl) refl (inl (refl, refl)) v
Step-Inv tid n {s} (unassigns_holder e) v =
    owner_moves tid 0 unlocking s n (rw e refl) refl (inr (refl, refl)) v
Step-Inv tid n {s} (unlocks e) v = owner_leaves tid outside s (rw e refl) (rw e refl) refl v
Step-Inv tid n {s} (waits (unassigns e)) v =
    owner_moves tid 0 entering_wait s n (rw e refl) refl (inr (refl, refl)) v
Step-Inv tid n {s} (waits (blocks e)) v = owner_leaves tid blocked s (rw e refl) (rw e refl) refl v
Step-Inv tid n {s} (waits (wakes e f)) v = mutex_taken tid s (rw e refl) f v

Reach-Inv : {s u : MutexLock} → Reach s u → Inv s → Inv u
Reach-Inv here v = v
Reach-Inv (next tid n r x) v = Step-Inv tid n x (Reach-Inv r v)

-- From a new mutex on, under every interleaving of threads that lock, unlock and wait:
-- `isLockedByThisThread` is true of a thread exactly while it stands between the return of `lock` or
-- `wait` and its next call of `unlock` or `wait`; the mutex of pthread then is that thread's; and
-- while no thread has the mutex, the holder is 0, as the destructor asserts.
pub holder_lem :
    (s : MutexLock) (t : ℕ)
    → Reach construct s
    → t ≢ 0
    → ((is_locked_by_this_thread t s ≡ true) ↔ (s.place t ≡ inside))
      × (is_locked_by_this_thread t s ≡ true → s.owner ≡ some t)
      × (s.owner ≡ none → is_locked_by_this_thread 0 s ≡ true)
unfolding is_locked_by_this_thread
holder_lem s t r n =
    let v = Reach-Inv r construct-Inv in
    (
      (λ h. ground (arith, v.holder_inside t n), λ h. ground (arith, v.inside_holds t)),
      λ h. v.one_owner t (inside-owns (s.place t) (v.holder_inside t n (ground arith))),
      λ h.
          ground
            (arith, v.holder_inside s.holder, v.one_owner s.holder, inside-owns (s.place s.holder)),
    )
