-- ===== src/Mutex.antt =====
-- base/mutex.h and the wait of base/condition.h: who holds a MutexLock. A thread is its `tid()`, which is
-- not 0. `owner` is who has the mutex of pthread, as the calls of pthread are documented; `holder` is
-- what the class notes beside it, in a step of its own.
pub mod Holder
mod Tests
use kaycc.Prelude.{
  ℕ, ◌≡◌, Bool, Option, none, some, is_none, ◌==◌, if◌then◌else◌, Checked, ◌>>◌, assert,
}

-- Where a thread stands: outside; with the mutex, before `assignHolder`; between the return of `lock` or
-- `wait` and the next call; in `unlock` or `wait`, with the holder cleared; and blocked in `wait`.
pub data Place : Type 0 where
  outside acquired inside unlocking entering_wait blocked : Place

pub record MutexLock : Type 0 where
  pub owner : Option ℕ
  pub holder : ℕ
  pub place : ℕ → Place

unfoldable pub construct : MutexLock
construct = record { owner = none; holder = 0; place = λ t. outside }

abbrev pub move : ℕ → Place → MutexLock → MutexLock
move t p s = record s { place = λ u. if u == t then p else s.place u }

unfoldable pub assign_holder : ℕ → MutexLock → MutexLock
assign_holder tid s = record s { holder = tid }

unfoldable pub unassign_holder : MutexLock → MutexLock
unassign_holder s = record s { holder = 0 }

unfoldable pub is_locked_by_this_thread : ℕ → MutexLock → Bool
is_locked_by_this_thread tid s = s.holder == tid

unfoldable pub assert_lock_by_this_thread : ℕ → MutexLock → Checked (Unit {0})
unfolding is_locked_by_this_thread
assert_lock_by_this_thread tid s = assert (is_locked_by_this_thread tid s)

-- The destructor; pthread refuses to destroy a mutex that is held.
unfoldable pub destruct : MutexLock → Checked (Unit {0})
destruct s = do assert (s.holder == 0); assert (is_none s.owner)

-- `Condition::wait`, with the two halves of `UnassignGuard`; a thread that it has woken takes the mutex.
pub data Wait (t : ℕ) (s : MutexLock) : MutexLock → Type 0 where
  unassigns : s.place t ≡ inside → Wait t s (unassign_holder (move t entering_wait s))
  blocks : s.place t ≡ entering_wait → Wait t s (record (move t blocked s) { owner = none })
  wakes :
      s.place t ≡ blocked
      → s.owner ≡ none
      → Wait t s (record (move t acquired s) { owner = some t })

-- `lock`, `unlock` and `wait` of the thread `t`.
pub data Step (t : ℕ) (s : MutexLock) : MutexLock → Type 0 where
  locks :
      s.place t ≡ outside
      → s.owner ≡ none
      → Step t s (record (move t acquired s) { owner = some t })
  assigns : s.place t ≡ acquired → Step t s (assign_holder t (move t inside s))
  unassigns_holder : s.place t ≡ inside → Step t s (unassign_holder (move t unlocking s))
  unlocks : s.place t ≡ unlocking → Step t s (record (move t outside s) { owner = none })
  waits : {u : MutexLock} → Wait t s u → Step t s u

pub data Reach (s : MutexLock) : MutexLock → Type 0 where
  here : Reach s s
  next : {t u : MutexLock} (tid : ℕ) → (tid ≡ 0 → ⊥) → Reach s t → Step tid t u → Reach s u
