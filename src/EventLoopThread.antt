-- ===== src/EventLoopThread.antt =====
-- net/eventloopthread.h and eventloopthread.cpp: a thread that makes a loop and runs it, and the caller of
-- `startLoop`, who waits for the loop under a condition variable. `address` is that of the loop on the
-- thread's stack. `Step` interleaves the two; the condition may also wake the caller for no reason.
-- `Thread::start` has returned before the caller looks at `loop_`.
pub mod Handover
mod Tests
use kaycc.Prelude.{
  ℕ, ◌≡◌, Bool, true, false, not, Option, none, some, if◌then◌else◌, is_none, Checked, ok, ◌>>=◌,
  ◌>>◌, assert,
}

-- The caller: before the call, before taking the lock, in `cond_.wait()`, leaving that, out of the
-- critical section, and back with what it read of `loop_`.
pub data Caller : Type 0 where
  before locking waiting waking unlocked : Caller
  returned : Option ℕ → Caller

-- The thread: not there, before it sets `loop_`, in `loop.loop()`, out of that, and done.
pub data Child : Type 0 where
  absent initialising looping left_loop ended : Child

pub record EventLoopThread : Type 0 where
  pub loop : Option ℕ
  pub exiting : Bool
  pub thread_started : Bool
  pub has_callback : Bool
  -- Whether the callback has run, and whether the destructor asked the loop to quit.
  pub callback_ran : Bool
  pub quit_asked : Bool
  pub caller : Caller
  pub child : Child

unfoldable pub construct : Bool → EventLoopThread
construct has_callback = record {
  loop = none;
  exiting = false;
  thread_started = false;
  has_callback = has_callback;
  callback_ran = false;
  quit_asked = false;
  caller = before;
  child = absent;
}

-- `startLoop`, up to its critical section.
unfoldable pub start_loop : EventLoopThread → Checked EventLoopThread
start_loop s = do
  assert (not s.thread_started)
  ok (record s { thread_started = true; child = initialising; caller = locking })

-- The test of `while (loop_ == NULL)`.
unfoldable pub test_loop : EventLoopThread → EventLoopThread
test_loop s = record s { caller = if is_none s.loop then waiting else unlocked }

-- `return loop_`
unfoldable pub read_loop : EventLoopThread → EventLoopThread
read_loop s = record s { caller = returned s.loop }

abbrev notified : Caller → Caller
notified before = before
notified locking = locking
notified waiting = waking
notified waking = waking
notified unlocked = unlocked
notified (returned r) = returned r

-- `threadFunc`, from its start to the end of its critical section, with `cond_.notify()`.
unfoldable pub publish : ℕ → EventLoopThread → EventLoopThread
publish address s = record s {
  callback_ran = s.has_callback;
  loop = some address;
  caller = notified s.caller;
  child = looping;
}

-- `loop_ = NULL`
unfoldable pub clear : EventLoopThread → EventLoopThread
clear s = record s { loop = none; child = ended }

-- The destructor, up to `join`.
unfoldable pub destruct : EventLoopThread → EventLoopThread
destruct s =
    let t : EventLoopThread = record s { exiting = true } in
    if is_none t.loop then t else record t { quit_asked = true }

module _ (address : ℕ) where
  pub data Step (s : EventLoopThread) : EventLoopThread → Type 0 where
    starts : (t : EventLoopThread) → s.caller ≡ before → start_loop s ≡ ok t → Step s t
    locks : s.caller ≡ locking → Step s (test_loop s)
    wakes : s.caller ≡ waiting → Step s (record s { caller = waking })
    resumes : s.caller ≡ waking → Step s (test_loop s)
    reads : s.caller ≡ unlocked → Step s (read_loop s)
    publishes : s.child ≡ initialising → Step s (publish address s)
    -- A handler, a functor or another thread has called `quit()`.
    leaves : s.child ≡ looping → Step s (record s { child = left_loop })
    clears : s.child ≡ left_loop → Step s (clear s)
    destructs : (r : Option ℕ) → s.caller ≡ returned r → Step s (destruct s)

  pub data Reach (s : EventLoopThread) : EventLoopThread → Type 0 where
    here : Reach s s
    next : {t u : EventLoopThread} → Reach s t → Step t u → Reach s u
