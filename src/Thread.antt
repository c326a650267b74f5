-- ===== src/Thread.antt =====
-- base/thread.h and thread.cpp: starting and joining a thread. The latch is the one of CountDownLatch,
-- made with 1. `Step` interleaves the thread that calls `start` with the one that `startThread` runs in;
-- `child_tid` is what `gettid` gives the latter. An exception of the function ends the program.
pub mod Names
pub mod Starting
mod Tests
use kaycc.Prelude.{
  ℕ, suc, ◌+◌, ◌<◌, ◌≡◌, Bool, true, false, not, List, [], ◌∷◌, ltb, ◌==◌, if◌then◌else◌, Checked,
  pos, ok, err, ◌>>=◌, ◌>>◌, assert,
}
use kaycc.CountDownLatch
use kaycc.CountDownLatch.{CountDownLatch, count_down, wait}

-- Where the thread that calls `start` stands: before the call, behind `pthread_create`, in
-- `latch_.wait()`, back from it, or back from a `pthread_create` that failed.
pub data Caller : Type 0 where
  before spawned in_wait started_up create_failed : Caller

-- Where the new thread stands: not there, before `tid_` is set, before `countDown`, before the
-- function, or behind it.
pub data Child : Type 0 where
  absent entering tid_set counted finished : Child

pub record Thread : Type 0 where
  pub started : Bool
  pub joined : Bool
  pub tid : ℕ
  pub latch : CountDownLatch
  pub caller : Caller
  pub child : Child
  -- Whether the function has run.
  pub func_ran : Bool

unfoldable pub construct : Thread
construct = record {
  started = false;
  joined = false;
  tid = 0;
  latch = CountDownLatch.construct (pos 1);
  caller = before;
  child = absent;
  func_ran = false;
}

-- `start`, up to the result of `pthread_create`: the new thread may run from here on.
unfoldable pub start : Bool → Thread → Checked Thread
start created s = do
  assert (not s.started)
  ok (
      if created
      then record s { started = true; child = entering; caller = spawned }
      else record s { started = false; caller = create_failed })

-- `latch_.wait()` of `start`, from the lock to the wait or the return.
unfoldable pub wait_for_tid : Thread → Thread
wait_for_tid s = record s { caller = in_wait; latch = wait s.latch }

-- `assert(tid_ > 0)`, behind `latch_.wait()`.
unfoldable pub check_tid : Thread → Checked Thread
check_tid s = do assert (ltb 0 s.tid); ok (record s { caller = started_up })

unfoldable pub join : Thread → Checked Thread
join s = do assert s.started; assert (not s.joined); ok (record s { joined = true })

-- Whether the destructor calls `pthread_detach`.
unfoldable pub detaches : Thread → Bool
detaches s = if s.started then not s.joined else false

module _ (child_tid : ℕ) where
  pub data Step (s : Thread) : Thread → Type 0 where
    starts : (created : Bool) (t : Thread) → s.caller ≡ before → start created s ≡ ok t → Step s t
    waits : s.caller ≡ spawned → Step s (wait_for_tid s)
    -- The caller leaves `pthread_cond_wait`, and looks at the count again.
    resumes :
        (n : ℕ)
        → s.latch.woken ≡ n + 1
        → Step s (record s { latch = wait (record s.latch { woken = n }) })
    wakes :
        (n : ℕ)
        → s.latch.blocked ≡ n + 1
        → Step s (record s { latch = record s.latch { blocked = n; woken = s.latch.woken + 1 } })
    checks :
        (t : Thread) → s.caller ≡ in_wait → 0 < s.latch.returned → check_tid s ≡ ok t → Step s t
    -- `runInThread`
    sets_tid : s.child ≡ entering → Step s (record s { tid = child_tid; child = tid_set })
    counts :
        (l : CountDownLatch)
        → s.child ≡ tid_set
        → count_down s.latch ≡ ok l
        → Step s (record s { latch = l; child = counted })
    runs : s.child ≡ counted → Step s (record s { func_ran = true; child = finished })
    joins : (t : Thread) → join s ≡ ok t → Step s t

  pub data Reach (s : Thread) : Thread → Type 0 where
    here : Reach s s
    next : {t u : Thread} → Reach s t → Step t u → Reach s u
