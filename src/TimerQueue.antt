-- ===== src/TimerQueue.antt =====
-- net/timerqueue.h, timerqueue.cpp, timer.h, timer.cpp and base/timestamp.h: the timers of a loop.
-- A time is a number of microseconds, a `Timer*` an address in a heap, whose entry is `none` once it
-- is deleted, and a callback its address. `armed` is the last time given to `timerfd_settime`.
pub mod Sets
pub mod Agree
pub mod Removal
pub mod Cancel
pub mod Expiry
pub mod Reset
pub mod Handover
pub mod Requests
pub mod Tick
pub mod Delay
mod Tests
use kaycc.Prelude.{
  ℕ, ◌+◌, ◌-◌, ◌*◌, ◌/◌, ◌%◌, Bool, true, false, not, ◌&&◌, Option, none, some, List, [], ◌∷◌, ◌++◌,
  length, ltb, ◌==◌, if◌then◌else◌, Checked, ok, err, undefined, ◌>>=◌, ◌>>◌, assert, update,
}
use kaycc.TimerQueue.Sets
use kaycc.TimerQueue.Sets.{Entry, contains, erase, before, from}

-- `when - now` in `howMuchTimeFromNow`, as the two fields of a `timespec`.
unfoldable pub how_much_time_from_now : ℕ → ℕ → ℕ × ℕ
how_much_time_from_now when now =
    let microseconds = if ltb (when - now) 100 then 100 else when - now in
    (microseconds / 1000000, microseconds % 1000000 * 1000)

pub record Timer : Type 0 where
  pub expiration : ℕ
  -- `interval_` in microseconds, as `addTime` converts it.
  pub interval : ℕ
  pub repeat : Bool
  pub sequence : ℕ

pub record TimerQueue : Type 0 where
  pub timers : List Entry
  pub active_timers : List Entry
  pub calling_expired_timers : Bool
  pub canceling_timers : List Entry
  pub heap : ℕ → Option Timer
  pub armed : Option ℕ

abbrev pub deref : ℕ → TimerQueue → Checked Timer
deref p q = elim (q.heap p) [ none ↦ err undefined | some t ↦ ok t ]

abbrev pub delete : ℕ → TimerQueue → TimerQueue
delete p q = record q { heap = update q.heap p none }

-- `timers_.size() == activeTimers_.size()`
abbrev pub same_size : TimerQueue → Bool
same_size q = length q.timers == length q.active_timers

-- Whether a timer that expires then would be the first.
abbrev pub is_earliest : ℕ → List Entry → Bool
is_earliest when [] = true
is_earliest when (e ∷ es) = ltb when e.0

unfoldable pub insert : ℕ → TimerQueue → Checked (Bool × TimerQueue)
insert p q = do
  assert (same_size q)
  t ← deref p q
  let earliest_changed = is_earliest t.expiration q.timers
  assert (not (contains (t.expiration, p) q.timers))
  assert (not (contains (p, t.sequence) q.active_timers))
  let q' : TimerQueue = record q {
    timers = Sets.insert (t.expiration, p) q.timers;
    active_timers = Sets.insert (p, t.sequence) q.active_timers;
  }
  assert (same_size q')
  ok (earliest_changed, q')

unfoldable pub add_timer_in_loop : ℕ → TimerQueue → Checked TimerQueue
add_timer_in_loop p q = do
  (earliest_changed, q') ← insert p q
  t ← deref p q'
  ok (if earliest_changed then record q' { armed = some t.expiration } else q')

-- The two fields of a `TimerId`.
unfoldable pub cancel_in_loop : ℕ → ℕ → TimerQueue → Checked TimerQueue
cancel_in_loop p sequence q = do
  assert (same_size q)
  q' ←
      (if contains (p, sequence) q.active_timers
        then (do
          t ← deref p q
          assert (contains (t.expiration, p) q.timers)
          ok (
              delete p (record q {
                timers = erase (t.expiration, p) q.timers;
                active_timers = erase (p, sequence) q.active_timers;
              })))
        else (if q.calling_expired_timers
            then ok (record q { canceling_timers = Sets.insert (p, sequence) q.canceling_timers })
            else ok q))
  assert (same_size q')
  ok q'

-- The file defines `UINTPTR_MAX` itself.
abbrev pub uintptr_max : ℕ
uintptr_max = 4294967295

-- `end == timers_.end() || now < end->first`
abbrev pub is_later : ℕ → List Entry → Bool
is_later now [] = true
is_later now (e ∷ es) = ltb now e.0

-- The loop that takes the expired timers out of `activeTimers_`.
pub deactivate : List Entry → TimerQueue → Checked TimerQueue
deactivate [] q = ok q
deactivate (e ∷ es) q = do
  t ← deref e.1 q
  assert (contains (e.1, t.sequence) q.active_timers)
  deactivate es (record q { active_timers = erase (e.1, t.sequence) q.active_timers })

unfoldable pub get_expired : ℕ → TimerQueue → Checked (List Entry × TimerQueue)
get_expired now q = do
  assert (same_size q)
  let sentry : Entry = (now, uintptr_max)
  let expired = before sentry q.timers
  let rest = from sentry q.timers
  assert (is_later now rest)
  q' ← deactivate expired (record q { timers = rest })
  assert (same_size q')
  ok (expired, q')

-- Times are microseconds, and a time with its interval is taken to fit `int64_t`.
unfoldable pub restart : ℕ → Timer → Timer
restart now t = record t { expiration = if t.repeat then now + t.interval else 0 }

-- The loop of `reset`: a periodic timer that was not cancelled goes back, any other is deleted.
pub reinsert : List Entry → ℕ → TimerQueue → Checked TimerQueue
unfolding restart
reinsert [] now q = ok q
reinsert (e ∷ es) now q = do
  t ← deref e.1 q
  q' ←
      (if t.repeat && not (contains (e.1, t.sequence) q.canceling_timers)
        then (do
          (earliest_changed, r) ←
              insert e.1 (record q { heap = update q.heap e.1 (some (restart now t)) })
          ok r)
        else ok (delete e.1 q))
  reinsert es now q'

-- `Timestamp::valid` is false of time 0.
unfoldable pub reset : List Entry → ℕ → TimerQueue → Checked TimerQueue
reset expired now q = do
  q' ← reinsert expired now q
  elim q'.timers [
    | [] ↦ ok q'
    | e ∷ es ↦ (do
      t ← deref e.1 q'
      ok (if ltb 0 t.expiration then record q' { armed = some t.expiration } else q'))
  ]

-- The callbacks, which may use the queue.
pub run_all : (ℕ → TimerQueue → Checked TimerQueue) → List Entry → TimerQueue → Checked TimerQueue
run_all run [] q = ok q
run_all run (e ∷ es) q = do t ← deref e.1 q; q' ← run e.1 q; run_all run es q'

unfoldable pub handle_read :
    (ℕ → TimerQueue → Checked TimerQueue) → ℕ → TimerQueue → Checked TimerQueue
handle_read run now q = do
  (expired, q') ← get_expired now q
  called ← run_all run expired (record q' { calling_expired_timers = true; canceling_timers = [] })
  reset expired now (record called { calling_expired_timers = false })

-- `delete it->second` for each entry of `timers_`.
pub delete_all : List Entry → TimerQueue → TimerQueue
delete_all [] q = q
delete_all (e ∷ es) q = delete_all es (delete e.1 q)

-- The destructor, but for the channel of the timerfd.
unfoldable pub destruct : TimerQueue → TimerQueue
destruct q = delete_all q.timers q
