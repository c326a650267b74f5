-- ===== src/TimerQueue/Delay.antt =====
-- net/timerqueue.cpp: the delay given to `timerfd_settime`.
use kaycc.Prelude.{ℕ, ◌+◌, ◌-◌, ◌*◌, ◌<◌, ◌≡◌, arith, max}
use kaycc.TimerQueue.{how_much_time_from_now}

-- The `timespec` of `howMuchTimeFromNow` is the time left, in nanoseconds, but 100 microseconds where
-- less is left; and its second field is below a second.
pub how_much_time_from_now_lem :
    (when now : ℕ)
    → ((how_much_time_from_now when now).0 * 1000000000 + (how_much_time_from_now when now).1
        ≡ max 100 (when - now) * 1000)
      × ((how_much_time_from_now when now).1 < 1000000000)
unfolding how_much_time_from_now
how_much_time_from_now_lem when now = (ground arith, ground arith)
