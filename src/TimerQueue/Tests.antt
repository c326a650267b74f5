-- ===== src/TimerQueue/Tests.antt =====
-- net/timerqueue.cpp on two timers.
use kaycc.Prelude.{
  ℕ, refl, true, false, Option, none, some, [], ◌∷◌, All, Returns, Returns-map, arith,
  if◌then◌else◌, ◌==◌,
}
use kaycc.TimerQueue.{Timer, TimerQueue, cancel_in_loop, handle_read}
use kaycc.TimerQueue.Sets.{contains, less, same}
use kaycc.TimerQueue.Agree.{Away, Agree}
use kaycc.TimerQueue.Cancel.{Cancelled, cancel_in_loop-Cancelled}
use kaycc.TimerQueue.Tick.{Ticked, handle_read-Ticked}

-- Every 10 microseconds.
abbrev periodic : Timer
periodic = record { expiration = 50; interval = 10; repeat = true; sequence = 1 }

abbrev once : Timer
once = record { expiration = 70; interval = 0; repeat = false; sequence = 2 }

abbrev heap : ℕ → Option Timer
heap p = if p == 8 then some periodic else (if p == 9 then some once else none)

-- The periodic timer is pending.
abbrev pending : TimerQueue
pending = record {
  timers = (50, 8) ∷ [];
  active_timers = (8, 1) ∷ [];
  calling_expired_timers = false;
  canceling_timers = [];
  heap = heap;
  armed = some 50;
}

pending-Agree : Agree pending
unfolding contains less same
pending-Agree = record {
  timers_Sorted = (tt, tt);
  active_Sorted = (tt, tt);
  size = refl;
  live = λ when p c. (periodic, ground arith, ground arith, ground arith);
  active = λ p n c. (periodic, ground arith, ground arith, ground arith);
}

-- It has expired.
abbrev expired : TimerQueue
expired = record pending { timers = []; active_timers = [] }

expired-Agree : Agree expired
unfolding contains less same
expired-Agree = record {
  timers_Sorted = tt;
  active_Sorted = tt;
  size = refl;
  live = λ when p c. absurd (ground arith);
  active = λ p n c. absurd (ground arith);
}

-- The callback cancels its own timer.
handle_read_example : Returns (handle_read (λ p q. cancel_in_loop p 1 q) 50 pending) Ticked
handle_read_example =
    handle_read-Ticked (λ p q. cancel_in_loop p 1 q) 50 pending
      (λ p es q v a.
        Returns-map (Cancelled p 1 q) (λ r. Agree r × All (Away r) es) (cancel_in_loop p 1 q)
          (cancel_in_loop-Cancelled p 1 q v) λ r c. (c.agree, c.away es a))
      pending-Agree ((λ e. omega arith), tt)

-- The same timer at an address of a 64-bit program.
abbrev high : TimerQueue
high = record pending {
  timers = (50, 94824000000000) ∷ [];
  active_timers = (94824000000000, 1) ∷ [];
  heap = λ p. if p == 94824000000000 then some periodic else none;
}

high-Agree : Agree high
unfolding contains less same
high-Agree = record {
  timers_Sorted = (tt, tt);
  active_Sorted = (tt, tt);
  size = refl;
  live = λ when p c. (periodic, ground arith, ground arith, ground arith);
  active = λ p n c. (periodic, ground arith, ground arith, ground arith);
}
