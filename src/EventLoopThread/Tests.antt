-- ===== src/EventLoopThread/Tests.antt =====
-- net/eventloopthread.cpp: a loop at address 7 that comes up, and one that is over too soon.
use kaycc.Prelude.{◌≡◌, ◌≢◌, ◌⊎◌, refl, true, false, none, some}
use kaycc.EventLoopThread.{
  EventLoopThread, waiting, waking, returned, looping, ended, construct, start_loop, test_loop,
  publish, read_loop, clear, starts, locks, resumes, reads, publishes, leaves, clears, Reach, here,
  next,
}
use kaycc.EventLoopThread.Handover.{will_publish, gives, start_loop_waits}

abbrev up : EventLoopThread
up = record {
  loop = some 7;
  exiting = false;
  thread_started = true;
  has_callback = true;
  callback_ran = true;
  quit_asked = false;
  caller = returned (some 7);
  child = looping;
}

reaches_up : Reach 7 (construct true) up
unfolding construct start_loop test_loop publish read_loop
reaches_up =
    next
      (next (next (next (next here (starts _ refl refl)) (locks refl)) (publishes refl))
        (resumes refl))
      (reads refl)

start_loop_waits_example :
    ((up.caller ≢ waiting) ⊎ (will_publish up.child ≡ true)) × (gives 7 up.caller ≡ true)
start_loop_waits_example = start_loop_waits 7 true up reaches_up refl

-- The loop runs, returns and is cleared while the caller is on its way out of the wait.
abbrev over : EventLoopThread
over = record up { loop = none; caller = waking; child = ended }

reaches_over : Reach 7 (construct true) over
unfolding construct start_loop test_loop publish clear
reaches_over =
    next
      (next (next (next (next here (starts _ refl refl)) (locks refl)) (publishes refl))
        (leaves refl))
      (clears refl)

abbrev asleep_again : EventLoopThread
asleep_again = record over { caller = waiting }

falls_asleep : Reach 7 over asleep_again
unfolding test_loop
falls_asleep = next here (resumes refl)
