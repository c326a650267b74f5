-- ===== src/TimerQueue/Requests/Tests.antt =====
-- net/timerqueue.cpp: another thread starts two timers and cancels the first.
use kaycc.Prelude.{refl, false, [], ◌∷◌, Returns}
use kaycc.TimerQueue.Requests.{
  TimerLoop, construct, adds, cancels, new_timer, add_timer, cancel, run_in_loop, starts, stops,
  Reach, here, next, do_pending_functors,
}
use kaycc.TimerQueue.Requests.Steps.{Served, requests_in_order}

abbrev first_started : TimerLoop
first_started = record (new_timer 8 50 0 construct) { pending_functors = adds 8 ∷ [] }

abbrev both_started : TimerLoop
both_started = record (new_timer 9 70 10 first_started) { pending_functors = adds 8 ∷ adds 9 ∷ [] }

abbrev first_cancelled : TimerLoop
first_cancelled = record both_started { pending_functors = adds 8 ∷ adds 9 ∷ cancels 8 1 ∷ [] }

requested : Reach construct first_cancelled
unfolding add_timer cancel run_in_loop new_timer construct
requested =
    next
      (next (next here (starts false 8 50 0 (8, 1) first_started refl refl))
        (starts false 9 70 10 (9, 2) both_started refl refl))
      (stops false (8, 1) first_cancelled refl)

requests_in_order_example : Returns (do_pending_functors first_cancelled) (Served first_cancelled)
requests_in_order_example = requests_in_order first_cancelled requested
