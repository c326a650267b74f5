-- ===== src/CurrentThread/Tests.antt =====
-- base/current_thread.h: a thread that forks.
use kaycc.Prelude.{◌≡◌, refl, List, [], ◌∷◌, negsuc, arith}
use kaycc.CurrentThread.{sleep_usec, cache_tid, construct, blanks}
use kaycc.Prelude.Decimal.{digits}
use kaycc.CurrentThread.Cache.{
  Event, asks, compares, forks, happen_all, kernel_answers, new_run, Fresh, tid_fresh,
}

abbrev events : List Event
events = asks ∷ asks ∷ forks 20 ∷ compares 20 ∷ asks ∷ []

tid_fresh_example :
    ((happen_all events (new_run 10)).answers ≡ 10 ∷ 10 ∷ 20 ∷ [])
    × Fresh (happen_all events (new_run 10)).kernel_tid (happen_all events (new_run 10)).local
unfolding kernel_answers
tid_fresh_example = tid_fresh events 10 (omega arith, omega arith) ((omega arith, omega arith), tt)

-- "%5d" of 7
short_id : (cache_tid 7 construct).tid_string ≡ b' ' ∷ b' ' ∷ b' ' ∷ b' ' ∷ b'7' ∷ []
unfolding cache_tid construct blanks digits
short_id = refl

-- Before now: nanosleep refuses this.
below_zero : sleep_usec (negsuc 1499999) ≡ (negsuc 0, negsuc 499999999)
unfolding sleep_usec
below_zero = refl
