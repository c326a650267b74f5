-- ===== src/Thread/Tests.antt =====
-- base/thread.cpp: a thread with the id 42 starts while the caller waits.
use kaycc.Prelude.{pos, ◌≡◌, ◌⊎◌, refl, [], ◌∷◌, ◌++◌, arith, true, ok}
use kaycc.CountDownLatch
use kaycc.CountDownLatch.{CountDownLatch, wait, count_down, decrement, open_if_zero, notify_all}
use kaycc.Thread.{
  Thread, construct, start, check_tid, entering, counted, spawned, wait_for_tid, started_up, starts,
  waits, resumes, sets_tid, counts, Reach, here, next,
}
use kaycc.Prelude.Decimal.{decimal}
use kaycc.Thread.Names.{thread_word, make_all, all_named, make_all_lem}
use kaycc.Thread.Starting.{counts_of, start_sees_tid}

abbrev created : Thread
unfolding construct
created = record construct { started = true; child = entering; caller = spawned }

abbrev waiting : Thread
unfolding wait_for_tid
waiting = wait_for_tid created

abbrev opened : CountDownLatch
unfolding wait CountDownLatch.construct
opened = record waiting.latch { count = pos 0; downs = 1; blocked = 0; woken = 1 }

abbrev woken_up : Thread
unfolding wait
woken_up = record waiting { tid = 42; child = counted; latch = wait (record opened { woken = 0 }) }

reaches : Reach 42 construct woken_up
unfolding construct start wait_for_tid CountDownLatch.construct wait count_down decrement
    open_if_zero
reaches =
    next
      (next (next (next (next here (starts true created refl refl)) (waits refl)) (sets_tid refl))
        (counts opened refl refl))
      (resumes 0 refl)

-- The new thread is done before the caller waits.
abbrev early : Thread
unfolding wait_for_tid wait
early = wait_for_tid (record created {
  tid = 42;
  child = counted;
  latch = record construct.latch { count = pos 0; downs = 1 };
})

overtakes : Reach 42 construct early
unfolding construct start wait_for_tid CountDownLatch.construct wait count_down decrement
    open_if_zero notify_all
overtakes =
    next
      (next (next (next here (starts true created refl refl)) (sets_tid refl))
        (counts (record construct.latch { count = pos 0; downs = 1 }) refl refl))
      (waits refl)

start_sees_tid_example :
    ((woken_up.latch.returned ≡ 0)
      ⊎ ((woken_up.tid ≡ 42) × (check_tid woken_up ≡ ok (record woken_up { caller = started_up }))))
    × ((counts_of woken_up.child ≡ 0) ⊎ (woken_up.latch.blocked ≡ 0))
start_sees_tid_example = start_sees_tid 42 woken_up (omega arith) reaches

-- The fifth thread has no name, the sixth is called "io".
make_all_example :
    make_all ([] ∷ (b'i' ∷ b'o' ∷ []) ∷ []) 4
    ≡ ok ((thread_word ++ decimal 5) ∷ (b'i' ∷ b'o' ∷ []) ∷ [], 6)
unfolding all_named
make_all_example = make_all_lem ([] ∷ (b'i' ∷ b'o' ∷ []) ∷ []) 4 6 (omega arith) (omega arith)
