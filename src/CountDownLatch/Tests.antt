-- ===== src/CountDownLatch/Tests.antt =====
-- base/count_down_latch.cpp: one thread waits for two.
use kaycc.Prelude.{pos, ◌+◌, ◌^◌, arith, ◌≤◌, ◌<◌, ◌≡◌, ◌⊎◌, refl}
use kaycc.CountDownLatch.{
  CountDownLatch, construct, wait, count_down, decrement, open_if_zero, enters, resumes, counts,
  Reach, here, next, get_count,
}
use kaycc.CountDownLatch.Opening.{left, latch_opens}

abbrev counted_once : CountDownLatch
unfolding construct wait
counted_once = record (wait (construct (pos 2))) { count = pos 1; downs = 1 }

abbrev counted_twice : CountDownLatch
counted_twice = record counted_once { count = pos 0; downs = 2; blocked = 0; woken = 1 }

abbrev opened_latch : CountDownLatch
unfolding wait
opened_latch = wait (record counted_twice { woken = 0 })

reaches : Reach (construct (pos 2)) opened_latch
unfolding construct wait count_down decrement open_if_zero
reaches =
    next (next (next (next here enters) (counts counted_once refl)) (counts counted_twice refl))
      (resumes 0 refl)

latch_opens_example :
    ((2 ≤ opened_latch.downs) ⊎ (opened_latch.returned ≡ 0))
    × ((opened_latch.downs < 2) ⊎ (opened_latch.blocked ≡ 0))
    × (get_count opened_latch ≡ left 2 opened_latch.downs)
    × (opened_latch.downs ≤ 2 + 2 ^ 31)
    × (opened_latch.downs < 2 ^ 32)
latch_opens_example = latch_opens 2 opened_latch (omega arith) reaches
