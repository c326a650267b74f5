-- ===== src/CountDownLatch.antt =====
-- base/count_down_latch.h and count_down_latch.cpp, over the condition variable of base/condition.h.
-- Each critical section is a function; `Step` interleaves the threads that wait with those that count
-- down, and the condition may also wake a thread for no reason.
pub mod Opening
mod Tests
use kaycc.Prelude.{
  ℕ, zero, suc, ◌+◌, ◌≡◌, Bool, true, false, ltb, if◌then◌else◌, ℤ, pos, negsuc, eq_ℤ, ◌^◌, Checked,
  ok, err, undefined, ◌>>=◌, ◌>>◌,
}

abbrev pub is_positive : ℤ → Bool
is_positive (pos n) = ltb 0 n
is_positive (negsuc n) = false

-- `--count_` on an `int`: there is nothing below -2^31.
unfoldable pub decrement : ℤ → Checked ℤ
decrement (pos zero) = ok (negsuc 0)
decrement (pos (suc n)) = ok (pos n)
decrement (negsuc n) = if ltb (n + 1) (2 ^ 31) then ok (negsuc (n + 1)) else err undefined

pub record CountDownLatch : Type 0 where
  pub count : ℤ
  -- Threads in `condition_.wait()`, leaving it, and back from `wait()`.
  pub blocked : ℕ
  pub woken : ℕ
  pub returned : ℕ
  -- Calls of `countDown` so far.
  pub downs : ℕ

unfoldable pub construct : ℤ → CountDownLatch
construct count = record { count = count; blocked = 0; woken = 0; returned = 0; downs = 0 }

-- `wait`, from the lock or from a wakeup to the next wait or the return.
unfoldable pub wait : CountDownLatch → CountDownLatch
wait s =
    if is_positive s.count
    then record s { blocked = s.blocked + 1 }
    else record s { returned = s.returned + 1 }

-- `condition_.notifyAll()`
unfoldable pub notify_all : CountDownLatch → CountDownLatch
notify_all s = record s { blocked = 0; woken = s.woken + s.blocked }

-- `if (count_ == 0) condition_.notifyAll();`
unfoldable pub open_if_zero : CountDownLatch → CountDownLatch
unfolding notify_all
open_if_zero s = if eq_ℤ s.count (pos 0) then notify_all s else s

unfoldable pub count_down : CountDownLatch → Checked CountDownLatch
count_down s = do
  count ← decrement s.count
  ok (open_if_zero (record s { count = count; downs = s.downs + 1 }))

unfoldable pub get_count : CountDownLatch → ℤ
get_count s = s.count

pub data Step (s : CountDownLatch) : CountDownLatch → Type 0 where
  enters : Step s (wait s)
  resumes : (n : ℕ) → s.woken ≡ n + 1 → Step s (wait (record s { woken = n }))
  wakes : (n : ℕ) → s.blocked ≡ n + 1 → Step s (record s { blocked = n; woken = s.woken + 1 })
  counts : (t : CountDownLatch) → count_down s ≡ ok t → Step s t

pub data Reach (s : CountDownLatch) : CountDownLatch → Type 0 where
  here : Reach s s
  next : {t u : CountDownLatch} → Reach s t → Step t u → Reach s u
