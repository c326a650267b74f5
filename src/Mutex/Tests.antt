-- ===== src/Mutex/Tests.antt =====
-- base/mutex.h: the thread 7 has the mutex and waits for a condition, and the thread 9 locks it.
use kaycc.Prelude.{◌≡◌, ◌↔◌, refl, true, none, some, arith}
use kaycc.Mutex.{
  MutexLock, construct, inside, entering_wait, blocked, acquired, move, assign_holder,
  unassign_holder, is_locked_by_this_thread, unassigns, blocks, locks, assigns, waits, Reach, here,
  next,
}
use kaycc.Mutex.Holder.{holder_lem}

abbrev first_inside : MutexLock
first_inside =
    assign_holder 7 (move 7 inside (record (move 7 acquired construct) { owner = some 7 }))

abbrev first_blocked : MutexLock
first_blocked = record (move 7 blocked (unassign_holder (move 7 entering_wait first_inside))) {
  owner = none;
}

abbrev second_inside : MutexLock
second_inside =
    assign_holder 9 (move 9 inside (record (move 9 acquired first_blocked) { owner = some 9 }))

taken : Reach construct second_inside
unfolding construct assign_holder unassign_holder
taken =
    next 9 (λ e. omega arith)
      (next 9 (λ e. omega arith)
        (next 7 (λ e. omega arith)
          (next 7 (λ e. omega arith)
            (next 7 (λ e. omega arith) (next 7 (λ e. omega arith) here (locks refl refl))
              (assigns refl))
            (waits (unassigns refl)))
          (waits (blocks refl)))
        (locks refl refl))
      (assigns refl)

holder_example :
    ((is_locked_by_this_thread 9 second_inside ≡ true) ↔ (second_inside.place 9 ≡ inside))
    × (is_locked_by_this_thread 9 second_inside ≡ true → second_inside.owner ≡ some 9)
    × (second_inside.owner ≡ none → is_locked_by_this_thread 0 second_inside ≡ true)
holder_example = holder_lem second_inside 9 taken (λ e. omega arith)
