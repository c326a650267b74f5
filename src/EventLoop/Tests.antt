-- ===== src/EventLoop/Tests.antt =====
-- net/eventloop.cpp on short runs.
use kaycc.Prelude.{ℕ, ◌+◌, ◌≡◌, refl, inl, List, [], ◌∷◌, ◌++◌, true, arith, if◌then◌else◌, ◌==◌}
use kaycc.EventLoop.{
  EventLoop, construct, start, polling, other_pushes, Reach, here, next, push_back,
}
use kaycc.EventLoop.Wakeup.{WillWake, remaining, loop_wakes, functors_in_order}

-- Running functor 1 queues functor 2.
abbrev calls : ℕ → List ℕ
calls f = if f == 1 then 2 ∷ [] else []

abbrev started : EventLoop
started = record construct { looping = true; phase = polling }

-- Another thread has pushed functor 1, and not yet called `wakeup`.
abbrev pushed : EventLoop
pushed = record (push_back 1 started) { owed = started.owed + 1 }

reach : Reach calls started pushed
reach = next here (other_pushes 1)

loop_wakes_example : WillWake pushed
unfolding push_back construct
loop_wakes_example =
    loop_wakes calls started pushed (unfold start construct in refl) reach refl
      (inl (λ e. ground arith))

functors_in_order_example :
    pushed.posted ≡ pushed.executed ++ (remaining pushed.phase ++ pushed.pending_functors)
functors_in_order_example =
    functors_in_order calls started pushed (unfold start construct in refl) reach
