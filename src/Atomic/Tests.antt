-- ===== src/Atomic/Tests.antt =====
-- Runs of base/atomic.h: the largest value of 32 bits, and a property on four calls.
use kaycc.Prelude.{◌≡◌, refl, [], ◌∷◌, ok, err, undefined, arith}
use kaycc.Atomic.{get_and_set, decrement_and_get, get_and_add, fetch_and_add, add_and_get, plus}
use kaycc.Atomic.Counter.{draws, reads, calls, calls_lem, drawn, answers}

calls_lem_example :
    calls 2147483648 (draws ∷ reads ∷ draws ∷ reads ∷ []) 0 ≡ ok (1 ∷ 1 ∷ 2 ∷ 2 ∷ [], 2)
unfolding drawn answers
calls_lem_example =
    calls_lem 2147483648 (draws ∷ reads ∷ draws ∷ reads ∷ []) 0 (omega arith) (omega arith)

-- The largest value.
last_draw : calls 2147483648 (draws ∷ draws ∷ []) 2147483646 ≡ err undefined
unfolding drawn answers
last_draw = calls_lem 2147483648 (draws ∷ draws ∷ []) 2147483646 (omega arith) (omega arith)

below_zero : decrement_and_get 2147483648 0 ≡ ok (4294967295, 4294967295)
unfolding decrement_and_get add_and_get get_and_add fetch_and_add plus
below_zero = refl

second_set : get_and_set 2147483648 1 1 ≡ (1, 1)
unfolding get_and_set
second_set = refl
