-- ===== src/Condition/Tests.antt =====
-- base/condition.cpp: half a second back, which pthread refuses; that is not a timeout.
use kaycc.Prelude.{◌≡◌, refl, false, pos, negsuc}
use kaycc.Condition.{deadline, wait_for_seconds}

half_back : deadline 5 0 (negsuc 499999999) ≡ (pos 5, negsuc 499999999)
unfolding deadline
half_back = refl

-- EINVAL
refused : wait_for_seconds 22 ≡ false
unfolding wait_for_seconds
refused = refl
