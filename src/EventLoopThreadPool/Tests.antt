-- ===== src/EventLoopThreadPool/Tests.antt =====
-- net/eventloopthreadpool.cpp with three loops.
use kaycc.Prelude.{true, [], ◌∷◌}
use kaycc.EventLoopThreadPool.{EventLoopThreadPool}

abbrev three : EventLoopThreadPool
three = record { base_loop = 1; started = true; next = 0; loops = 5 ∷ 6 ∷ 7 ∷ [] }
