-- ===== src/Connector/Tests.antt =====
-- net/connector.cpp on short runs.
use kaycc.Prelude.{refl, true, some, [], ◌∷◌}
use kaycc.Connector.{
  Connector, construct, connecting, einprogress, start, start_in_loop, connect, start_connecting,
  classify,
}
use kaycc.Connector.Sockets.{Inv}
use kaycc.Connector.Runs.{act, Run, here, next, starts, Run-Inv}

-- A connection is wanted, and none is under way.
abbrev idle : Connector
idle = record construct { wanted = true }

-- It is under way on descriptor 7.
abbrev trying : Connector
trying = record idle { state = connecting; channel = some 7; registered = true; opened = 7 ∷ [] }

started : Run construct trying
unfolding act construct start start_in_loop connect start_connecting classify
started = next (starts true 7 einprogress) here tt refl

Run_example : Inv trying
Run_example = Run-Inv trying started
