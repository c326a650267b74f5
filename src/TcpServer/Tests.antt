-- ===== src/TcpServer/Tests.antt =====
-- net/tcpserver.cpp: a server with two loops and two connections, of which one is removed.
use kaycc.Prelude.{ℕ, ◌≡◌, ◌≤◌, List, [], ◌∷◌, OnOk, arith}
use kaycc.TcpServer.{Connection, construct, conn_name, destruct}
use kaycc.TcpServer.Connections.{Event, starts, connects, removes, acts, count, destruct_all}

-- "s", and "1.2.3.4:80"
abbrev server_name : List ℕ
server_name = b's' ∷ []

abbrev address : List ℕ
address = b'1' ∷ b'.' ∷ b'2' ∷ b'.' ∷ b'3' ∷ b'.' ∷ b'4' ∷ b':' ∷ b'8' ∷ b'0' ∷ []

abbrev first : Connection
first = record { name = conn_name server_name address 1; loop = 1; sockfd = 7 }

abbrev events : List Event
events = starts (1 ∷ 2 ∷ []) ∷ connects 7 ∷ connects 8 ∷ removes first ∷ []

destruct_all_example : OnOk (acts events (construct 0 address server_name)) (λ s.
    (n : List ℕ)
    → (count n (destruct s).destroyed ≡ count n s.established) × (count n s.established ≤ 1))
destruct_all_example = destruct_all server_name address (omega arith) events 0
