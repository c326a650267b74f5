-- ===== src/TcpServer.antt =====
-- net/tcpserver.h and tcpserver.cpp: the connections of a server, by their names; a connection is known by
-- its name and by the descriptor of its socket. `destroyed` is what was handed to `connectDestroyed`.
pub mod Names
pub mod Connections
pub mod Sessions
mod Tests
use kaycc.Prelude.{
  ℕ, ◌+◌, ◌-◌, ◌^◌, Bool, true, false, not, Option, none, some, List, [], ◌∷◌, ◌++◌, take, ltb,
  if◌then◌else◌, Checked, ok, err, undefined, ◌>>=◌, ◌>>◌, assert,
}
use kaycc.Prelude.Decimal.{decimal}
use kaycc.Prelude.Texts.{same_bytes}
use kaycc.EventLoopThreadPool
use kaycc.EventLoopThreadPool.{EventLoopThreadPool, get_next_loop}

pub record Connection : Type 0 where
  pub name : List ℕ
  pub loop : ℕ
  pub sockfd : ℕ

-- `std::map` from names to connections: an association list without doubles.
abbrev pub ConnectionMap : Type 0
ConnectionMap = List (List ℕ × Connection)

unfoldable pub find : List ℕ → ConnectionMap → Option Connection
find name [] = none
find name ((k, c) ∷ rest) =
    let found = find name rest in if same_bytes k name then some c else found

unfoldable pub erase : List ℕ → ConnectionMap → ConnectionMap
erase name [] = []
erase name ((k, c) ∷ rest) =
    let others = erase name rest in if same_bytes k name then others else (k, c) ∷ others

-- `connections_[name] = conn`
abbrev pub insert : List ℕ → Connection → ConnectionMap → ConnectionMap
insert name conn m = (name, conn) ∷ erase name m

pub record TcpServer : Type 0 where
  pub name : List ℕ
  pub ip_port : List ℕ
  pub thread_pool : EventLoopThreadPool
  pub next_conn_id : ℕ
  pub connections : ConnectionMap
  pub started : Bool
  pub listening : Bool
  -- Functors that went to the loops of the connections.
  pub established : List Connection
  pub destroyed : List Connection

-- Given the loop, the text of the address and the name.
unfoldable pub construct : ℕ → List ℕ → List ℕ → TcpServer
construct loop ip_port name = record {
  name = name;
  ip_port = ip_port;
  thread_pool = EventLoopThreadPool.construct loop;
  next_conn_id = 1;
  connections = [];
  started = false;
  listening = false;
  established = [];
  destroyed = [];
}

-- `start`, given the loops that the threads make; `listen` runs in the server's loop.
unfoldable pub start : List ℕ → TcpServer → Checked TcpServer
start loops s = if s.started then ok s else do
  pool ← EventLoopThreadPool.start loops s.thread_pool
  assert (not s.listening)
  ok (record s { thread_pool = pool; started = true; listening = true })

-- The name of a connection: `snprintf` into a buffer of 64, behind the name of the server.
unfoldable pub conn_name : List ℕ → List ℕ → ℕ → List ℕ
conn_name name ip_port n = name ++ take (64 - 1) (b'-' ∷ (ip_port ++ b'#' ∷ decimal n))

-- `++nextConnId_` on an `int`.
unfoldable pub increment : ℕ → Checked ℕ
increment n = if ltb (n + 1) (2 ^ 31) then ok (n + 1) else err undefined

unfoldable pub new_connection : ℕ → TcpServer → Checked TcpServer
new_connection sockfd s = do
  (io_loop, pool) ← get_next_loop s.thread_pool
  next ← increment s.next_conn_id
  let name = conn_name s.name s.ip_port s.next_conn_id
  let conn : Connection = record { name = name; loop = io_loop; sockfd = sockfd }
  ok (record s {
    thread_pool = pool;
    next_conn_id = next;
    connections = insert name conn s.connections;
    established = s.established ++ conn ∷ [];
  })

unfoldable pub remove_connection_in_loop : Connection → TcpServer → Checked TcpServer
remove_connection_in_loop conn s = do
  assert (elim (find conn.name s.connections) [ none ↦ false | some c ↦ true ])
  ok (record s {
    connections = erase conn.name s.connections;
    destroyed = s.destroyed ++ conn ∷ [];
  })

pub destroy_all : ConnectionMap → List Connection → List Connection
destroy_all [] done = done
destroy_all ((name, conn) ∷ rest) done = destroy_all rest (done ++ conn ∷ [])

-- The destructor.
unfoldable pub destruct : TcpServer → TcpServer
destruct s = record s { connections = []; destroyed = destroy_all s.connections s.destroyed }
