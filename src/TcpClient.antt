-- ===== src/TcpClient.antt =====
-- net/tcpclient.h and tcpclient.cpp: a connector and at most one connection. A connection is known by its
-- number and the descriptor of its socket, and has a name; `established` are those that were set up, `destroyed` those
-- handed to `connectDestroyed`, `shut` and `forced` those on which `shutdown` and `forceClose` were called.
-- The descriptors and answers for a new attempt to connect are arguments, as for the connector, and so
-- is `peer`, the text of the address that `getPeerAddr` gives.
pub mod Handed
pub mod Connections
pub mod Reconnect
mod Tests
use kaycc.Prelude.{
  ℕ, ◌+◌, ◌≡◌, Bool, true, false, ◌&&◌, Option, none, some, List, [], ◌∷◌, ◌++◌, length, drop, ◌==◌,
  if◌then◌else◌, Checked, ok, err, ◌>>=◌, ◌>>◌, assert, take, ltb, ◌^◌, ◌-◌, undefined,
}
use kaycc.Prelude.Decimal.{decimal}
use kaycc.Prelude.Texts.{same_bytes}
use kaycc.Connector
use kaycc.Connector.{Connector, Errno}
use kaycc.Connector.Runs.{Event, runs_first, fires, writable, fails, act}

pub record Connection : Type 0 where
  pub name : List ℕ
  pub number : ℕ
  pub sockfd : ℕ

pub record TcpClient : Type 0 where
  pub connector : Connector
  pub name : List ℕ
  pub retry : Bool
  pub connect : Bool
  pub next_conn_id : ℕ
  pub connection : Option Connection
  pub established : List Connection
  pub destroyed : List Connection
  pub shut : List Connection
  pub forced : List Connection

unfoldable pub construct : List ℕ → TcpClient
construct name = record {
  connector = Connector.construct;
  name = name;
  retry = false;
  connect = true;
  next_conn_id = 1;
  connection = none;
  established = [];
  destroyed = [];
  shut = [];
  forced = [];
}

unfoldable pub enable_retry : TcpClient → TcpClient
enable_retry s = record s { retry = true }

-- `connect()`
unfoldable pub connect_client : Bool → ℕ → Errno → TcpClient → Checked TcpClient
connect_client in_loop sockfd errno s = do
  c ← Connector.start in_loop sockfd errno s.connector
  ok (record s { connect = true; connector = c })

abbrev pub to_list {ℓ} : {A : Type ℓ} → Option A → List A
to_list none = []
to_list (some a) = a ∷ []

unfoldable pub disconnect : TcpClient → TcpClient
disconnect s = record s { connect = false; shut = s.shut ++ to_list s.connection }

unfoldable pub stop : TcpClient → TcpClient
stop s = record s { connect = false; connector = Connector.stop s.connector }

-- The name of a connection: `snprintf` into a buffer of 32, behind the name of the client.
unfoldable pub conn_name : List ℕ → List ℕ → ℕ → List ℕ
conn_name name peer n = name ++ take (32 - 1) (b':' ∷ (peer ++ b'#' ∷ decimal n))

-- `++nextConnId_` on an `int`.
unfoldable pub increment : ℕ → Checked ℕ
increment n = if ltb (n + 1) (2 ^ 31) then ok (n + 1) else err undefined

-- `newConnection(sockfd)`, up to `connectEstablished`.
unfoldable pub new_connection : List ℕ → ℕ → TcpClient → Checked TcpClient
new_connection peer sockfd s = do
  next ← increment s.next_conn_id
  let conn : Connection = record {
    name = conn_name s.name peer s.next_conn_id;
    number = s.next_conn_id;
    sockfd = sockfd;
  }
  ok (record s {
    next_conn_id = next;
    connection = some conn;
    established = s.established ++ conn ∷ [];
  })

abbrev pub same_connection : Connection → Option Connection → Bool
same_connection a none = false
same_connection a (some b) =
    same_bytes a.name b.name && (a.number == b.number && a.sockfd == b.sockfd)

-- `removeConnection(conn)`
unfoldable pub remove_connection : Connection → ℕ → Errno → TcpClient → Checked TcpClient
remove_connection conn sockfd errno s = do
  assert (same_connection conn s.connection)
  let t : TcpClient = record s { connection = none; destroyed = s.destroyed ++ conn ∷ [] }
  (if t.retry && t.connect
      then (do c ← Connector.restart sockfd errno t.connector; ok (record t { connector = c }))
      else ok t)

-- The callbacks of the connector, for what it has handed on.
unfoldable pub new_connections : List ℕ → List ℕ → TcpClient → Checked TcpClient
new_connections peer [] s = ok s
new_connections peer (fd ∷ fds) s = do t ← new_connection peer fd s; new_connections peer fds t

-- A functor, a timer or an event of the connector.
unfoldable pub connector_event : Event → List ℕ → TcpClient → Checked TcpClient
connector_event e peer s = do
  c ← act e s.connector
  new_connections peer (drop (length s.connector.handed) c.handed) (record s { connector = c })

-- The destructor; `unique` says that nobody else holds the connection. The close callback that it
-- sets hands the connection to `connectDestroyed`.
unfoldable pub destruct : Bool → TcpClient → TcpClient
destruct unique s = elim s.connection [
  | none ↦ record s { connector = Connector.stop s.connector }
  | some conn ↦ if unique then record s { forced = s.forced ++ conn ∷ [] } else s
]
