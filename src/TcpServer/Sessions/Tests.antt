-- ===== src/TcpServer/Sessions/Tests.antt =====
-- net/tcpserver.cpp: the second connection of a server with one loop, until it is closed.
use kaycc.Prelude.{
  ℕ, ◌*◌, ◌≡◌, refl, true, false, none, some, List, [], ◌∷◌, ok, Returns, replicate, arith,
}
use kaycc.Buffer
use kaycc.Buffer.{Buffer, add_size}
use kaycc.Channel
use kaycc.Channel.{Channel, enable_reading, disable_all, apply_interest}
use kaycc.EventLoopThreadPool
use kaycc.Prelude.Decimal.{digits}
use kaycc.Prelude.Texts.{same_bytes}
use kaycc.TcpConnection
use kaycc.TcpConnection.{
  TcpConnection, connecting, connected, disconnected, connection_callback, close_callback,
  connect_established, handle_close,
}
use kaycc.TcpServer.{
  Connection, TcpServer, construct, start, find, erase, conn_name, increment, new_connection,
  remove_connection_in_loop,
}
use kaycc.TcpServer.Connections.{Event, starts, connects, act, acts}
use kaycc.TcpServer.Sessions.{Session, closing, Reach, here, next, establishes, closes}
use kaycc.TcpServer.Sessions.Safe.{start_of, session_lem}

-- "s", and "1.2.3.4:80"
abbrev server_name : List ℕ
server_name = b's' ∷ []

abbrev address : List ℕ
address = b'1' ∷ b'.' ∷ b'2' ∷ b'.' ∷ b'3' ∷ b'.' ∷ b'4' ∷ b':' ∷ b'8' ∷ b'0' ∷ []

abbrev events : List Event
events = starts [] ∷ connects 7 ∷ []

abbrev connection : ℕ → ℕ → Connection
connection n sockfd = record { name = conn_name server_name address n; loop = 0; sockfd = sockfd }

abbrev server : ℕ → List Connection → List (List ℕ × Connection) → TcpServer
server n established connections = record {
  name = server_name;
  ip_port = address;
  thread_pool = record { base_loop = 0; started = true; next = 0; loops = [] };
  next_conn_id = n;
  connections = connections;
  started = true;
  listening = true;
  established = established;
  destroyed = [];
}

abbrev one_entry : List (List ℕ × Connection)
one_entry = (conn_name server_name address 1, connection 1 7) ∷ []

abbrev before : TcpServer
before = server 2 (connection 1 7 ∷ []) one_entry

abbrev accepted : TcpServer
accepted =
    server 3 (connection 1 7 ∷ connection 2 8 ∷ [])
      ((conn_name server_name address 2, connection 2 8) ∷ one_entry)

runs_before : acts events (construct 0 address server_name) ≡ ok before
unfolding acts act construct start new_connection increment EventLoopThreadPool.start
    EventLoopThreadPool.construct EventLoopThreadPool.get_next_loop erase
runs_before = refl

accepts_second : new_connection 8 before ≡ ok accepted
unfolding new_connection increment EventLoopThreadPool.get_next_loop erase conn_name digits
    same_bytes
accepts_second = refl

abbrev buffer : Buffer
buffer = record { buffer = replicate 1032 0; reader_index = 8; writer_index = 8 }

abbrev channel : Channel
channel = record (Channel.construct 8) {
  read_callback = true;
  write_callback = true;
  close_callback = true;
  error_callback = true;
}

abbrev fresh : TcpConnection
fresh = record {
  state = connecting;
  reading = true;
  channel = channel;
  input_buffer = buffer;
  output_buffer = buffer;
  high_water_mark = 64 * 1024 * 1024;
  write_complete_callback = false;
  high_water_mark_callback = false;
  sent = [];
  write_shut = false;
  ran = [];
  queued = [];
}

makes : TcpConnection.construct 8 false false ≡ ok fresh
unfolding TcpConnection.construct Channel.construct Buffer.construct
makes = refl

abbrev established : TcpConnection
established = record fresh {
  state = connected;
  channel = apply_interest enable_reading (Channel.tie channel);
  ran = connection_callback ∷ [];
}

abbrev shut : TcpConnection
shut = record established {
  state = disconnected;
  channel = apply_interest disable_all established.channel;
  ran = connection_callback ∷ connection_callback ∷ close_callback ∷ [];
}

abbrev last : Session
last = record { server = accepted; tcp = shut; stage = closing; closed = [] }

run_through : Reach (connection 2 8) (start_of accepted fresh) last
unfolding connect_established handle_close
run_through = next (next here (establishes established refl refl)) (closes shut refl refl)

finds : find (conn_name server_name address 2) accepted.connections ≡ some (connection 2 8)
unfolding find conn_name digits same_bytes
finds = refl

session_example :
    Returns
      (remove_connection_in_loop (connection 2 8) accepted)
      (λ t. find (connection 2 8).name t.connections ≡ none)
    × (find (connection 2 8).name accepted.connections ≡ some (connection 2 8))
    × (last.closed ≡ [])
session_example =
    session_lem server_name address events 0 8 false false before accepted (connection 2 8) fresh
      last (omega arith) runs_before accepts_second finds makes run_through
