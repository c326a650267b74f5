-- ===== src/TcpClient/Tests.antt =====
-- net/tcpclient.cpp: a client that connects, loses its connection, and connects again.
use kaycc.Prelude.{
  ◌+◌, ◌≡◌, ℕ, ◌<◌, ◌^◌, arith, ◌⊎◌, refl, true, false, none, some, List, [], ◌∷◌, ◌++◌, length, ok,
  err, assertion,
}
use kaycc.Connector
use kaycc.Connector.{Connector, connected, einprogress, no_error}
use kaycc.Connector.Runs.{writable, runs_first, act}
use kaycc.TcpClient.{
  Connection, TcpClient, construct, to_list, enable_retry, connect_client, connector_event,
  new_connections, new_connection, increment, conn_name, remove_connection,
}
use kaycc.TcpClient.Connections.{
  descriptors, Act, enables_retry, connects, happens, closes, acts, client_act, client_connections,
}
use kaycc.TcpClient.Reconnect.{connects_once}
use kaycc.Prelude.Decimal.{digits}
use kaycc.Prelude.Texts.{same_bytes}

abbrev client_name : List ℕ
client_name = b'c' ∷ []

-- The text of the server's address.
abbrev peer : List ℕ
peer = b'p' ∷ []

abbrev first : Connection
first = record { name = b'c' ∷ b':' ∷ b'p' ∷ b'#' ∷ b'1' ∷ []; number = 1; sockfd = 5 }

abbrev second : Connection
second = record { name = b'c' ∷ b':' ∷ b'p' ∷ b'#' ∷ b'2' ∷ []; number = 2; sockfd = 6 }

-- The first connection comes up on descriptor 5; it is closed, and the connector restarts with 6.
abbrev history : List Act
history =
    enables_retry
    ∷ connects true 5 einprogress
    ∷ happens (writable false false) refl peer
    ∷ happens (runs_first 0 no_error) refl peer
    ∷ closes first 6 einprogress
    ∷ happens (writable false false) refl peer
    ∷ []

abbrev after : TcpClient
after = record {
  connector = record Connector.construct {
    wanted = true;
    state = connected;
    channel = some 6;
    opened = 5 ∷ 6 ∷ [];
    handed = 5 ∷ 6 ∷ [];
    tasks = Connector.reset_task ∷ [];
  };
  name = client_name;
  retry = true;
  connect = true;
  next_conn_id = 3;
  connection = some second;
  established = first ∷ second ∷ [];
  destroyed = first ∷ [];
  shut = [];
  forced = [];
}

runs : acts history (construct client_name) ≡ ok after
unfolding acts client_act enable_retry connect_client connector_event new_connections new_connection
    increment conn_name digits same_bytes remove_connection act construct Connector.construct
    Connector.start Connector.start_in_loop Connector.connect Connector.classify
    Connector.start_connecting Connector.handle_write Connector.remove_and_reset_channel
    Connector.settle Connector.run_first Connector.reset_channel Connector.restart
runs = refl

client_connections_example :
    (descriptors after.established ≡ after.connector.handed)
    × (after.established ≡ after.destroyed ++ to_list after.connection)
    × ((after.connection ≡ none) ⊎ (after.connector.state ≡ connected))
    × (after.next_conn_id ≡ length after.established + 1)
    × (after.next_conn_id < 2 ^ 31)
client_connections_example = client_connections client_name history after runs

-- A client that does not retry: its connection comes up and is closed.
abbrev once : List Act
once =
    connects true 5 einprogress
    ∷ happens (writable false false) refl peer
    ∷ happens (runs_first 0 no_error) refl peer
    ∷ closes first 6 einprogress
    ∷ []

abbrev over : TcpClient
over = record {
  connector = record Connector.construct {
    wanted = true;
    state = connected;
    channel = none;
    opened = 5 ∷ [];
    handed = 5 ∷ [];
    tasks = [];
  };
  name = client_name;
  retry = false;
  connect = true;
  next_conn_id = 2;
  connection = none;
  established = first ∷ [];
  destroyed = first ∷ [];
  shut = [];
  forced = [];
}

runs_once : acts once (construct client_name) ≡ ok over
unfolding acts client_act connect_client connector_event new_connections new_connection increment
    conn_name digits remove_connection act construct Connector.construct Connector.start
    Connector.start_in_loop Connector.connect Connector.classify Connector.start_connecting
    Connector.handle_write Connector.remove_and_reset_channel Connector.settle Connector.run_first
    Connector.reset_channel same_bytes
runs_once = refl

connects_once_example :
    (length over.established ≡ 1) × (connect_client true 7 einprogress over ≡ err assertion)
connects_once_example =
    connects_once client_name once over (tt, (tt, (tt, (tt, tt)))) runs_once (omega arith) 7
      einprogress
