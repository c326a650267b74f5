-- ===== src/TcpConnection/Access.antt =====
-- net/tcpconnection.h and tcpconnection.cpp: the small functions of a connection, and its destructor.
use kaycc.Prelude.{ℕ, Bool, true, List, [], ◌∷◌, Checked, ok, ◌>>◌, assert}
use kaycc.Buffer
use kaycc.Channel
use kaycc.TcpConnection.{
  TcpConnection, State, disconnected, connecting, connected, disconnecting, same_state,
}

unfoldable pub is_connected : TcpConnection → Bool
is_connected c = same_state c.state connected

unfoldable pub is_disconnected : TcpConnection → Bool
is_disconnected c = same_state c.state disconnected

unfoldable pub is_reading : TcpConnection → Bool
is_reading c = c.reading

unfoldable pub set_write_complete_callback : TcpConnection → TcpConnection
set_write_complete_callback c = record c { write_complete_callback = true }

unfoldable pub set_high_water_mark_callback : ℕ → TcpConnection → TcpConnection
set_high_water_mark_callback mark c = record c {
  high_water_mark_callback = true;
  high_water_mark = mark;
}

-- `defaultMessageCallback`
unfoldable pub default_message_callback : TcpConnection → TcpConnection
default_message_callback c = record c { input_buffer = Buffer.retrieve_all c.input_buffer }

unfoldable pub state_to_string : State → List ℕ
state_to_string disconnected =
    b'k' ∷ b'D' ∷ b'i' ∷ b's' ∷ b'c' ∷ b'o' ∷ b'n' ∷ b'n' ∷ b'e' ∷ b'c' ∷ b't' ∷ b'e' ∷ b'd' ∷ []
state_to_string connecting =
    b'k' ∷ b'C' ∷ b'o' ∷ b'n' ∷ b'n' ∷ b'e' ∷ b'c' ∷ b't' ∷ b'i' ∷ b'n' ∷ b'g' ∷ []
state_to_string connected = b'k' ∷ b'C' ∷ b'o' ∷ b'n' ∷ b'n' ∷ b'e' ∷ b'c' ∷ b't' ∷ b'e' ∷ b'd' ∷ []
state_to_string disconnecting =
    b'k' ∷ b'D' ∷ b'i' ∷ b's' ∷ b'c' ∷ b'o' ∷ b'n' ∷ b'n' ∷ b'e' ∷ b'c' ∷ b't' ∷ b'i' ∷ b'n' ∷ b'g'
    ∷ []

-- The destructor, then those of the channel and the socket: the descriptors that are closed. `present`
-- is as for the channel.
unfoldable pub destruct : Bool → TcpConnection → Checked (List ℕ)
destruct present c = do
  assert (same_state c.state disconnected)
  Channel.destruct present c.channel
  ok (c.channel.fd ∷ [])
