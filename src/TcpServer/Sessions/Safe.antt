-- ===== src/TcpServer/Sessions/Safe.antt =====
-- net/tcpserver.cpp, net/tcpconnection.cpp: no assertion fails in the life of a connection.
use kaycc.Prelude.{ℕ, ◌≤◌, ◌≡◌, refl, sym, subst, ap, ◌∙◌, Bool, Option, some, List, [], length, ok}
use kaycc.TcpConnection
use kaycc.TcpConnection.{TcpConnection}
use kaycc.TcpServer.{Connection, TcpServer, find, construct, conn_name, new_connection}
use kaycc.TcpServer.Connections.{Event, connects, act, acts, count, Inv, acts_once, act-Inv}
use kaycc.TcpServer.Sessions.{Session, made, Reach, Fits, entry, closed_at, GoesOn, goes_on}
use kaycc.TcpServer.Sessions.Whole.{
  Alive, Reach-Alive, Begun, connects-Begun, construct-Fits, returned,
}

-- The object of a connection that was just accepted.
abbrev pub start_of : TcpServer → TcpConnection → Session
start_of server c = record { server = server; tcp = c; stage = made; closed = [] }

act_connects : (sockfd : ℕ) (s : TcpServer) → act (connects sockfd) s ≡ new_connection sockfd s
unfolding act
act_connects sockfd s = refl

begin-Alive :
    (name ip_port : List ℕ) (short : length ip_port ≤ 51) (sockfd : ℕ) (s t : TcpServer)
    (conn : Connection) (c : TcpConnection)
    → Inv name ip_port t
    → Begun name ip_port sockfd s t
    → find (conn_name name ip_port s.next_conn_id) t.connections ≡ some conn
    → Fits (record { name = conn.name; loop = conn.loop; sockfd = sockfd }) made c
    → Alive conn name ip_port short (start_of t c)
begin-Alive name ip_port short sockfd s t conn c v b e (h, q, f) =
    let same : ◌≡◌ {A = Option Connection} (some b.made_conn) (some conn) =
      sym b.found ∙ ap (λ n. find n t.connections) b.name_is ∙ e in
    let same_conn : b.made_conn ≡ conn = cc in
    record {
      server_inv = v;
      fits = (h, q, f ∙ sym b.sockfd_is ∙ ap (λ k. k.sockfd) same_conn);
      entry_eq = subst (λ k. find k.name t.connections ≡ some k) same_conn b.found;
      counted = subst (λ k. count k.name t.established ≡ 1) same_conn b.once_more;
      closed_eq = refl;
    }

-- A new server has run any sequence of `start`, `newConnection` and `removeConnectionInLoop`, its address has a
-- text of at most 51 bytes, and it now accepts a descriptor; `conn` is the entry that newConnection makes,
-- and a TcpConnection is constructed on the descriptor. From there on, whatever the server does with
-- other connections and whatever the connection does that leaves it up, between connectEstablished and
-- handleClose, in between, if it does nothing of its own after handleClose: connectEstablished,
-- handleClose, removeConnectionInLoop and then connectDestroyed with the destructor each return when their
-- turn comes, and no assertion fails; the server has the entry under its name until
-- removeConnectionInLoop, and not afterwards; and the descriptor is closed by the destructor, once.
pub session_lem :
    (name ip_port : List ℕ) (es : List Event) (loop sockfd : ℕ)
    (write_complete high_water_mark : Bool) (s t : TcpServer) (conn : Connection)
    (c : TcpConnection) (u : Session)
    → length ip_port ≤ 51
    → acts es (construct loop ip_port name) ≡ ok s
    → new_connection sockfd s ≡ ok t
    → find (conn_name name ip_port s.next_conn_id) t.connections ≡ some conn
    → TcpConnection.construct sockfd write_complete high_water_mark ≡ ok c
    → Reach conn (start_of t c) u
    → GoesOn conn u u.stage
      × (find conn.name u.server.connections ≡ entry conn u.stage)
      × (u.closed ≡ closed_at conn u.stage)
session_lem name ip_port es loop sockfd wc hw s t conn c u short before accepts e makes r =
    let v =
      returned (Inv name ip_port) (acts es (construct loop ip_port name)) s before
        (acts_once name ip_port short es loop) in
    let w =
      returned (Inv name ip_port) (act (connects sockfd) s) t (act_connects sockfd s ∙ accepts)
        (act-Inv name ip_port short (connects sockfd) s v) in
    let b =
      returned (Begun name ip_port sockfd s) (new_connection sockfd s) t accepts
        (connects-Begun name ip_port sockfd s v) in
    let f =
      returned _ (TcpConnection.construct sockfd wc hw) c makes (construct-Fits sockfd wc hw) in
    let alive =
      Reach-Alive conn name ip_port short r
        (begin-Alive name ip_port short sockfd s t conn c w b e f) in
    (goes_on conn u u.stage alive.fits alive.entry_eq, alive.entry_eq, alive.closed_eq)
