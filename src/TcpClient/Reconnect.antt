-- ===== src/TcpClient/Reconnect.antt =====
-- net/tcpclient.cpp: `connect` after a connection that is over, of a client that does not retry.
use kaycc.Prelude.{
  ℕ, suc, ◌+◌, ◌≡◌, ◌<◌, ◌⊎◌, inl, inr, refl, sym, ap, ◌∙◌, subst, true, false, Bool, List, [], ◌∷◌,
  length, length-append, ltb, ◌^◌, Bool-cases, ok, err, assertion, OnOk, OnOk-bind, All, arith,
}
use kaycc.Connector
use kaycc.Connector.{Connector, Errno, connected, start_in_loop}
use kaycc.Connector.Runs.{Event, act}
use kaycc.TcpClient.Handed.{Kept, channel_fd, Grown, start-Kept, act-Grown, is_internal}
use kaycc.TcpClient.{
  Connection, TcpClient, construct, connect_client, disconnect, stop, new_connection, increment,
  new_connections, remove_connection, connector_event, same_connection,
}
use kaycc.TcpClient.Connections.{
  descriptors, Inv, Act, enables_retry, disconnects, stops_client, connects, happens, closes,
  client_act, acts, acts-Inv, construct-Inv,
}

-- Anything but a call of `enableRetry`.
abbrev pub NoRetry : Act → Type 0
NoRetry enables_retry = ⊥
NoRetry _ = Unit

length-descriptors : (cs : List Connection) → length (descriptors cs) ≡ length cs
unfolding descriptors
length-descriptors [] = refl
length-descriptors (c ∷ cs) = ap suc (length-descriptors cs)

-- The connector has handed nothing on, or one descriptor and has stayed in `kConnected` since.
abbrev Spent : Connector → Type 0
Spent c = (length c.handed ≡ 0) ⊎ ((c.state ≡ connected) × (length c.handed ≡ 1))

abbrev Once : TcpClient → Type 0
Once s = (s.retry ≡ false) × Spent s.connector

Kept-Spent : (c d : Connector) → Kept c d → Spent c → Spent d
Kept-Spent c d k (inl z) = inl (ap length k.0 ∙ z)
Kept-Spent c d (h, inl ne) (inr u) = absurd (ne u.0)
Kept-Spent c d (h, inr up) (inr u) = inr (up, ap length h ∙ u.1)

Grown-Spent : (c d : Connector) → Grown c d → Spent c → Spent d
Grown-Spent c d (inl k) u = Kept-Spent c d k u
Grown-Spent c d (inr g) (inl z) =
    let fd = channel_fd c.channel in
    inr (g.1, ap length g.0 ∙ omega (arith, z, length-append c.handed (fd ∷ [])))
Grown-Spent c d (inr g) (inr u) = absurd (g.2 u.0)

connect_client-Once :
    (in_loop : Bool) (sockfd : ℕ) (errno : Errno) (s : TcpClient)
    → Once s
    → OnOk (connect_client in_loop sockfd errno s) Once
unfolding connect_client
connect_client-Once in_loop sockfd errno s o =
    OnOk-bind (Kept s.connector) Once (Connector.start in_loop sockfd errno s.connector) _
      (start-Kept in_loop sockfd errno s.connector) (λ d k. (o.0, Kept-Spent s.connector d k o.1))

new_connection-Once :
    (peer : List ℕ) (fd : ℕ) (s : TcpClient) → Once s → OnOk (new_connection peer fd s) Once
unfolding new_connection increment
new_connection-Once peer fd s o = elim (Bool-cases (ltb (s.next_conn_id + 1) (2 ^ 31))) [
  | inl room ↦ rw room o
  | inr no' ↦ rw no' tt
]

new_connections-Once :
    (peer : List ℕ) (fds : List ℕ) (s : TcpClient) → Once s → OnOk (new_connections peer fds s) Once
unfolding new_connections
new_connections-Once peer [] s o = o
new_connections-Once peer (fd ∷ fds) s o =
    OnOk-bind Once Once (new_connection peer fd s) _ (new_connection-Once peer fd s o)
      (λ t w. new_connections-Once peer fds t w)

connector_event-Once :
    (e : Event) (peer : List ℕ) (s : TcpClient)
    → is_internal e ≡ true
    → Once s
    → OnOk (connector_event e peer s) Once
unfolding connector_event
connector_event-Once e peer s h o =
    OnOk-bind (Grown s.connector) Once (act e s.connector) _ (act-Grown e s.connector h) (λ d g.
      new_connections-Once peer _ (record s { connector = d })
        (o.0, Grown-Spent s.connector d g o.1))

remove_connection-Once :
    (conn : Connection) (sockfd : ℕ) (errno : Errno) (s : TcpClient)
    → Once s
    → OnOk (remove_connection conn sockfd errno s) Once
unfolding remove_connection
remove_connection-Once conn sockfd errno s o =
    elim (Bool-cases (same_connection conn s.connection)) [
      | inr no' ↦ rw no' tt
      | inl same ↦ rw same (rw o.0 (refl, o.1))
    ]

client_act-Once : (a : Act) (s : TcpClient) → NoRetry a → Once s → OnOk (client_act a s) Once
unfolding client_act disconnect stop Connector.stop
client_act-Once enables_retry s n o = absurd n
client_act-Once disconnects s n o = o
client_act-Once stops_client s n o = o
client_act-Once (connects in_loop sockfd errno) s n o = connect_client-Once in_loop sockfd errno s o
client_act-Once (happens e h peer) s n o = connector_event-Once e peer s h o
client_act-Once (closes conn sockfd errno) s n o = remove_connection-Once conn sockfd errno s o

acts-Once : (as' : List Act) (s : TcpClient) → All NoRetry as' → Once s → OnOk (acts as' s) Once
unfolding acts
acts-Once [] s n o = o
acts-Once (a ∷ as') s n o =
    OnOk-bind Once Once (client_act a s) (acts as') (client_act-Once a s n.0 o)
      (λ t w. acts-Once as' t n.1 w)

construct-Once : (name : List ℕ) → Once (construct name)
unfolding construct Connector.construct
construct-Once name = (refl, inl refl)

start-asserts :
    (sockfd : ℕ) (errno : Errno) (s : TcpClient)
    → s.connector.state ≡ connected
    → connect_client true sockfd errno s ≡ err assertion
unfolding connect_client Connector.start start_in_loop
start-asserts sockfd errno s up = simp up

spent_up :
    (s : TcpClient)
    → Inv s
    → Once s
    → 0 < length s.established
    → (s.connector.state ≡ connected) × (length s.established ≡ 1)
spent_up s v o some' =
    let same = sym (length-descriptors s.established) ∙ ap length v.handed in
    elim o.1 [ inl z ↦ absurd (omega (arith, same, z, some')) | inr u ↦ (u.0, same ∙ u.1) ]

-- A new client on which `enableRetry` is not called has one connection in its life: after any sequence
-- of calls of the user, events of the connector and closings of connections that does not end in a
-- failed assertion, and by which a connection was set up, it is the only one; and any call of
-- `connect()` in the client's loop, also when the connection is long closed, fails the assertion of
-- `startInLoop`, since the connector is still in `kConnected`.
pub connects_once :
    (name : List ℕ) (as' : List Act) (s : TcpClient)
    → All NoRetry as'
    → acts as' (construct name) ≡ ok s
    → 0 < length s.established
    → (sockfd : ℕ) (errno : Errno)
    → (length s.established ≡ 1) × (connect_client true sockfd errno s ≡ err assertion)
connects_once name as' s n e some' sockfd errno =
    let v = subst (λ m. OnOk m Inv) e (acts-Inv as' (construct name) (construct-Inv name)) in
    let o = subst (λ m. OnOk m Once) e (acts-Once as' (construct name) n (construct-Once name)) in
    let (up, one) = spent_up s v o some' in (one, start-asserts sockfd errno s up)
