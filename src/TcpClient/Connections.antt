-- ===== src/TcpClient/Connections.antt =====
-- net/tcpclient.cpp: the connections of a client, one after the other.
use kaycc.Prelude.{
  ℕ, ◌+◌, ◌≡◌, ◌≢◌, ◌⊎◌, inl, inr, refl, sym, ap, ◌∙◌, subst, Bool, true, ◌&&◌, ◌==◌, Option, none,
  some, List, [], ◌∷◌, ◌++◌, append-nil, length, length-append, drop, drop_all, drop-append_eq,
  Checked, ok, ltb, ltb→lt, ◌<◌, ◌^◌, ◌>>=◌, OnOk, OnOk-bind, arith, Bool-cases,
}
use kaycc.Prelude.Texts.{same_bytes, same_bytes_iff}
use kaycc.Connector
use kaycc.Connector.{
  Connector, Errno, State, disconnected, connecting, connected, start_in_loop, connect, classify,
  start_connecting, retry, close, queue, stop_in_loop, run_first, Task, start_task, stop_task,
  reset_task, proceed, try_later, give_up, Outcome, settle, remove_and_reset_channel, reset_channel,
  handle_write, handle_error, timer_fires,
}
use kaycc.Connector.Runs.{Event, act}
use kaycc.TcpClient.Handed.{
  Kept, channel_fd, Grown, start-Kept, is_internal, act-Grown, restart-handed,
}
use kaycc.TcpClient.{
  Connection, TcpClient, construct, enable_retry, connect_client, disconnect, stop, conn_name,
  increment, new_connection, new_connections, remove_connection, connector_event, to_list,
  same_connection,
}

unfoldable pub descriptors : List Connection → List ℕ
descriptors [] = []
descriptors (c ∷ cs) = c.sockfd ∷ descriptors cs

descriptors-append :
    (cs : List Connection) (c : Connection)
    → descriptors (cs ++ c ∷ []) ≡ descriptors cs ++ c.sockfd ∷ []
unfolding descriptors
descriptors-append [] c = refl
descriptors-append (d ∷ cs) c = ap (◌∷◌ d.sockfd) (descriptors-append cs c)

-- The connections are those of the descriptors that the connector has handed on, in order; all but
-- the last are gone, and the connector is in `kConnected` while there is one.
pub record Inv (s : TcpClient) : Type 0 where
  pub handed : descriptors s.established ≡ s.connector.handed
  pub one : s.established ≡ s.destroyed ++ to_list s.connection
  pub busy : (s.connection ≡ none) ⊎ (s.connector.state ≡ connected)
  pub numbered : s.next_conn_id ≡ length s.established + 1
  pub in_range : s.next_conn_id < 2 ^ 31

none_live : (s : TcpClient) → Inv s → s.connector.state ≢ connected → s.connection ≡ none
none_live s v ne = elim v.busy [ inl e ↦ e | inr e ↦ absurd (ne e) ]

-- With no connection, those that are gone are all.
all_gone : (s : TcpClient) → Inv s → s.connection ≡ none → s.established ≡ s.destroyed
all_gone s v e = v.one ∙ ap (λ o. s.destroyed ++ to_list o) e ∙ append-nil s.destroyed

new_connection-Inv :
    (peer : List ℕ) (fd : ℕ) (s : TcpClient) (d : Connector)
    → Inv s
    → s.connection ≡ none
    → d.handed ≡ s.connector.handed ++ fd ∷ []
    → d.state ≡ connected
    → OnOk (new_connection peer fd (record s { connector = d })) Inv
unfolding new_connection increment
new_connection-Inv peer fd s d v live h up =
    let conn : Connection = record {
      name = conn_name s.name peer s.next_conn_id;
      number = s.next_conn_id;
      sockfd = fd;
    } in
    elim (Bool-cases (ltb (s.next_conn_id + 1) (2 ^ 31))) [
      | inr no' ↦ rw no' tt
      | inl room ↦ rw room (record {
        handed = descriptors-append s.established conn ∙ ap (λ l. l ++ fd ∷ []) v.handed ∙ sym h;
        one = ap (λ l. l ++ conn ∷ []) (all_gone s v live);
        busy = inr up;
        numbered = omega (arith, v.numbered, length-append s.established (conn ∷ []));
        in_range = ltb→lt (s.next_conn_id + 1) (2 ^ 31) room;
      })
    ]

connected-Inv :
    (peer : List ℕ) (s : TcpClient) (d : Connector)
    → Inv s
    → Grown s.connector d
    → OnOk
        (new_connections peer
          (drop (length s.connector.handed) d.handed)
          (record s { connector = d }))
        Inv
unfolding new_connections
connected-Inv peer s d v (inl k) =
    let e : drop (length s.connector.handed) d.handed ≡ [] =
      ap (drop (length s.connector.handed)) k.0
      ∙ drop_all (length s.connector.handed) s.connector.handed (omega arith) in
    rw e (record {
      handed = v.handed ∙ sym k.0;
      one = v.one;
      busy = ground (arith, v.busy);
      numbered = v.numbered;
      in_range = v.in_range;
    })
connected-Inv peer s d v (inr g) =
    let fd = channel_fd s.connector.channel in
    let e : drop (length s.connector.handed) d.handed ≡ fd ∷ [] =
      ap (drop (length s.connector.handed)) g.0
      ∙ drop-append_eq (length s.connector.handed) s.connector.handed (fd ∷ []) refl in
    rw e (
      OnOk-bind Inv Inv (new_connection peer fd (record s { connector = d })) _
        (new_connection-Inv peer fd s d v (none_live s v g.2) g.0 g.1) (λ t w. w))

-- A call of the client's user, an event of its connector, or the close callback of its connection.
pub data Act : Type 0 where
  enables_retry disconnects stops_client : Act
  connects : Bool → ℕ → Errno → Act
  happens : (e : Event) → is_internal e ≡ true → List ℕ → Act
  closes : Connection → ℕ → Errno → Act

unfoldable pub client_act : Act → TcpClient → Checked TcpClient
client_act enables_retry s = ok (enable_retry s)
client_act disconnects s = ok (disconnect s)
client_act stops_client s = ok (stop s)
client_act (connects in_loop sockfd errno) s = connect_client in_loop sockfd errno s
client_act (happens e h peer) s = connector_event e peer s
client_act (closes conn sockfd errno) s = remove_connection conn sockfd errno s

unfoldable pub acts : List Act → TcpClient → Checked TcpClient
acts [] s = ok s
acts (a ∷ as') s = do t ← client_act a s; acts as' t

connect_client-Inv :
    (in_loop : Bool) (sockfd : ℕ) (errno : Errno) (s : TcpClient)
    → Inv s
    → OnOk (connect_client in_loop sockfd errno s) Inv
unfolding connect_client
connect_client-Inv in_loop sockfd errno s v =
    OnOk-bind (Kept s.connector) Inv (Connector.start in_loop sockfd errno s.connector) _
      (start-Kept in_loop sockfd errno s.connector)
      (λ d k. record {
        handed = v.handed ∙ sym k.0;
        one = v.one;
        busy = ground (arith, v.busy);
        numbered = v.numbered;
        in_range = v.in_range;
      })

connector_event-Inv :
    (e : Event) (peer : List ℕ) (s : TcpClient)
    → is_internal e ≡ true
    → Inv s
    → OnOk (connector_event e peer s) Inv
unfolding connector_event
connector_event-Inv e peer s h v =
    OnOk-bind (Grown s.connector) Inv (act e s.connector) _ (act-Grown e s.connector h)
      (λ d g. connected-Inv peer s d v g)

both : (a b : Bool) → (a && b) ≡ true → (a ≡ true) × (b ≡ true)
both a b h = ground arith

same_number : (a b c d : ℕ) → (a == b && c == d) ≡ true → (a ≡ b) × (c ≡ d)
same_number a b c d h = ground arith

same_connection-eq :
    (conn : Connection) (o : Option Connection)
    → same_connection conn o ≡ true
    → to_list o ≡ conn ∷ []
same_connection-eq conn none h = cc
same_connection-eq conn (some c) h =
    let (named, rest) = both (same_bytes conn.name c.name) _ h in
    let (n, fd) = same_number conn.number c.number conn.sockfd c.sockfd rest in
    let e : conn ≡ c = λ i. record {
      name = (same_bytes_iff conn.name c.name).0 named i;
      number = n i;
      sockfd = fd i;
    } in
    ap (λ x. x ∷ []) (sym e)

closed-Inv :
    (conn : Connection) (s : TcpClient) (d : Connector)
    → Inv s
    → same_connection conn s.connection ≡ true
    → d.handed ≡ s.connector.handed
    → Inv (record s { connector = d; connection = none; destroyed = s.destroyed ++ conn ∷ [] })
closed-Inv conn s d v same h = record {
  handed = v.handed ∙ sym h;
  one =
      v.one
      ∙ ap (λ l. s.destroyed ++ l) (same_connection-eq conn s.connection same)
      ∙ sym (append-nil (s.destroyed ++ conn ∷ []));
  busy = inl refl;
  numbered = v.numbered;
  in_range = v.in_range;
}

remove_connection-Inv :
    (conn : Connection) (sockfd : ℕ) (errno : Errno) (s : TcpClient)
    → Inv s
    → OnOk (remove_connection conn sockfd errno s) Inv
unfolding remove_connection
remove_connection-Inv conn sockfd errno s v =
    elim (Bool-cases (same_connection conn s.connection)) [
      | inr no' ↦ rw no' tt
      | inl same ↦ rw same (elim (Bool-cases (s.retry && s.connect)) [
        | inr no' ↦ rw no' (closed-Inv conn s s.connector v same refl)
        | inl again ↦ rw again (
            OnOk-bind (λ d. d.handed ≡ s.connector.handed) Inv
              (Connector.restart sockfd errno s.connector) _
              (restart-handed sockfd errno s.connector) (λ d h. closed-Inv conn s d v same h))
      ])
    ]

client_act-Inv : (a : Act) (s : TcpClient) → Inv s → OnOk (client_act a s) Inv
unfolding client_act enable_retry disconnect stop Connector.stop
client_act-Inv enables_retry s v = record {
  handed = v.handed;
  one = v.one;
  busy = v.busy;
  numbered = v.numbered;
  in_range = v.in_range;
}
client_act-Inv disconnects s v = record {
  handed = v.handed;
  one = v.one;
  busy = v.busy;
  numbered = v.numbered;
  in_range = v.in_range;
}
client_act-Inv stops_client s v = record {
  handed = v.handed;
  one = v.one;
  busy = v.busy;
  numbered = v.numbered;
  in_range = v.in_range;
}
client_act-Inv (connects in_loop sockfd errno) s v = connect_client-Inv in_loop sockfd errno s v
client_act-Inv (happens e h peer) s v = connector_event-Inv e peer s h v
client_act-Inv (closes conn sockfd errno) s v = remove_connection-Inv conn sockfd errno s v

pub acts-Inv : (as' : List Act) (s : TcpClient) → Inv s → OnOk (acts as' s) Inv
unfolding acts
acts-Inv [] s v = v
acts-Inv (a ∷ as') s v =
    OnOk-bind Inv Inv (client_act a s) (acts as') (client_act-Inv a s v) (λ t w. acts-Inv as' t w)

pub construct-Inv : (name : List ℕ) → Inv (construct name)
unfolding construct Connector.construct descriptors
construct-Inv name = record {
  handed = refl;
  one = refl;
  busy = inl refl;
  numbered = refl;
  in_range = omega arith;
}

-- Over any sequence of calls of the user, events of the connector and closings of connections on a new
-- client that ends neither in a failed assertion nor in an overflow of `nextConnId_`: the connections
-- that were set up are those of the descriptors that the connector handed on, in the same order; each
-- but the last has been handed to `connectDestroyed`, once and in the same order, and the last has too
-- or is the client's connection; while there is one the connector stays in `kConnected`; and
-- `nextConnId_` is above their count by one, and below 2^31.
pub client_connections :
    (name : List ℕ) (as' : List Act) (s : TcpClient)
    → acts as' (construct name) ≡ ok s
    → (descriptors s.established ≡ s.connector.handed)
      × (s.established ≡ s.destroyed ++ to_list s.connection)
      × ((s.connection ≡ none) ⊎ (s.connector.state ≡ connected))
      × (s.next_conn_id ≡ length s.established + 1)
      × (s.next_conn_id < 2 ^ 31)
client_connections name as' s e =
    let v = subst (λ m. OnOk m Inv) e (acts-Inv as' (construct name) (construct-Inv name)) in
    (v.handed, v.one, v.busy, v.numbered, v.in_range)
