-- ===== src/TcpServer/Sessions/Whole.antt =====
-- net/tcpserver.cpp, net/tcpconnection.cpp: the invariant of one connection and its server.
use kaycc.Prelude.{
  ℕ, ◌+◌, ◌^◌, ◌≤◌, ◌≡◌, refl, sym, subst, ap, ap₂, ◌∙◌, Bool, true, false, none, some, List, ◌++◌,
  length, ltb, if◌then◌else◌, Checked, ok, assert, Returns, OnOk, OnOk-any, not, Bool-cases, inl,
  inr, arith,
}
use kaycc.Prelude.Texts.{same_bytes, same_bytes_iff}
use kaycc.Channel
use kaycc.Channel.{Channel, is_none_event, detach, apply_interest}
use kaycc.Buffer
use kaycc.Buffer.{initial_size}
use kaycc.TcpConnection
use kaycc.TcpConnection.{
  TcpConnection, connecting, connected, disconnecting, disconnected, connect_established,
  handle_close, connect_destroyed,
}
use kaycc.EventLoopThreadPool
use kaycc.EventLoopThreadPool.{get_next_loop}
use kaycc.TcpServer.{
  Connection, find, TcpServer, start, conn_name, increment, new_connection,
  remove_connection_in_loop,
}
use kaycc.TcpServer.Sessions.{
  Session, Stage, made, up, closing, leaving, destroy, Up, Other, Step, server_acts, establishes,
  works, closes, takes_out, goes, Reach, here, next, Fits, entry, closed_at, GoesOn, goes_on,
}
use kaycc.TcpServer.Connections.{
  Event, starts, connects, removes, act, count, Inv, find-insert, find-erase, act-Inv, count-append,
}

-- What a call that has returned has returned.
pub returned : {A : Type 0} (P : A → Type 0) (r : Checked A) (a : A) → r ≡ ok a → OnOk r P → P a
returned P r a e h = subst (λ m. OnOk m P) e h

other_name :
    (n m : List ℕ) (l : List Connection) → count n l ≡ 0 → count m l ≡ 1 → same_bytes n m ≡ false
other_name n m l zero_n one_m = elim (Bool-cases (same_bytes n m)) [
  | inl y ↦ let e = ap (λ k. count k l) ((same_bytes_iff n m).0 y) in absurd (omega (arith, e))
  | inr d ↦ d
]

module _ (conn : Connection) where
  module _ (name ip_port : List ℕ) (short : length ip_port ≤ 51) where
    -- Other events of the server leave the entry of the connection, and make none with its name.
    abbrev Keeps : TcpServer → TcpServer → Type 0
    Keeps s t =
        (find conn.name t.connections ≡ find conn.name s.connections)
        × (count conn.name t.established ≡ 1)

    connects-Keeps :
        (sockfd : ℕ) (s : TcpServer)
        → Inv name ip_port s
        → count conn.name s.established ≡ 1
        → OnOk (new_connection sockfd s) (Keeps s)
    unfolding new_connection increment
    connects-Keeps sockfd s v one = OnOk-any (Keeps s) (get_next_loop s.thread_pool) _ (λ r.
        elim (Bool-cases (ltb (s.next_conn_id + 1) (2 ^ 31))) [
          | inr full ↦ rw full tt
          | inl room ↦
              let c : Connection = record {
                name = conn_name s.name s.ip_port s.next_conn_id;
                loop = r.0;
                sockfd = sockfd;
              } in
              let unused : count c.name s.established ≡ 0 =
                ap₂ (λ a b. count (conn_name a b s.next_conn_id) s.established) v.name_eq
                  v.ip_port_eq
                ∙ v.fresh s.next_conn_id (omega arith) v.below in
              let differs = other_name c.name conn.name s.established unused one in
              rw room (
                find-insert c.name conn.name c s.connections
                    ∙ ap (λ b. if b then some c else find conn.name s.connections) differs,
                count-append conn.name s.established c
                    ∙ ap (λ b. count conn.name s.established + (if b then 1 else 0)) differs
                    ∙ omega (arith, one),
              )
        ])

    Other-Keeps :
        (e : Event) (s : TcpServer)
        → Inv name ip_port s
        → Other conn e
        → count conn.name s.established ≡ 1
        → OnOk (act e s) (Keeps s)
    unfolding act start remove_connection_in_loop
    Other-Keeps (starts loops) s v o one = elim (Bool-cases s.started) [
      | inl e ↦ simp e (refl, one)
      | inr e ↦ rw e (
          OnOk-any (Keeps s) (EventLoopThreadPool.start loops s.thread_pool) _
            (λ pool. OnOk-any (Keeps s) (assert (not s.listening)) _ (λ u. (refl, one))))
    ]
    Other-Keeps (connects sockfd) s v o one = connects-Keeps sockfd s v one
    Other-Keeps (removes c) s v o one =
        OnOk-any (Keeps s)
          (assert (elim (find c.name s.connections) [ none ↦ false | some d ↦ true ])) _
          (λ u. (
            find-erase c.name conn.name s.connections
                ∙ ap (λ b. if b then none else find conn.name s.connections) o,
            one,
          ))

    -- What holds of the connection at each stage.
    pub record Alive (s : Session) : Type 0 where
      pub server_inv : Inv name ip_port s.server
      pub fits : Fits conn s.stage s.tcp
      pub entry_eq : find conn.name s.server.connections ≡ entry conn s.stage
      pub counted : count conn.name s.server.established ≡ 1
      pub closed_eq : s.closed ≡ closed_at conn s.stage

    answered : {A : Type 0} (P : A → Type 0) (r : Checked A) (a : A) → r ≡ ok a → Returns r P → P a
    answered P r a e h = subst (λ m. Returns m P) e h

    removal-Counted :
        (s : TcpServer)
        → OnOk
            (remove_connection_in_loop conn s)
            (λ t. count conn.name t.established ≡ count conn.name s.established)
    unfolding remove_connection_in_loop
    removal-Counted s =
        OnOk-any _ (assert (elim (find conn.name s.connections) [ none ↦ false | some d ↦ true ])) _
          (λ u. refl)

    act_removes : (s : TcpServer) → act (removes conn) s ≡ remove_connection_in_loop conn s
    unfolding act
    act_removes s = refl

    at_stage : (s : Session) (g : Stage) → s.stage ≡ g → Alive s → GoesOn conn s g
    at_stage s g e v =
        goes_on conn s g (subst (λ h. Fits conn h s.tcp) e v.fits) (v.entry_eq ∙ ap (entry conn) e)

    Step-Alive : {s t : Session} → Step conn s t → Alive s → Alive t
    Step-Alive {s} (server_acts e t o r) v =
        let (same, one) =
          returned (Keeps s.server) (act e s.server) t r
            (Other-Keeps e s.server v.server_inv o v.counted) in
        record {
          server_inv =
              returned (Inv name ip_port) (act e s.server) t r
                (act-Inv name ip_port short e s.server v.server_inv);
          fits = v.fits;
          entry_eq = same ∙ v.entry_eq;
          counted = one;
          closed_eq = v.closed_eq;
        }
    Step-Alive {s} (establishes c e r) v = record {
      server_inv = v.server_inv;
      fits = answered (Up conn.sockfd) (connect_established s.tcp) c r (at_stage s made e v);
      entry_eq = v.entry_eq ∙ ap (entry conn) e;
      counted = v.counted;
      closed_eq = v.closed_eq ∙ ap (closed_at conn) e;
    }
    Step-Alive {s} (works c e u) v = record {
      server_inv = v.server_inv;
      fits = subst (λ g. Fits conn g c) (sym e) u;
      entry_eq = v.entry_eq;
      counted = v.counted;
      closed_eq = v.closed_eq;
    }
    Step-Alive {s} (closes c e r) v = record {
      server_inv = v.server_inv;
      fits = answered (Fits conn closing) (handle_close s.tcp) c r (at_stage s up e v);
      entry_eq = v.entry_eq ∙ ap (entry conn) e;
      counted = v.counted;
      closed_eq = v.closed_eq ∙ ap (closed_at conn) e;
    }
    Step-Alive {s} (takes_out t e r) v = record {
      server_inv =
          returned (Inv name ip_port) (act (removes conn) s.server) t (act_removes s.server ∙ r)
            (act-Inv name ip_port short (removes conn) s.server v.server_inv);
      fits = subst (λ g. Fits conn g s.tcp) e v.fits;
      entry_eq = answered _ (remove_connection_in_loop conn s.server) t r (at_stage s closing e v);
      counted =
          returned _ (remove_connection_in_loop conn s.server) t r (removal-Counted s.server)
          ∙ v.counted;
      closed_eq = v.closed_eq ∙ ap (closed_at conn) e;
    }
    Step-Alive {s} (goes r e q) v =
        let (down, fds) = answered _ (destroy s.tcp) r q (at_stage s leaving e v) in
        record {
          server_inv = v.server_inv;
          fits = down;
          entry_eq = v.entry_eq ∙ ap (entry conn) e;
          counted = v.counted;
          closed_eq = ap₂ (λ a b. a ++ b) (v.closed_eq ∙ ap (closed_at conn) e) fds;
        }

    pub Reach-Alive : {s t : Session} → Reach conn s t → Alive s → Alive t
    Reach-Alive here v = v
    Reach-Alive (next r x) v = Step-Alive x (Reach-Alive r v)

-- What `newConnection` leaves for the next number.
pub record Begun (name ip_port : List ℕ) (sockfd : ℕ) (s : TcpServer) (t : TcpServer) : Type 0 where
  pub made_conn : Connection
  pub name_is : made_conn.name ≡ conn_name name ip_port s.next_conn_id
  pub sockfd_is : made_conn.sockfd ≡ sockfd
  pub found : find made_conn.name t.connections ≡ some made_conn
  pub once_more : count made_conn.name t.established ≡ 1

module _ (name ip_port : List ℕ) where
  pub connects-Begun :
      (sockfd : ℕ) (s : TcpServer)
      → Inv name ip_port s
      → OnOk (new_connection sockfd s) (Begun name ip_port sockfd s)
  unfolding new_connection increment
  connects-Begun sockfd s v =
      OnOk-any (Begun name ip_port sockfd s) (get_next_loop s.thread_pool) _ (λ r.
        elim (Bool-cases (ltb (s.next_conn_id + 1) (2 ^ 31))) [
          | inr full ↦ rw full tt
          | inl room ↦
              let c : Connection = record {
                name = conn_name s.name s.ip_port s.next_conn_id;
                loop = r.0;
                sockfd = sockfd;
              } in
              let name_eq = ap₂ (λ a b. conn_name a b s.next_conn_id) v.name_eq v.ip_port_eq in
              let unused : count c.name s.established ≡ 0 =
                ap (λ n. count n s.established) name_eq
                ∙ v.fresh s.next_conn_id (omega arith) v.below in
              let self : same_bytes c.name c.name ≡ true = (same_bytes_iff c.name c.name).1 refl in
              rw room (record {
                made_conn = c;
                name_is = name_eq;
                sockfd_is = refl;
                found =
                    find-insert c.name c.name c s.connections
                    ∙ ap (λ b. if b then some c else find c.name s.connections) self;
                once_more =
                    count-append c.name s.established c
                    ∙ ap (λ b. count c.name s.established + (if b then 1 else 0)) self
                    ∙ omega (arith, unused);
              })
        ])

pub construct-Fits :
    (sockfd : ℕ) (write_complete high_water_mark : Bool)
    → OnOk
        (TcpConnection.construct sockfd write_complete high_water_mark)
        (λ c. (c.state ≡ connecting) × (c.channel.event_handling ≡ false) × (c.channel.fd ≡ sockfd))
unfolding TcpConnection.construct Channel.construct
construct-Fits sockfd write_complete high_water_mark =
    OnOk-any _ (Buffer.construct initial_size) _
      (λ i. OnOk-any _ (Buffer.construct initial_size) _ (λ o. (refl, refl, refl)))
