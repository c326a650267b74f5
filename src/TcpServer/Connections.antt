-- ===== src/TcpServer/Connections.antt =====
-- net/tcpserver.cpp: each connection is established once and destroyed once.
use kaycc.Prelude.{
  ℕ, ◌+◌, ◌^◌, ◌≤◌, ◌<◌, ◌≡◌, refl, Option, none, some, List, [], ◌∷◌, ◌++◌, length, ltb,
  if◌then◌else◌, Checked, ok, assert, not, ◌>>=◌, OnOk, OnOk-any, OnOk-bind, OnOk-map, Option-cases,
  Bool-cases, inl, inr, arith,
}
use kaycc.Prelude.Texts.{same_bytes, same_bytes_iff}
use kaycc.EventLoopThreadPool
use kaycc.EventLoopThreadPool.{get_next_loop}
use kaycc.TcpServer.{
  Connection, ConnectionMap, find, erase, insert, TcpServer, construct, start, conn_name, increment,
  new_connection, remove_connection_in_loop, destroy_all, destruct,
}
use kaycc.TcpServer.Names.{conn_name_inj}

pub find-erase :
    (name other : List ℕ) (m : ConnectionMap)
    → find other (erase name m) ≡ (if same_bytes name other then none else find other m)
unfolding find erase
find-erase name other [] = ground arith
find-erase name other ((k, c) ∷ rest) = ground (
  arith,
  find-erase name other rest,
  same_bytes_iff name other,
  same_bytes_iff k name,
  same_bytes_iff k other,
)

pub find-insert :
    (name other : List ℕ) (c : Connection) (m : ConnectionMap)
    → find other (insert name c m) ≡ (if same_bytes name other then some c else find other m)
unfolding find
find-insert name other c m = ground (arith, find-erase name other m)

-- How many connections of the list have this name.
pub count : List ℕ → List Connection → ℕ
count name [] = 0
count name (c ∷ cs) = (if same_bytes c.name name then 1 else 0) + count name cs

abbrev pub present : Option Connection → ℕ
present none = 0
present (some c) = 1

pub count-append :
    (name : List ℕ) (cs : List Connection) (c : Connection)
    → count name (cs ++ c ∷ []) ≡ count name cs + (if same_bytes c.name name then 1 else 0)
unfolding count
count-append name [] c = omega arith
count-append name (d ∷ cs) c = omega (arith, count-append name cs c)

-- How many connections that the map holds have this name.
pub held : List ℕ → ConnectionMap → ℕ
held name [] = 0
held name ((k, c) ∷ rest) = (if same_bytes c.name name then 1 else 0) + held name rest

-- Each connection of the map stands at its name.
abbrev pub Keyed : ConnectionMap → Type 0
Keyed [] = Unit
Keyed ((k, c) ∷ rest) = (k ≡ c.name) × Keyed rest

held-erase :
    (name other : List ℕ) (m : ConnectionMap)
    → Keyed m
    → held other (erase name m) ≡ (if same_bytes name other then 0 else held other m)
unfolding held erase
held-erase name other [] k = ground arith
held-erase name other ((k, c) ∷ rest) (e, h) = ground (
  arith,
  e,
  held-erase name other rest h,
  same_bytes_iff name other,
  same_bytes_iff k name,
  same_bytes_iff k other,
)

erase-Keyed : (name : List ℕ) (m : ConnectionMap) → Keyed m → Keyed (erase name m)
unfolding erase
erase-Keyed name [] k = tt
erase-Keyed name ((j, c) ∷ rest) (e, h) = elim (Bool-cases (same_bytes j name)) [
  | inl y ↦ rw y (erase-Keyed name rest h)
  | inr y ↦ rw y (e, erase-Keyed name rest h)
]

count-destroy_all :
    (name : List ℕ) (m : ConnectionMap) (done : List Connection)
    → count name (destroy_all m done) ≡ count name done + held name m
unfolding destroy_all held
count-destroy_all name [] done = omega arith
count-destroy_all name ((k, c) ∷ rest) done =
    omega (arith, count-destroy_all name rest (done ++ c ∷ []), count-append name done c)

-- The calls of `start`, `newConnection` and `removeConnectionInLoop`.
pub data Event : Type 0 where
  starts : List ℕ → Event
  connects : ℕ → Event
  removes : Connection → Event

unfoldable pub act : Event → TcpServer → Checked TcpServer
act (starts loops) s = start loops s
act (connects sockfd) s = new_connection sockfd s
act (removes conn) s = remove_connection_in_loop conn s

unfoldable pub acts : List Event → TcpServer → Checked TcpServer
acts [] s = ok s
acts (e ∷ es) s = act e s >>= λ t. acts es t

module _ (name ip_port : List ℕ) where
  -- A connection has been established at most once; those that were and have not been destroyed are
  -- in the map; and no name of a later number is in use.
  pub record Inv (s : TcpServer) : Type 0 where
    pub name_eq : s.name ≡ name
    pub ip_port_eq : s.ip_port ≡ ip_port
    pub keyed : Keyed s.connections
    pub single : (n : List ℕ) → held n s.connections ≡ present (find n s.connections)
    pub once : (n : List ℕ) → count n s.established ≤ 1
    pub accounts :
        (n : List ℕ) → count n s.established ≡ count n s.destroyed + present (find n s.connections)
    pub below : s.next_conn_id < 2 ^ 31
    pub fresh :
        (i : ℕ)
        → s.next_conn_id ≤ i
        → i < 2 ^ 31
        → count (conn_name name ip_port i) s.established ≡ 0

  module _ (fits : length ip_port ≤ 51) where
    new_connection-Inv : (sockfd : ℕ) (s : TcpServer) → Inv s → OnOk (new_connection sockfd s) Inv
    unfolding new_connection increment held
    new_connection-Inv sockfd s v = OnOk-any Inv (get_next_loop s.thread_pool) _ λ r.
        elim (Bool-cases (ltb (s.next_conn_id + 1) (2 ^ 31))) [
          | inr full ↦ rw full tt
          | inl room ↦
              rw (room, v.name_eq, v.ip_port_eq)
                (let c : Connection = record {
                  name = conn_name name ip_port s.next_conn_id;
                  loop = r.0;
                  sockfd = sockfd;
                } in
                  record {
                    name_eq = refl;
                    ip_port_eq = refl;
                    keyed = (refl, erase-Keyed c.name s.connections v.keyed);
                    single = λ n. ground (
                      arith,
                      v.single n,
                      held-erase c.name n s.connections v.keyed,
                      find-insert c.name n c s.connections,
                    );
                    once = λ n. ground (
                      arith,
                      v.once n,
                      count-append n s.established c,
                      v.fresh s.next_conn_id,
                      same_bytes_iff c.name n,
                    );
                    accounts = λ n. ground (
                      arith,
                      v.accounts n,
                      count-append n s.established c,
                      find-insert c.name n c s.connections,
                      v.fresh s.next_conn_id,
                      same_bytes_iff c.name n,
                    );
                    below = ground arith;
                    fresh = λ i h lt. ground (
                      arith,
                      v.fresh i,
                      v.below,
                      count-append (conn_name name ip_port i) s.established c,
                      same_bytes_iff c.name (conn_name name ip_port i),
                      conn_name_inj name ip_port s.next_conn_id i fits,
                    );
                  })
        ]

    remove_connection-Inv :
        (conn : Connection) (s : TcpServer) → Inv s → OnOk (remove_connection_in_loop conn s) Inv
    unfolding remove_connection_in_loop
    remove_connection-Inv conn s v = elim (Option-cases (find conn.name s.connections)) [
      | inl e ↦ rw e tt
      | inr (c, e) ↦ rw e (record {
        name_eq = v.name_eq;
        ip_port_eq = v.ip_port_eq;
        keyed = erase-Keyed conn.name s.connections v.keyed;
        single = λ n. ground (
          arith,
          v.single n,
          held-erase conn.name n s.connections v.keyed,
          find-erase conn.name n s.connections,
        );
        once = v.once;
        accounts = λ n. ground (
          arith,
          v.accounts n,
          count-append n s.destroyed conn,
          find-erase conn.name n s.connections,
          same_bytes_iff conn.name n,
        );
        below = v.below;
        fresh = v.fresh;
      })
    ]

    start-Inv : (loops : List ℕ) (s : TcpServer) → Inv s → OnOk (start loops s) Inv
    unfolding start
    start-Inv loops s v = elim (Bool-cases s.started) [
      | inl e ↦ simp e v
      | inr e ↦ rw e (
          OnOk-any Inv (EventLoopThreadPool.start loops s.thread_pool) _ (λ pool.
            OnOk-any Inv (assert (not s.listening)) _ (λ u. record {
              name_eq = v.name_eq;
              ip_port_eq = v.ip_port_eq;
              keyed = v.keyed;
              single = v.single;
              once = v.once;
              accounts = v.accounts;
              below = v.below;
              fresh = v.fresh;
            })))
    ]

    pub act-Inv : (e : Event) (s : TcpServer) → Inv s → OnOk (act e s) Inv
    unfolding act
    act-Inv (starts loops) s v = start-Inv loops s v
    act-Inv (connects sockfd) s v = new_connection-Inv sockfd s v
    act-Inv (removes conn) s v = remove_connection-Inv conn s v

    acts-Inv : (es : List Event) (s : TcpServer) → Inv s → OnOk (acts es s) Inv
    unfolding acts
    acts-Inv [] s v = v
    acts-Inv (e ∷ es) s v = OnOk-bind Inv Inv (act e s) (acts es) (act-Inv e s v) (acts-Inv es)

    construct-Inv : (loop : ℕ) → Inv (construct loop ip_port name)
    unfolding construct count find held
    construct-Inv loop = record {
      name_eq = refl;
      ip_port_eq = refl;
      keyed = tt;
      single = λ n. refl;
      once = λ n. omega arith;
      accounts = λ n. omega arith;
      below = omega arith;
      fresh = λ i h lt. refl;
    }

    -- For an address whose text has at most 51 bytes: in any sequence of calls of `start`,
    -- `newConnection` and `removeConnectionInLoop` on a new server that does not end in a failed assertion or the overflow
    -- of the number, each name is established at most once; a connection that was established has been
    -- handed to `connectDestroyed` once or is in the map, and not both; and no number is used again.
    pub acts_once : (es : List Event) (loop : ℕ) → OnOk (acts es (construct loop ip_port name)) Inv
    acts_once es loop = acts-Inv es (construct loop ip_port name) (construct-Inv loop)

    -- For such an address, after any such sequence of calls the destructor hands the connections that
    -- are left to `connectDestroyed`: then each connection that was ever established has been handed to
    -- it exactly as often as it was established, which is at most once.
    pub destruct_all :
        (es : List Event) (loop : ℕ)
        → OnOk (acts es (construct loop ip_port name)) (λ s.
          (n : List ℕ)
          → (count n (destruct s).destroyed ≡ count n s.established) × (count n s.established ≤ 1))
    unfolding destruct
    destruct_all es loop =
        OnOk-map Inv _ (acts es (construct loop ip_port name)) (acts_once es loop) (λ s v n. (
          omega (arith, count-destroy_all n s.connections s.destroyed, v.single n, v.accounts n),
          v.once n,
        ))
