-- ===== src/TcpServer/Sessions.antt =====
-- net/tcpserver.cpp, net/tcpconnection.cpp: one connection of a server, from `newConnection` to the end of its
-- life, while the server goes on with others.
pub mod Whole
pub mod Safe
mod Tests
use kaycc.Prelude.{
  ℕ, ◌+◌, ◌^◌, ◌≤◌, ◌<◌, ◌≡◌, ◌≢◌, ◌⊎◌, refl, sym, subst, ap, ap₂, ◌∙◌, Bool, true, false, Option,
  none, some, List, [], ◌∷◌, ◌++◌, length, ltb, if◌then◌else◌, Checked, ok, err, assert, ◌>>=◌,
  ◌>>◌, Returns, OnOk, OnOk-any, not, Bool-cases, inl, inr, arith,
}
use kaycc.Prelude.Texts.{same_bytes, same_bytes_iff}
use kaycc.Channel
use kaycc.Channel.{Channel, is_none_event, detach, apply_interest}
use kaycc.TcpConnection.{
  TcpConnection, connecting, connected, disconnecting, disconnected, connect_established,
  handle_close, connect_destroyed,
}
use kaycc.TcpConnection.Access.{destruct}
use kaycc.EventLoopThreadPool
use kaycc.EventLoopThreadPool.{get_next_loop}
use kaycc.TcpServer.{
  Connection, ConnectionMap, find, erase, TcpServer, start, conn_name, increment, new_connection,
  remove_connection_in_loop,
}
use kaycc.TcpServer.Connections.{
  Event, starts, connects, removes, act, count, Inv, find-insert, find-erase, act-Inv, count-append,
}

-- The object is made, established, closed by the peer or by force, taken out of the map, or destructed.
pub data Stage : Type 0 where
  made up closing leaving gone : Stage

pub record Session : Type 0 where
  pub server : TcpServer
  pub tcp : TcpConnection
  pub stage : Stage
  -- The descriptors that were closed.
  pub closed : List ℕ

-- `connectDestroyed` and the destructor, when the last functor goes. `remove` has taken the channel out of
-- the poller then, so that `hasChannel` answers false.
unfoldable pub destroy : TcpConnection → Checked (TcpConnection × List ℕ)
destroy c = do d ← connect_destroyed c; fds ← destruct false d; ok (d, fds)

-- A connection that is up, outside of its channel's callbacks, on this descriptor.
pub record Up (fd : ℕ) (c : TcpConnection) : Type 0 where
  pub state_eq : (c.state ≡ connected) ⊎ (c.state ≡ disconnecting)
  pub quiet : c.channel.event_handling ≡ false
  pub fd_eq : c.channel.fd ≡ fd

-- An event of the server that is another connection's.
abbrev pub Other : Connection → Event → Type 0
Other conn (starts loops) = Unit
Other conn (connects sockfd) = Unit
Other conn (removes c) = same_bytes c.name conn.name ≡ false

module _ (conn : Connection) where
  pub data Step (s : Session) : Session → Type 0 where
    server_acts :
        (e : Event) (t : TcpServer)
        → Other conn e
        → act e s.server ≡ ok t
        → Step s (record s { server = t })
    establishes :
        (c : TcpConnection)
        → s.stage ≡ made
        → connect_established s.tcp ≡ ok c
        → Step s (record s { tcp = c; stage = up })
    -- Whatever its operations make of it, as long as it stays up.
    works : (c : TcpConnection) → s.stage ≡ up → Up conn.sockfd c → Step s (record s { tcp = c })
    -- `handleClose`, whose callback hands the connection to the server's loop.
    closes :
        (c : TcpConnection)
        → s.stage ≡ up
        → handle_close s.tcp ≡ ok c
        → Step s (record s { tcp = c; stage = closing })
    takes_out :
        (t : TcpServer)
        → s.stage ≡ closing
        → remove_connection_in_loop conn s.server ≡ ok t
        → Step s (record s { server = t; stage = leaving })
    goes :
        (r : TcpConnection × List ℕ)
        → s.stage ≡ leaving
        → destroy s.tcp ≡ ok r
        → Step s (record s { tcp = r.0; stage = gone; closed = s.closed ++ r.1 })

  pub data Reach (s : Session) : Session → Type 0 where
    here : Reach s s
    next : {t u : Session} → Reach s t → Step t u → Reach s u

  -- The connection itself, at each stage.
  abbrev pub Fits : Stage → TcpConnection → Type 0
  Fits made c =
      (c.state ≡ connecting) × (c.channel.event_handling ≡ false) × (c.channel.fd ≡ conn.sockfd)
  Fits up c = Up conn.sockfd c
  Fits closing c =
      (c.state ≡ disconnected)
      × (c.channel.event_handling ≡ false)
      × (c.channel.fd ≡ conn.sockfd)
      × (is_none_event c.channel.events ≡ true)
  Fits leaving c =
      (c.state ≡ disconnected)
      × (c.channel.event_handling ≡ false)
      × (c.channel.fd ≡ conn.sockfd)
      × (is_none_event c.channel.events ≡ true)
  Fits gone c = c.state ≡ disconnected

  -- Whether the server still has it, and what has been closed.
  abbrev pub entry : Stage → Option Connection
  entry made = some conn
  entry up = some conn
  entry closing = some conn
  entry leaving = none
  entry gone = none

  abbrev pub closed_at : Stage → List ℕ
  closed_at made = []
  closed_at up = []
  closed_at closing = []
  closed_at leaving = []
  closed_at gone = conn.sockfd ∷ []

  -- The next operation on the connection returns.
  abbrev pub GoesOn : Session → Stage → Type 0
  GoesOn s made = Returns (connect_established s.tcp) (Up conn.sockfd)
  GoesOn s up = Returns (handle_close s.tcp) (Fits closing)
  GoesOn s closing =
      Returns (remove_connection_in_loop conn s.server) (λ t. find conn.name t.connections ≡ none)
  GoesOn s leaving =
      Returns (destroy s.tcp) (λ r. (r.0.state ≡ disconnected) × (r.1 ≡ conn.sockfd ∷ []))
  GoesOn s gone = Unit

  pub goes_on :
      (s : Session) (g : Stage)
      → Fits g s.tcp
      → find conn.name s.server.connections ≡ entry g
      → GoesOn s g
  unfolding connect_established handle_close remove_connection_in_loop destroy connect_destroyed
      destruct Channel.destruct detach apply_interest Channel.tie
  goes_on s made (h, q, f) e = simp h (record { state_eq = inl refl; quiet = q; fd_eq = f })
  goes_on s up v e = elim v.state_eq [
    | inl h ↦ simp h (refl, v.quiet, v.fd_eq, refl)
    | inr h ↦ simp h (refl, v.quiet, v.fd_eq, refl)
  ]
  goes_on s closing v e = rw e (
      find-erase conn.name conn.name s.server.connections
      ∙ ap (λ b. if b then none else find conn.name s.server.connections)
          ((same_bytes_iff conn.name conn.name).1 refl))
  goes_on s leaving (h, q, f, n) e = simp (h, q, n) (refl, ap (λ n. n ∷ []) f)
  goes_on s gone v e = tt
