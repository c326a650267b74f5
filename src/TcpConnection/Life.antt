-- ===== src/TcpConnection/Life.antt =====
-- net/tcpconnection.cpp: how a connection ends.
use kaycc.Prelude.{
  ℕ, ◌≡◌, refl, ◌⊎◌, inl, inr, true, false, List, [], ◌∷◌, ◌++◌, append_assoc, Checked, ok, err,
  assertion, ◌>>=◌, Returns, arith,
}
use kaycc.Channel
use kaycc.Channel.{Channel, Interest, apply_interest, detach, is_none_event, is_reading}
use kaycc.TcpConnection.{
  TcpConnection, disconnected, connected, disconnecting, handle_close, connect_destroyed,
  start_read_in_loop, Callback, connection_callback, close_callback,
}
use kaycc.TcpConnection.Access.{destruct}

-- The peer or the user closes the connection, its owner hands it to `connectDestroyed`, and it goes.
unfoldable pub closed_life : TcpConnection → Checked (TcpConnection × List ℕ)
closed_life c = do d ← handle_close c; e ← connect_destroyed d; fds ← destruct false e; ok (e, fds)

-- Or the owner goes first.
unfoldable pub owner_life : TcpConnection → Checked (TcpConnection × List ℕ)
owner_life c = do e ← connect_destroyed c; fds ← destruct false e; ok (e, fds)

-- The connection has gone: its descriptor is closed once, and these callbacks have run.
pub record Gone (told : List Callback) (c : TcpConnection) (r : TcpConnection × List ℕ)
    : Type 0 where
  pub down : r.0.state ≡ disconnected
  pub closed : r.1 ≡ c.channel.fd ∷ []
  pub ran_eq : r.0.ran ≡ c.ran ++ told
  pub detached : (is_none_event r.0.channel.events ≡ true) × (r.0.channel.added_to_loop ≡ false)

-- A connection that is connected or shuts down, outside of its channel's callbacks: handleClose,
-- connectDestroyed and the destructor return; the user's connection callback and the owner's close
-- callback have run, once each and in this order; the state is kDisconnected, the channel waits for
-- nothing and is off the loop, and the descriptor of the connection is closed, once.
pub closed_lem :
    (c : TcpConnection)
    → (c.state ≡ connected) ⊎ (c.state ≡ disconnecting)
    → c.channel.event_handling ≡ false
    → Returns (closed_life c) (Gone (connection_callback ∷ close_callback ∷ []) c)
unfolding closed_life handle_close connect_destroyed destruct Channel.destruct detach apply_interest
closed_lem c (inl h) e =
    simp (h, e)
      (record {
        down = refl;
        closed = refl;
        ran_eq = append_assoc c.ran (connection_callback ∷ []) (close_callback ∷ []);
        detached = (refl, refl);
      })
closed_lem c (inr h) e =
    simp (h, e)
      (record {
        down = refl;
        closed = refl;
        ran_eq = append_assoc c.ran (connection_callback ∷ []) (close_callback ∷ []);
        detached = (refl, refl);
      })

-- The same without handleClose, for a connection that is connected.
destroyed_lem :
    (c : TcpConnection)
    → c.state ≡ connected
    → c.channel.event_handling ≡ false
    → Returns (owner_life c) (Gone (connection_callback ∷ []) c)
unfolding owner_life connect_destroyed destruct Channel.destruct detach apply_interest
destroyed_lem c h e =
    simp (h, e) (record { down = refl; closed = refl; ran_eq = refl; detached = (refl, refl) })

-- Of a connection in kDisconnecting, which shuts down or is about to be closed by force, connectDestroyed
-- leaves the state and the interest of the channel: if its owner hands it to connectDestroyed and
-- lets it go, an assertion fails.
pub owner_life-asserts :
    (c : TcpConnection) → c.state ≡ disconnecting → owner_life c ≡ err assertion
unfolding owner_life connect_destroyed destruct detach
owner_life-asserts c h = ground (arith, h)

-- A channel that waits for input does not go off the loop.
read_again :
    (d : TcpConnection)
    → d.state ≡ disconnected
    → (is_reading (start_read_in_loop d).channel ≡ true)
      × (connect_destroyed (start_read_in_loop d) ≡ err assertion)
unfolding connect_destroyed start_read_in_loop detach apply_interest is_reading
read_again d h = (ground arith, ground (arith, h))

-- A connection that is connected or shuts down: handleClose returns, and connectDestroyed behind it does
-- too. But if a functor of startRead runs between the two, the channel waits for input again, although
-- the state is kDisconnected, and it is connectDestroyed whose assertion fails.
pub reading_life-asserts :
    (c : TcpConnection)
    → (c.state ≡ connected) ⊎ (c.state ≡ disconnecting)
    → Returns (handle_close c) (λ d.
      (d.state ≡ disconnected)
      × Returns (connect_destroyed d) (λ e. e.channel.added_to_loop ≡ false)
      × (is_reading (start_read_in_loop d).channel ≡ true)
      × (connect_destroyed (start_read_in_loop d) ≡ err assertion))
unfolding handle_close connect_destroyed detach apply_interest
reading_life-asserts c (inl h) =
    simp h (let again = read_again _ refl in (refl, refl, again.0, again.1))
reading_life-asserts c (inr h) =
    simp h (let again = read_again _ refl in (refl, refl, again.0, again.1))
