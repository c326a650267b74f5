-- ===== src/TcpConnection/States.antt =====
-- net/tcpconnection.cpp: the states of a connection, and its callbacks, over any sequence of calls and
-- events.
use kaycc.Prelude.{
  OnOk-map, OnOk-any, drop, ℕ, ◌+◌, ◌≤◌, ◌≡◌, refl, Bool, List, [], ◌∷◌, ◌++◌, Checked, ok, err,
  ◌>>=◌, OnOk, OnOk-bind, arith,
}
use kaycc.Buffer
use kaycc.Buffer.{Buffer, content, initial_size}
use kaycc.Buffer.Fd.{Readv, read_fd}
use kaycc.TcpConnection.{
  TcpConnection, construct, State, disconnected, connecting, connected, disconnecting, Write, wrote,
  write_failed, Callback, connection_callback, message_callback, close_callback, Attempt, try_write,
  keep_rest, send_in_loop, send, send_buffer, shutdown_in_loop, shutdown, handle_close, force_close,
  force_close_with_delay, force_close_in_loop, start_read_in_loop, start_read, stop_read_in_loop,
  stop_read, connect_established, connect_destroyed, handle_read, sent_some, drained, handle_write,
}

-- The calls of the user, and what the loop does to the connection.
pub data Action : Type 0 where
  sends : Bool → List ℕ → Write → Action
  sends_buffer : Bool → Buffer → Write → Action
  runs_send : List ℕ → Write → Action
  shuts_down force_closes starts_read stops_read : Bool → Action
  force_closes_after : ℕ → Action
  runs_shutdown runs_force_close runs_start_read runs_stop_read : Action
  establishes destroys : Action
  reads : Readv → Action
  writes : Write → Action

pub act : Action → TcpConnection → Checked TcpConnection
act (sends in_loop message w) c = send in_loop message w c
act (sends_buffer in_loop buf w) c = do (rest, t) ← send_buffer in_loop buf w c; ok t
act (runs_send message w) c = send_in_loop message w c
act (shuts_down in_loop) c = ok (shutdown in_loop c)
act (force_closes in_loop) c = ok (force_close c)
act (starts_read in_loop) c = ok (start_read in_loop c)
act (stops_read in_loop) c = ok (stop_read in_loop c)
act (force_closes_after seconds) c = ok (force_close_with_delay seconds c)
act runs_shutdown c = ok (shutdown_in_loop c)
act runs_force_close c = force_close_in_loop c
act runs_start_read c = ok (start_read_in_loop c)
act runs_stop_read c = ok (stop_read_in_loop c)
act establishes c = connect_established c
act destroys c = connect_destroyed c
act (reads r) c = handle_read r c
act (writes w) c = handle_write w c

-- The states in the order in which a connection passes them.
abbrev pub rank : State → ℕ
rank connecting = 0
rank connected = 1
rank disconnecting = 2
rank disconnected = 3

-- How often the user's connection callback has run by then: once up, and once down.
abbrev pub announcements : State → ℕ
announcements connecting = 0
announcements connected = 1
announcements disconnecting = 1
announcements disconnected = 2

abbrev is_announcement : Callback → ℕ
is_announcement connection_callback = 1
is_announcement message_callback = 0
is_announcement close_callback = 0

pub count_announcements : List Callback → ℕ
count_announcements [] = 0
count_announcements (c ∷ cs) = is_announcement c + count_announcements cs

count-append :
    (xs ys : List Callback)
    → count_announcements (xs ++ ys) ≡ count_announcements xs + count_announcements ys
unfolding count_announcements
count-append [] ys = omega arith
count-append (x ∷ xs) ys = omega (arith, count-append xs ys)

-- A step that keeps the state announces nothing; any other goes on in the order, and announces what
-- the new state calls for.
pub record Advances (c t : TcpConnection) : Type 0 where
  pub forward : rank c.state ≤ rank t.state
  pub announced :
      count_announcements t.ran + announcements c.state
      ≡ count_announcements c.ran + announcements t.state

-- Neither the state nor the callbacks change.
abbrev Quiet : TcpConnection → TcpConnection → Type 0
Quiet c t = (t.state ≡ c.state) × (t.ran ≡ c.ran)

Quiet-Advances : (c t : TcpConnection) → Quiet c t → Advances c t
Quiet-Advances c t q = ground (arith, q)

try_write-Quiet : (src : List ℕ) (w : Write) (c : TcpConnection) → Quiet c (try_write src w c).conn
unfolding try_write
try_write-Quiet src (wrote n) c = ground arith
try_write-Quiet src (write_failed e) c = ground arith

keep_rest-Quiet : (rest : List ℕ) (c : TcpConnection) → OnOk (keep_rest rest c) (Quiet c)
unfolding keep_rest
keep_rest-Quiet rest c = OnOk-any (Quiet c) (Buffer.append c.output_buffer rest) _ λ b. ground arith

send_in_loop-Quiet :
    (src : List ℕ) (w : Write) (c : TcpConnection) → OnOk (send_in_loop src w c) (Quiet c)
unfolding send_in_loop
send_in_loop-Quiet src w c =
    let a : Attempt = try_write src w c in
    ground (arith, try_write-Quiet src w c, keep_rest-Quiet (drop a.nwrote src) a.conn)

send-Quiet :
    (in_loop : Bool) (src : List ℕ) (w : Write) (c : TcpConnection)
    → OnOk (send in_loop src w c) (Quiet c)
unfolding send
send-Quiet in_loop src w c = ground (arith, send_in_loop-Quiet src w c)

send_buffer-Quiet :
    (in_loop : Bool) (buf : Buffer) (w : Write) (c : TcpConnection)
    → OnOk (send_buffer in_loop buf w c) (λ r. Quiet c r.1)
unfolding send_buffer
send_buffer-Quiet in_loop buf w c = ground (arith, send_in_loop-Quiet (content buf) w c)

handle_close-Advances : (c : TcpConnection) → OnOk (handle_close c) (Advances c)
unfolding handle_close count_announcements
handle_close-Advances c = ground (
  arith,
  count-append c.ran (connection_callback ∷ []),
  count-append (c.ran ++ connection_callback ∷ []) (close_callback ∷ []),
)

connect_established-Advances : (c : TcpConnection) → OnOk (connect_established c) (Advances c)
unfolding connect_established count_announcements
connect_established-Advances c = ground (arith, count-append c.ran (connection_callback ∷ []))

connect_destroyed-Advances : (c : TcpConnection) → OnOk (connect_destroyed c) (Advances c)
unfolding connect_destroyed count_announcements
connect_destroyed-Advances c = ground (arith, count-append c.ran (connection_callback ∷ []))

handle_read-Advances : (r : Readv) (c : TcpConnection) → OnOk (handle_read r c) (Advances c)
unfolding handle_read count_announcements
handle_read-Advances r c = OnOk-any (Advances c) (read_fd c.input_buffer r) _ λ b. ground (
  arith,
  handle_close-Advances (record c { input_buffer = b.buf }),
  count-append c.ran (message_callback ∷ []),
)

sent_some-Quiet : (n : ℕ) (c : TcpConnection) → OnOk (sent_some n c) (Quiet c)
unfolding sent_some drained shutdown_in_loop
sent_some-Quiet n c = OnOk-any (Quiet c) (Buffer.retrieve c.output_buffer n) _ λ b. ground arith

handle_write-Quiet : (w : Write) (c : TcpConnection) → OnOk (handle_write w c) (Quiet c)
unfolding handle_write
handle_write-Quiet (write_failed e) c = (refl, refl)
handle_write-Quiet (wrote n) c = ground (arith, sent_some-Quiet n c)

Quiet-OnOk :
    (c : TcpConnection) (m : Checked TcpConnection) → OnOk m (Quiet c) → OnOk m (Advances c)
Quiet-OnOk c (ok t) q = Quiet-Advances c t q
Quiet-OnOk c (err e) q = tt

-- Every call and event takes the connection forward, or leaves it where it is, and runs the user's
-- connection callback when it comes up and when it goes down, and at no other time.
pub act-Advances : (a : Action) (c : TcpConnection) → OnOk (act a c) (Advances c)
unfolding act
act-Advances (sends in_loop message w) c = Quiet-OnOk c _ (send-Quiet in_loop message w c)
act-Advances (sends_buffer in_loop buf w) c =
    OnOk-bind (λ r. Quiet c r.1) (Advances c) (send_buffer in_loop buf w c) _
      (send_buffer-Quiet in_loop buf w c) λ r q. Quiet-Advances c r.1 q
act-Advances (runs_send message w) c = Quiet-OnOk c _ (send_in_loop-Quiet message w c)
act-Advances (shuts_down in_loop) c = unfold shutdown shutdown_in_loop in ground arith
act-Advances (force_closes in_loop) c = unfold force_close in ground arith
act-Advances (starts_read in_loop) c = unfold start_read start_read_in_loop in ground arith
act-Advances (stops_read in_loop) c = unfold stop_read stop_read_in_loop in ground arith
act-Advances (force_closes_after seconds) c = unfold force_close_with_delay in ground arith
act-Advances runs_shutdown c = unfold shutdown_in_loop in ground arith
act-Advances runs_force_close c =
    unfold force_close_in_loop in ground (arith, handle_close-Advances c)
act-Advances runs_start_read c = unfold start_read_in_loop in ground arith
act-Advances runs_stop_read c = unfold stop_read_in_loop in ground arith
act-Advances establishes c = connect_established-Advances c
act-Advances destroys c = connect_destroyed-Advances c
act-Advances (reads r) c = handle_read-Advances r c
act-Advances (writes w) c = Quiet-OnOk c _ (handle_write-Quiet w c)

pub acts : List Action → TcpConnection → Checked TcpConnection
acts [] c = ok c
acts (a ∷ as_) c = act a c >>= λ t. acts as_ t

-- Over any sequence of calls, functors and events on a connection that does not end in a failed
-- assertion, the state only moves forward, in the order connecting, connected, disconnecting,
-- disconnected; and the user's connection callback runs as often as the way from the first state
-- to the last one announces: once when the connection comes up and once when it goes down.
pub acts-Advances : (as_ : List Action) (c : TcpConnection) → OnOk (acts as_ c) (Advances c)
unfolding acts
acts-Advances [] c = record { forward = omega arith; announced = refl }
acts-Advances (a ∷ as_) c =
    OnOk-bind (Advances c) (Advances c) (act a c) _ (act-Advances a c) λ t h.
      OnOk-map (Advances t) (Advances c) (acts as_ t) (acts-Advances as_ t)
        λ u k. record { forward = omega arith; announced = omega arith }

new_connection :
    (sockfd : ℕ) (w h : Bool)
    → OnOk (construct sockfd w h) (λ c. (c.state ≡ connecting) × (c.ran ≡ []))
unfolding construct
new_connection sockfd w h =
    OnOk-any (λ c. (c.state ≡ connecting) × (c.ran ≡ [])) (Buffer.construct initial_size) _
      λ input.
        OnOk-any (λ c. (c.state ≡ connecting) × (c.ran ≡ [])) (Buffer.construct initial_size) _
          λ output. (refl, refl)

-- Over any sequence of calls, functors and events on a new connection that does not end in a failed
-- assertion, the user's connection callback has run not at all while the connection is connecting,
-- once while it is connected or disconnecting, and twice once it is disconnected.
pub history_announced :
    (sockfd : ℕ) (w h : Bool) (as_ : List Action)
    → OnOk
        (construct sockfd w h >>= acts as_)
        (λ t. count_announcements t.ran ≡ announcements t.state)
unfolding count_announcements
history_announced sockfd w h as_ =
    OnOk-bind (λ c. (c.state ≡ connecting) × (c.ran ≡ []))
      (λ t. count_announcements t.ran ≡ announcements t.state) (construct sockfd w h) (acts as_)
      (new_connection sockfd w h)
      λ c n.
        OnOk-map (Advances c) (λ t. count_announcements t.ran ≡ announcements t.state) (acts as_ c)
          (acts-Advances as_ c) λ t a. ground (arith, a.announced, n)
