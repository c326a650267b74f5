-- ===== src/TcpConnection/Stream.antt =====
-- net/tcpconnection.cpp: no byte that is sent is lost, doubled or reordered on its way through the
-- output buffer.
use kaycc.Prelude.{
  length-append, drop_all, ℕ, zero, suc, ◌+◌, ◌-◌, ◌≤◌, ◌<◌, ◌≡◌, ◌≢◌, refl, sym, ap, ◌∙◌, ◌⊎◌, inl,
  inr, true, false, not, ◌&&◌, List, [], ◌++◌, append-nil, append_assoc, length, take, drop, ltb,
  leb, if◌then◌else◌, ok, Returns, Returns-bind, Returns-map, Bool-cases, arith, take-append-drop,
  length-drop,
}
use kaycc.Buffer
use kaycc.Buffer.{Buffer, sub_size, add_size, readable_bytes, content, max_size}
use kaycc.Buffer.Region.{IsValid, length-content}
use kaycc.Buffer.Growth.{Appended, append_lem}
use kaycc.Channel.{apply_interest, is_writing}
use kaycc.TcpConnection.{
  TcpConnection, State, disconnected, connecting, connected, disconnecting, same_state, Write,
  wrote, write_failed, ewouldblock, epipe, econnreset, other, writing, Attempt, try_write,
  keep_rest, send_in_loop,
}

-- What has gone to the kernel, and then what waits in the output buffer.
abbrev pub stream : TcpConnection → List ℕ
stream c = c.sent ++ content c.output_buffer

-- The channel waits to write exactly while bytes wait in the output buffer.
pub record Pending (c : TcpConnection) : Type 0 where
  pub valid : IsValid c.output_buffer
  pub busy : writing c ≡ true → content c.output_buffer ≢ []
  pub idle : writing c ≡ false → content c.output_buffer ≡ []

-- `write` accepts no more than it is given.
abbrev pub Legal : List ℕ → Write → Type 0
Legal src (wrote n) = n ≤ length src
Legal src (write_failed e) = Unit

-- What a step of the output side leaves: the same state and callbacks set, and a stream.
record Kept (c t : TcpConnection) (rest : List ℕ) : Type 0 where
  valid : IsValid t.output_buffer
  bytes : content t.output_buffer ≡ content c.output_buffer ++ rest
  sent_eq : t.sent ≡ c.sent
  waits : writing t ≡ true

keep_rest-Kept :
    (rest : List ℕ) (c : TcpConnection)
    → IsValid c.output_buffer
    → c.output_buffer.writer_index + length rest ≤ max_size
    → Returns (keep_rest rest c) (λ t. Kept c t rest)
unfolding keep_rest is_writing apply_interest
keep_rest-Kept rest c v h =
    Returns-bind (Appended c.output_buffer rest) (λ t. Kept c t rest)
      (Buffer.append c.output_buffer rest) _ (append_lem c.output_buffer rest v h)
      λ b a. ground (arith, a)

-- The errors on which `sendInLoop` drops the data.
abbrev pub IsFault : Write → Type 0
IsFault w = (w ≡ write_failed epipe) ⊎ (w ≡ write_failed econnreset)

record Attempted (src : List ℕ) (w : Write) (c : TcpConnection) (a : Attempt) : Type 0 where
  output_eq : a.conn.output_buffer ≡ c.output_buffer
  channel_eq : a.conn.channel ≡ c.channel
  state_eq : a.conn.state ≡ c.state
  sent_eq : a.conn.sent ≡ c.sent ++ take a.nwrote src
  count : a.nwrote ≤ length src
  direct : 0 < a.nwrote → content c.output_buffer ≡ []
  faulty : a.fault_error ≡ true → IsFault w × (a.nwrote ≡ 0)

try_write-Attempted :
    (src : List ℕ) (w : Write) (c : TcpConnection)
    → Pending c
    → Legal src w
    → Attempted src w c (try_write src w c)
unfolding try_write
try_write-Attempted src (wrote n) c p h =
    ground (arith, append-nil c.sent, length-content c.output_buffer p.valid, p.idle)
try_write-Attempted src (write_failed ewouldblock) c p h = ground (arith, append-nil c.sent)
try_write-Attempted src (write_failed epipe) c p h = ground (arith, append-nil c.sent)
try_write-Attempted src (write_failed econnreset) c p h = ground (arith, append-nil c.sent)
try_write-Attempted src (write_failed other) c p h = ground (arith, append-nil c.sent)

-- A prefix that is written directly goes out before anything waits.
split_stream :
    (s o src : List ℕ) (n : ℕ)
    → (0 < n → o ≡ [])
    → (s ++ take n src) ++ (o ++ drop n src) ≡ (s ++ o) ++ src
split_stream s o src zero h = simp (append-nil, append_assoc)
split_stream s o src (suc n) h =
    rw
      (
        h (omega arith),
        append-nil s,
        append_assoc s (take (suc n) src) (drop (suc n) src),
        take-append-drop (suc n) src,
      )
      refl

-- All of `src` is in the stream behind what was there; or the kernel reported a broken connection,
-- and the stream is as it was.
pub record Sent (src : List ℕ) (w : Write) (c t : TcpConnection) : Type 0 where
  pub pending : Pending t
  pub outcome : (stream t ≡ stream c ++ src) ⊎ (IsFault w × (stream t ≡ stream c))

Kept-Sent :
    (src : List ℕ) (w : Write) (c t : TcpConnection) (a : Attempt)
    → Attempted src w c a
    → 0 < length (drop a.nwrote src)
    → Kept a.conn t (drop a.nwrote src)
    → Sent src w c t
Kept-Sent src w c t a d some k = record {
  pending = record {
    valid = k.valid;
    busy = λ _ e. absurd (
        omega (
          arith,
          ap (λ (l : List ℕ). length l) (sym k.bytes ∙ e),
          length-append (content a.conn.output_buffer) (drop a.nwrote src),
        ));
    idle = λ e. cc (k.waits);
  };
  outcome = inl (
      ground (
        arith,
        k.bytes,
        k.sent_eq,
        d.sent_eq,
        d.output_eq,
        split_stream c.sent (content c.output_buffer) src a.nwrote d.direct,
      ));
}

no_rest :
    (src : List ℕ) (w : Write) (c : TcpConnection) (a : Attempt)
    → Pending c
    → Attempted src w c a
    → (a.fault_error ≡ true) ⊎ (a.nwrote ≡ length src)
    → Sent src w c a.conn
no_rest src w c a p d h = record {
  pending = record {
    valid = rw d.output_eq p.valid;
    busy = λ e. rw d.output_eq (p.busy (rw d.channel_eq at e));
    idle = λ e. rw d.output_eq (p.idle (rw d.channel_eq at e));
  };
  outcome = elim h [
    | inl e ↦
        inr ((d.faulty e).0, ground (arith, d.faulty e, append-nil c.sent, d.output_eq, d.sent_eq))
    | inr e ↦ inl (
        ground (
          arith,
          d.output_eq,
          d.sent_eq,
          drop_all a.nwrote src,
          append-nil (content c.output_buffer),
          split_stream c.sent (content c.output_buffer) src a.nwrote d.direct,
        ))
  ];
}

same_state-ne : (s : State) → s ≢ disconnected → same_state s disconnected ≡ false
same_state-ne disconnected h = absurd (h refl)
same_state-ne connecting h = refl
same_state-ne connected h = refl
same_state-ne disconnecting h = refl

-- What `sendInLoop` does once it has tried to write.
finish :
    (src : List ℕ) (w : Write) (c : TcpConnection) (a : Attempt)
    → Pending c
    → Attempted src w c a
    → c.output_buffer.writer_index + length src ≤ max_size
    → Returns
        (if not a.fault_error && ltb 0 (length src - a.nwrote)
          then keep_rest (drop a.nwrote src) a.conn
          else ok a.conn)
        (Sent src w c)
finish src w c a p d m = elim (Bool-cases (not a.fault_error && ltb 0 (length src - a.nwrote))) [
  | inl e ↦ rw e (
      Returns-map (λ t. Kept a.conn t (drop a.nwrote src)) (Sent src w c)
        (keep_rest (drop a.nwrote src) a.conn)
        (keep_rest-Kept (drop a.nwrote src) a.conn (rw d.output_eq p.valid)
          (rw d.output_eq (omega (arith, length-drop a.nwrote src))))
        λ t k. Kept-Sent src w c t a d (ground (arith, length-drop a.nwrote src)) k)
  | inr e ↦ rw e (no_rest src w c a p d (ground (arith, d.count)))
]

-- `sendInLoop` on a connection that is not disconnected, and that waits to write exactly while
-- its output buffer holds bytes, returns if the kernel takes no more than it is given and the
-- data fits in the output buffer. Then it still waits to write exactly while bytes are left, and
-- all of the data is behind what was sent or waited before, in order; or `write` reported EPIPE
-- or ECONNRESET, and none of the data is.
pub send_in_loop-Sent :
    (src : List ℕ) (w : Write) (c : TcpConnection)
    → Pending c
    → c.state ≢ disconnected
    → Legal src w
    → c.output_buffer.writer_index + length src ≤ max_size
    → Returns (send_in_loop src w c) (Sent src w c)
unfolding send_in_loop
send_in_loop-Sent src w c p alive h m =
    let a : Attempt = try_write src w c in
    let d : Attempted src w c a = try_write-Attempted src w c p h in
    let rem : sub_size (length src) a.nwrote ≡ length src - a.nwrote = omega (arith, d.count) in
    let fits : leb (length src - a.nwrote) (length src) ≡ true = ground arith in
    rw (same_state-ne c.state alive, rem, fits) (finish src w c a p d m)
