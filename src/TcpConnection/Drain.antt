-- ===== src/TcpConnection/Drain.antt =====
-- net/tcpconnection.cpp: `handleWrite` empties the output buffer, and shuts the socket down after the
-- last byte where a shutdown waits.
use kaycc.Prelude.{
  lt→ltb, ℕ, ◌+◌, ◌-◌, ◌≤◌, ◌<◌, ◌≡◌, refl, ap, ◌∙◌, inl, inr, true, false, List, [], ◌∷◌, ◌++◌,
  append_assoc, length, take, drop, ◌==◌, Checked, ok, ◌>>=◌, Returns, Returns-bind, Returns-map,
  Bool-cases, arith, take-append-drop, length-drop, All, take_all, drop_all,
}
use kaycc.Buffer
use kaycc.Buffer.{Buffer, sub_size, add_size, readable_bytes, content, max_size}
use kaycc.Buffer.Region.{IsValid, readable_bytes-eq, length-content}
use kaycc.Buffer.Consume.{Dropped, retrieve_lem}
use kaycc.Channel.{apply_interest, is_writing}
use kaycc.TcpConnection.{
  TcpConnection, disconnecting, wrote, writing, sent_some, handle_write, shutdown_in_loop, drained,
}

-- `n` bytes have gone from the output buffer to the kernel. With the last one the channel stops
-- waiting to write, and a connection that is being shut down closes its writing side.
pub record Wrote (n : ℕ) (c t : TcpConnection) : Type 0 where
  pub valid : IsValid t.output_buffer
  pub bytes : content t.output_buffer ≡ drop n (content c.output_buffer)
  pub sent_eq : t.sent ≡ c.sent ++ take n (content c.output_buffer)
  pub state_eq : t.state ≡ c.state
  pub more :
      n < length (content c.output_buffer) → (writing t ≡ true) × (t.write_shut ≡ c.write_shut)
  pub last :
      n ≡ length (content c.output_buffer)
      → (writing t ≡ false) × (c.state ≡ disconnecting → t.write_shut ≡ true)

drained_lem :
    (c : TcpConnection)
    → ((drained c).output_buffer ≡ c.output_buffer)
      × ((drained c).sent ≡ c.sent)
      × ((drained c).state ≡ c.state)
      × (writing (drained c) ≡ false)
      × (c.state ≡ disconnecting → (drained c).write_shut ≡ true)
unfolding drained shutdown_in_loop is_writing apply_interest
drained_lem c = (ground arith, ground arith, ground arith, ground arith, λ h. ground arith)

length-dropped :
    (n : ℕ) (b : Buffer) (bytes : List ℕ)
    → IsValid b
    → content b ≡ drop n bytes
    → b.writer_index - b.reader_index ≡ length bytes - n
length-dropped n b bytes v e =
    omega (arith, length-content b v, ap (λ (l : List ℕ). length l) e, length-drop n bytes)

sent_some-Wrote :
    (n : ℕ) (c : TcpConnection)
    → IsValid c.output_buffer
    → writing c ≡ true
    → n ≤ length (content c.output_buffer)
    → Returns (sent_some n c) (Wrote n c)
unfolding sent_some
sent_some-Wrote n c v busy h =
    Returns-bind (Dropped c.output_buffer n) (Wrote n c) (Buffer.retrieve c.output_buffer n) _
      (retrieve_lem c.output_buffer n v h)
      λ b d.
        let left : readable_bytes b ≡ length (content c.output_buffer) - n =
          readable_bytes-eq b d.0 ∙ length-dropped n b (content c.output_buffer) d.0 d.1 in
        let c' : TcpConnection = record c {
          output_buffer = b;
          sent = c.sent ++ take n (content c.output_buffer);
        } in
        let (output_eq, sent_eq, state_eq, quiet, shut) = drained_lem c' in
        elim (Bool-cases (readable_bytes b == 0)) [
          | inl e ↦ rw e (record {
            valid = rw output_eq d.0;
            bytes = rw output_eq d.1;
            sent_eq = sent_eq;
            state_eq = state_eq;
            more = λ m. absurd (ground arith);
            last = λ m. (quiet, shut);
          })
          | inr e ↦ rw e (record {
            valid = d.0;
            bytes = d.1;
            sent_eq = refl;
            state_eq = refl;
            more = λ m. (busy, refl);
            last = λ m. absurd (ground arith);
          })
        ]

-- `handleWrite` on a connection that waits to write, when `write` takes between one byte and all
-- of its valid output buffer, returns. The bytes taken leave the buffer and nothing else does,
-- the state stays, and the channel goes on waiting if bytes are left; with the last byte it stops
-- waiting, and a connection in `kDisconnecting` shuts down its writing side.
pub handle_write-Wrote :
    (n : ℕ) (c : TcpConnection)
    → IsValid c.output_buffer
    → writing c ≡ true
    → 0 < n
    → n ≤ length (content c.output_buffer)
    → Returns (handle_write (wrote n) c) (Wrote n c)
unfolding handle_write
handle_write-Wrote n c v busy pos h = rw (busy, lt→ltb 0 n pos) (sent_some-Wrote n c v busy h)

-- The loop finds the socket writable again and again, and the kernel takes so many bytes each time.
pub handle_writes : List ℕ → TcpConnection → Checked TcpConnection
handle_writes [] c = ok c
handle_writes (n ∷ ns) c = handle_write (wrote n) c >>= λ t. handle_writes ns t

abbrev pub sum : List ℕ → ℕ
sum [] = 0
sum (n ∷ ns) = n + sum ns

-- The whole output buffer has gone out, in order, and what waited for the last byte has happened.
pub record Flushed (c t : TcpConnection) : Type 0 where
  pub sent_eq : t.sent ≡ c.sent ++ content c.output_buffer
  pub empty : content t.output_buffer ≡ []
  pub quiet : writing t ≡ false
  pub shut : c.state ≡ disconnecting → t.write_shut ≡ true

-- However the kernel splits the bytes of a valid output buffer over the calls of `handleWrite`,
-- at least one byte for each, a connection that waits to write sends all of them in order.
-- Afterwards the buffer is empty, the channel does not wait to write, and a connection in
-- `kDisconnecting` has shut down its writing side.
pub handle_writes-Flushed :
    (n : ℕ) (ns : List ℕ) (c : TcpConnection)
    → IsValid c.output_buffer
    → writing c ≡ true
    → All (λ k. 0 < k) (n ∷ ns)
    → sum (n ∷ ns) ≡ length (content c.output_buffer)
    → Returns (handle_writes (n ∷ ns) c) (Flushed c)
unfolding handle_writes
handle_writes-Flushed n [] c v busy pos total =
    Returns-bind (Wrote n c) (Flushed c) (handle_write (wrote n) c) _
      (handle_write-Wrote n c v busy pos.0 (omega arith))
      λ t w. record {
        sent_eq = ground (arith, w.sent_eq, take_all n (content c.output_buffer));
        empty = ground (arith, w.bytes, drop_all n (content c.output_buffer));
        quiet = (w.last (omega arith)).0;
        shut = (w.last (omega arith)).1;
      }
handle_writes-Flushed n (m ∷ ns) c v busy pos total =
    Returns-bind (Wrote n c) (Flushed c) (handle_write (wrote n) c) _
      (handle_write-Wrote n c v busy pos.0 (omega arith))
      λ t w.
        Returns-map (Flushed t) (Flushed c) (handle_writes (m ∷ ns) t)
          (handle_writes-Flushed m ns t w.valid (w.more (omega arith)).0 pos.1 (
            omega (
              arith,
              ap (λ (l : List ℕ). length l) w.bytes,
              length-drop n (content c.output_buffer),
            )))
          λ u f. record {
            sent_eq =
                f.sent_eq
                ∙ ground (
                  arith,
                  w.sent_eq,
                  w.bytes,
                  append_assoc c.sent (take n (content c.output_buffer))
                      (drop n (content c.output_buffer)),
                  take-append-drop n (content c.output_buffer),
                );
            empty = f.empty;
            quiet = f.quiet;
            shut = λ s. f.shut (w.state_eq ∙ s);
          }
