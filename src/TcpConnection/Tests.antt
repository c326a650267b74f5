-- ===== src/TcpConnection/Tests.antt =====
-- net/tcpconnection.cpp on one connection.
use kaycc.Prelude.{
  ◌≡◌, refl, inl, inr, err, assertion, true, false, [], ◌∷◌, Returns, OnOk, arith, replicate,
}
use kaycc.Buffer.{Buffer}
use kaycc.Channel
use kaycc.Channel.{Channel, enable_writing, apply_interest, is_reading, is_writing}
use kaycc.TcpConnection.{
  TcpConnection, connected, disconnected, handle_close, connect_destroyed, start_read_in_loop,
  disconnecting, connection_callback, close_callback, send_in_loop, wrote, writing,
}
use kaycc.TcpConnection.Stream.{Pending, Sent, send_in_loop-Sent}
use kaycc.TcpConnection.Drain.{Flushed, handle_writes, handle_writes-Flushed}
use kaycc.TcpConnection.Life.{
  closed_life, owner_life, Gone, closed_lem, owner_life-asserts, reading_life-asserts,
}
use kaycc.TcpConnection.States.{Advances, acts, acts-Advances, shuts_down, runs_shutdown}

abbrev empty : Buffer
empty = record { buffer = replicate 12 0; reader_index = 8; writer_index = 8 }

-- Two bytes wait.
abbrev waiting : Buffer
waiting = record {
  buffer = 0 ∷ 0 ∷ 0 ∷ 0 ∷ 0 ∷ 0 ∷ 0 ∷ 0 ∷ 65 ∷ 66 ∷ 0 ∷ [];
  reader_index = 8;
  writer_index = 10;
}

abbrev quiet : TcpConnection
quiet = record {
  state = connected;
  reading = true;
  channel = Channel.construct 5;
  input_buffer = empty;
  output_buffer = empty;
  high_water_mark = 64;
  write_complete_callback = false;
  high_water_mark_callback = false;
  sent = [];
  write_shut = false;
  ran = [];
  queued = [];
}

-- Shut down by the user while two bytes wait.
abbrev closing : TcpConnection
closing = record quiet {
  state = disconnecting;
  channel = apply_interest enable_writing (Channel.construct 5);
  output_buffer = waiting;
}

quiet-Pending : Pending quiet
unfolding is_writing Channel.construct
quiet-Pending = record { valid = omega arith; busy = λ e. absurd (ground arith); idle = λ e. refl }

closing_writes : writing closing ≡ true
unfolding is_writing Channel.construct apply_interest
closing_writes = refl

-- The kernel takes two bytes of three.
send_in_loop_example :
    Returns
      (send_in_loop (65 ∷ 66 ∷ 67 ∷ []) (wrote 2) quiet)
      (Sent (65 ∷ 66 ∷ 67 ∷ []) (wrote 2) quiet)
send_in_loop_example =
    send_in_loop-Sent (65 ∷ 66 ∷ 67 ∷ []) (wrote 2) quiet quiet-Pending (λ e. ground arith)
      (omega arith) (omega arith)

handle_writes_example : Returns (handle_writes (1 ∷ 1 ∷ []) closing) (Flushed closing)
handle_writes_example =
    handle_writes-Flushed 1 (1 ∷ []) closing (omega arith) closing_writes
      (omega arith, (omega arith, tt)) refl

acts_example : OnOk (acts (shuts_down false ∷ runs_shutdown ∷ []) quiet) (Advances quiet)
acts_example = acts-Advances (shuts_down false ∷ runs_shutdown ∷ []) quiet

closed_lem_example :
    Returns (closed_life closing) (Gone (connection_callback ∷ close_callback ∷ []) closing)
unfolding Channel.construct apply_interest
closed_lem_example = closed_lem closing (inr refl) refl

owner_life-asserts_example : owner_life closing ≡ err assertion
owner_life-asserts_example = owner_life-asserts closing refl

reading_life-asserts_example : Returns (handle_close quiet) (λ d.
    (d.state ≡ disconnected)
    × Returns (connect_destroyed d) (λ e. e.channel.added_to_loop ≡ false)
    × (is_reading (start_read_in_loop d).channel ≡ true)
    × (connect_destroyed (start_read_in_loop d) ≡ err assertion))
reading_life-asserts_example = reading_life-asserts quiet (inl refl)
