-- ===== src/Stream/Runs.antt =====
-- Concrete runs of muxado/src/stream.rs, and its theorems at concrete inputs.
use ngrok_rs.Common.{
  ℕ, ◌+◌, ◌≤◌, ◌≡◌, refl, arith, true, false, [], ◌∷◌, ◌++◌, length, take, none, ok, err, ready,
  min,
}
use ngrok_rs.Errors.{Error, length_max}
use ngrok_rs.Frame.{Bytes, Body, Frame, frame_from, is_fin, is_syn, syn}
use ngrok_rs.Window.{capacity}
use ngrok_rs.StreamOutput.{wrap, check_closed, poll_ready, start_send}
use ngrok_rs.Stream.{
  Stream, Receiver, Outgoing, new, poll_recv_frame_type, recv_frames, handle_frame, handle_body,
  note_fin,
}
use ngrok_rs.Stream.Reading.{ReadPoll, give, read_loop, poll_read, read_len}
use ngrok_rs.Stream.Writing.{
  IoPoll, ErrorKind, poll_write, write_ready, send_data, data_frame, send_len, fin_frame,
  poll_shutdown,
}
use ngrok_rs.Stream.Turns.{Waits, poll_read_total}
use ngrok_rs.Stream.Fifo.{given, unread, read_in_order}
use ngrok_rs.Stream.Credit.{sent_bytes}
use ngrok_rs.Stream.Credit.Life.{Life, starts, writes, written_within_window}
use ngrok_rs.Stream.Shutdown.{IsBareFin, IsOpen, write_sends_prefix, shutdown_once}

-- "Hello"
abbrev hello : Bytes
hello = 72 ∷ 101 ∷ 108 ∷ 108 ∷ 111 ∷ []

abbrev willing : Outgoing
willing = record { room = ready (ok tt); send = ok tt; flush = ready (ok tt) }

abbrev fresh : Stream
fresh = record {
  window = record { max_size = 3; size = 3 };
  incoming = record { queue = []; ended = false };
  fout = record { sink = []; closer = 0 };
  read_buf = [];
  read_waker = none;
  write_waker = none;
  write_closed = none;
  data_read_closed = false;
  needs_syn = true;
  woken = [];
}

fresh_new : new wrap (record { queue = []; ended = false }) 3 true ≡ fresh
unfolding new wrap ngrok_rs.Window.new
fresh_new = refl

-- The peer's increment and data are on the channel.
abbrev fed : Stream
fed = record fresh {
  incoming = record {
    queue = frame_from (Body.wnd_inc 5) ∷ frame_from (Body.data hello) ∷ [];
    ended = false;
  };
}

-- The stream after it has read four bytes of five.
abbrev read_once : ReadPoll
read_once = (
  record fresh {
    fout = record { sink = frame_from (Body.wnd_inc 4) ∷ []; closer = 0 };
    read_buf = 111 ∷ [];
  },
  ready (72 ∷ 101 ∷ 108 ∷ 108 ∷ []),
)

fed_read : poll_read fed 7 4 willing ≡ ok read_once
unfolding poll_read give read_loop read_len poll_recv_frame_type recv_frames handle_frame
    handle_body note_fin poll_ready start_send frame_from check_closed ngrok_rs.Window.inc is_fin
    ngrok_rs.Stream.poll_send_wndinc ngrok_rs.Stream.same_type ngrok_rs.Stream.maybe_wake_read
    ngrok_rs.Stream.maybe_wake_write ngrok_rs.Stream.maybe_wake
fed_read = refl

read_in_order_example :
    (given read_once.1 ++ unread read_once.0 ≡ unread fed) × (length (given read_once.1) ≤ 4)
read_in_order_example = read_in_order fed read_once.0 7 4 willing read_once.1 fed_read

IsOpen-fresh : IsOpen fresh willing
unfolding check_closed
IsOpen-fresh = record { cell = refl; room = refl; send = refl; unclosed = refl }

write_sends_prefix_example :
    (t : Stream) × (frame : Frame) × (n : ℕ) × (poll_write fresh 7 hello willing
      ≡ ok (t, ready (ok n)))
    × (n ≡ min (capacity fresh.window) (min length_max (length hello)))
    × (t.fout.sink ≡ frame ∷ [])
    × (frame.body ≡ Body.data (take n hello))
    × (is_syn frame ≡ true)
    × (t.needs_syn ≡ false)
    × (capacity t.window + n ≡ capacity fresh.window)
unfolding capacity
write_sends_prefix_example =
    write_sends_prefix fresh 7 hello willing IsOpen-fresh (omega arith) (omega arith)

-- The stream after its first write.
abbrev written : Stream × IoPoll ℕ
written = (
  record fresh {
    window = record { max_size = 3; size = 0 };
    fout = record { sink = syn (frame_from (Body.data (72 ∷ 101 ∷ 108 ∷ []))) ∷ []; closer = 0 };
    needs_syn = false;
  },
  ready (ok 3),
)

fresh_written : poll_write fresh 7 hello willing ≡ ok written
unfolding poll_write write_ready send_data data_frame send_len capacity poll_ready start_send
    check_closed frame_from syn ngrok_rs.Window.dec
fresh_written = refl

written-Life : Life 3 written.0 0
unfolding new wrap ngrok_rs.Window.new
written-Life = writes written 7 hello willing fresh_written (starts true)

written_within_window_example : sent_bytes written.0.fout.sink + capacity written.0.window ≤ 3 + 0
written_within_window_example = written_within_window 3 written.0 0 written-Life

shutdown_once_example :
    let t = (poll_shutdown fresh willing).0 in
    (t.fout.sink ≡ fin_frame ∷ [])
    × (IsBareFin fin_frame)
    × ((code : Error) × (poll_write t 7 hello willing
          ≡ ok (t, ready (err (record { kind = ErrorKind.broken_pipe; code = code })))))
    × ((poll_shutdown t willing).0.fout.sink ≡ t.fout.sink)
shutdown_once_example = shutdown_once fresh willing willing 7 hello IsOpen-fresh

poll_read_total_example : (p : ReadPoll) × (poll_read fed 7 4 willing ≡ ok p) × Waits 7 willing p
unfolding frame_from
poll_read_total_example = poll_read_total fed 7 4 willing (refl, (refl, tt))
