-- ===== src/Stream.antt =====
-- muxado/src/stream.rs: a stream, the reader and the writer of one end of a connection's stream.
-- The channel from the stream manager is what it has ready. What the channel to the manager
-- answers is an argument. A task's waker is the task's number.
pub mod Reading
pub mod Writing
pub mod Effects
pub mod Fifo
pub mod Turns
pub mod Credit
pub mod Shutdown
mod Runs
use ngrok_rs.Common.{
  ℕ, ◌==◌, if◌then◌else◌, not, Bool, true, false, List, [], ◌∷◌, ◌++◌, Option, none, some, Result,
  ok, err, ◌>>=◌, Panic, panic, Poll, ready, pending,
}
use ngrok_rs.Errors.{Error}
use ngrok_rs.Frame.{Bytes, HeaderType, Body, Frame, is_fin, frame_from}
use ngrok_rs.Window.{Window, inc}
use ngrok_rs.StreamOutput.{SendError, SinkPoll, StreamSender, poll_ready, start_send}

-- The receiving half of the channel: the frames that it has, and whether it ends after them.
pub record Receiver : Type 0 where
  pub queue : List Frame
  pub ended : Bool

pub record Stream : Type 0 where
  pub window : Window
  pub read_buf : Bytes
  -- `fin`
  pub incoming : Receiver
  pub fout : StreamSender
  pub read_waker : Option ℕ
  pub write_waker : Option ℕ
  pub write_closed : Option Error
  pub data_read_closed : Bool
  pub needs_syn : Bool
  -- The tasks that the stream has woken, the oldest first.
  pub woken : List ℕ

-- What the channel to the manager answers: when polled for room, when a frame is sent, and when
-- it is flushed.
pub record Outgoing : Type 0 where
  pub room : SinkPoll
  pub send : Result SendError (Unit {0})
  pub flush : SinkPoll

unfoldable pub new : StreamSender → Receiver → ℕ → Bool → Stream
new fout incoming window_size needs_syn = record {
  window = ngrok_rs.Window.new window_size;
  incoming = incoming;
  fout = fout;
  read_buf = [];
  read_waker = none;
  write_waker = none;
  write_closed = none;
  data_read_closed = false;
  needs_syn = needs_syn;
  woken = [];
}

-- `maybe_wake`: the tasks that it wakes.
unfoldable pub maybe_wake : Option ℕ → Option ℕ → List ℕ
maybe_wake (some me) (some other) = if other == me then [] else other ∷ []
maybe_wake none (some other) = other ∷ []
maybe_wake me none = []

unfoldable pub maybe_wake_read : Option ℕ → Stream → Stream
unfolding maybe_wake
maybe_wake_read cx s = record s { woken = s.woken ++ maybe_wake cx s.read_waker; read_waker = none }

unfoldable pub maybe_wake_write : Option ℕ → Stream → Stream
unfolding maybe_wake
maybe_wake_write cx s = record s {
  woken = s.woken ++ maybe_wake cx s.write_waker;
  write_waker = none;
}

-- The first step of `handle_frame`.
unfoldable pub note_fin : Stream → Frame → Stream
note_fin s f = record s { data_read_closed = if is_fin f then true else s.data_read_closed }

-- `match frame.body` of `handle_frame`. `unreachable!` is a panic.
unfoldable pub handle_body : Option ℕ → Stream → Body → Result Panic Stream
unfolding maybe_wake_read maybe_wake_write
handle_body cx s (Body.data bs) = ok (maybe_wake_read cx (record s { read_buf = s.read_buf ++ bs }))
handle_body cx s (Body.wnd_inc by) =
    ok (maybe_wake_write cx (record s { window = inc s.window by }))
handle_body cx s (Body.rst _) = err panic
handle_body cx s (Body.go_away _ _ _) = err panic
handle_body cx s (Body.invalid _ _) = err panic

-- `handle_frame`: the stream and the type that the frame's header has.
unfoldable pub handle_frame : Stream → Frame → Option ℕ → Result Panic (Stream × HeaderType)
unfolding handle_body note_fin
handle_frame s f cx = handle_body cx (note_fin s f) f.body >>= λ s'. ok (s', f.header.typ)

-- `typ == target_typ`
unfoldable pub same_type : HeaderType → HeaderType → Bool
same_type HeaderType.rst HeaderType.rst = true
same_type HeaderType.data HeaderType.data = true
same_type HeaderType.wnd_inc HeaderType.wnd_inc = true
same_type HeaderType.go_away HeaderType.go_away = true
same_type (HeaderType.invalid t) (HeaderType.invalid u) = t == u
same_type _ _ = false

-- The loop of `poll_recv_frame_type`, over the frames that the channel has; it only answers `Ok`.
unfoldable pub recv_frames :
    HeaderType → ℕ → Bool → List Frame → Stream → Result Panic (Stream × Poll (Unit {0}))
unfolding same_type
recv_frames target cx true [] s =
    ok (
      record s { incoming = record { queue = []; ended = true }; data_read_closed = true },
      ready tt,
    )
recv_frames target cx false [] s =
    ok (record s { incoming = record { queue = []; ended = false } }, pending)
recv_frames target cx ended (f ∷ fs) s =
    handle_frame (record s { incoming = record { queue = fs; ended = ended } }) f (some cx)
    >>= λ (s', typ).
        let rest = recv_frames target cx ended fs s' in
        if same_type typ target then ok (s', ready tt) else rest

unfoldable pub poll_recv_frame_type :
    HeaderType → ℕ → Stream → Result Panic (Stream × Poll (Unit {0}))
unfolding recv_frames
poll_recv_frame_type target cx s = recv_frames target cx s.incoming.ended s.incoming.queue s

-- `poll_send_wndinc`: a channel that is closed counts as success.
unfoldable pub poll_send_wndinc : Stream → ℕ → Outgoing → Stream × Poll (Unit {0})
unfolding poll_ready start_send frame_from
poll_send_wndinc s by out =
    let (fout, answer) = poll_ready s.fout out.room in
    elim answer [
      | pending ↦ (record s { fout = fout }, pending)
      | ready room ↦ elim room [
        | err _ ↦ (record s { fout = fout }, ready tt)
        | ok _ ↦ (
          record s { fout = (start_send fout (frame_from (Body.wnd_inc by)) out.send).0 },
          ready tt,
        )
      ]
    ]
