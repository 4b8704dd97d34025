-- ===== src/StreamManager.antt =====
-- muxado/src/stream_manager.rs: the streams of a session, and the frames to and from them.
-- The channels, the set of stream tasks and the wakers are other crates': what they answer is an
-- argument, a waker is the fact that it is stored, and a wake-up is the fact that it is made.
-- A usize is a natural number: the sums here stay far below its range.
pub mod Polling
pub mod Sending
pub mod Effects
pub mod Steps
pub mod Limit
pub mod Ids
pub mod Waiting
pub mod Tasks
pub mod Answers
pub mod Duplicates
pub mod Flow
pub mod Allowance
pub mod Overrun
pub mod Fin
pub mod Resets
mod Runs
use ngrok_rs.Common.{
  ℕ, suc, zero, ◌+◌, ◌-◌, ◌==◌, leb, if◌then◌else◌, Bool, true, false, not, ◌&&◌, ◌||◌, List, [],
  ◌∷◌, ◌++◌, map, length, Option, none, some, Result, ok, err, ◌>>=◌, Panic, panic, Poll, ready,
  pending,
}
use ngrok_rs.Common.Maps.{lookup, insert, remove}
use ngrok_rs.Constrained.{clamp}
use ngrok_rs.Errors.{Error, stream_id_range}
use ngrok_rs.Frame.{HeaderType, Body, Frame, body_len, frame_from, is_fin, fin, with_stream_id}
use ngrok_rs.StreamOutput.{SendError, SinkPoll, close_with, is_closed}

-- The sending half of the channel to a stream: the frames that it took, and whether it is closed.
pub record ToStream : Type 0 where
  pub taken : List Frame
  pub closed : Bool

pub record StreamHandle : Type 0 where
  pub to_stream : ToStream
  -- The cell that is shared with the stream's `StreamSender`.
  pub sink_closer : ℕ
  pub needs_fin : Bool
  pub data_write_closed : Bool
  pub window : ℕ

pub record StreamManager : Type 0 where
  pub stream_limit : ℕ
  pub streams : List (ℕ × StreamHandle)
  -- The ids of the streams whose next frame is awaited, one for each task.
  pub tasks : List ℕ
  pub last_local_id : ℕ
  pub last_remote_id : ℕ
  pub sent_away : Bool
  pub new_streams : Bool

unfoldable pub new : ℕ → Bool → StreamManager
unfolding clamp
new stream_limit client = record {
  stream_limit = stream_limit;
  streams = [];
  tasks = [];
  last_local_id = clamp stream_id_range (if client then 1 else 0);
  last_remote_id = clamp stream_id_range (if client then 0 else 1);
  sent_away = false;
  new_streams = false;
}

-- `go_away`: the manager, and what the cells of the drained handles hold.
unfoldable pub go_away : StreamManager → Error → StreamManager × List (ℕ × ℕ)
go_away m _error = (
  record m { sent_away = true; streams = [] },
  map
      (λ (entry : ℕ × StreamHandle).
        (entry.0, close_with entry.1.sink_closer Error.remote_gone_away))
      m.streams,
)

abbrev pub close_channel : StreamHandle → StreamHandle
close_channel h = record h { to_stream = record (h.to_stream) { closed = true } }

unfoldable pub close_senders : StreamManager → StreamManager
close_senders m = record m {
  streams = map (λ (entry : ℕ × StreamHandle). (entry.0, close_channel entry.1)) m.streams;
}

unfoldable pub is_terminated : StreamManager → Bool
is_terminated m = m.sent_away

-- What `OpenReq::create` hands the manager of a new stream: the cell and the window.
pub record OpenReq : Type 0 where
  pub closer : ℕ
  pub window : ℕ

unfoldable pub get_stream : StreamManager → ℕ → Result Error StreamHandle
get_stream m id = elim (lookup id m.streams) [ some h ↦ ok h | none ↦ err Error.stream_closed ]

unfoldable pub push_task : StreamManager → ℕ → StreamManager
push_task m id = record m { tasks = id ∷ m.tasks }

unfoldable pub remove_stream : StreamManager → ℕ → StreamManager
remove_stream m id = record m { streams = remove id m.streams }

-- The new handle of `create_stream`.
unfoldable pub opened : OpenReq → StreamHandle
opened req = record {
  window = req.window;
  to_stream = record { taken = []; closed = false };
  sink_closer = req.closer;
  needs_fin = true;
  data_write_closed = false;
}

-- The id of the new stream, which is then the last one of its side.
unfoldable pub take_id : StreamManager → Option ℕ → StreamManager × ℕ
unfolding clamp
take_id m (some remote_id) = (record m { last_remote_id = remote_id }, remote_id)
take_id m none =
    let new_id = clamp stream_id_range (m.last_local_id + 2) in
    (record m { last_local_id = new_id }, new_id)

-- `create_stream`: the manager, the result, and whether the stored waker was woken.
unfoldable pub create_stream :
    StreamManager → Option ℕ → OpenReq → StreamManager × Result Error ℕ × Bool
unfolding take_id push_task
create_stream m id req =
    if length m.streams == m.stream_limit
    then (m, err Error.streams_exhausted, false)
    else let (m', new_id) = take_id m id in
      let inserted = record m' { streams = insert new_id (opened req) m'.streams } in
      let pushed = push_task inserted new_id in
      (record pushed { new_streams = false }, ok new_id, pushed.new_streams)
