-- ===== src/StreamManager/Polling.antt =====
-- `poll_next` of muxado/src/stream_manager.rs: the next frame of the session to send.
use ngrok_rs.Common.{
  ℕ, ◌+◌, ◌==◌, if◌then◌else◌, Bool, true, false, not, ◌&&◌, List, [], ◌∷◌, Option, none, some,
  Result, ok, err, Panic, panic, Poll, ready, pending,
}
use ngrok_rs.Common.Maps.{insert}
use ngrok_rs.Frame.{Body, Frame, frame_from, is_fin, fin, with_stream_id}
use ngrok_rs.StreamOutput.{is_closed}
use ngrok_rs.StreamManager.{StreamHandle, StreamManager, get_stream, push_task, remove_stream}

-- A task's answer: the id that it was made with, and the stream's next frame, or none at the end.
abbrev pub TaskPoll : Type 0
TaskPoll = Poll (Option (ℕ × Option Frame))

-- The manager, its answer, and whether it woke itself.
abbrev pub Polled : Type 0
Polled = StreamManager × Poll (Option Frame) × Bool

-- A task that has answered leaves the set.
unfoldable pub take_task : ℕ → List ℕ → List ℕ
take_task id [] = []
take_task id (t ∷ ts) = if t == id then ts else t ∷ take_task id ts

-- `handle.window += *inc as usize` on a window increment.
unfoldable pub credit : Body → StreamHandle → StreamHandle
credit (Body.wnd_inc inc) h = record h { window = h.window + inc }
credit _ h = h

-- The handle after a frame of its stream.
unfoldable pub sent : Frame → StreamHandle → StreamHandle
unfolding credit is_fin
sent f h =
    let credited = credit f.body h in
    if is_fin f then record credited { needs_fin = false } else credited

-- What becomes of a task's item, for a handle that is in the map.
unfoldable pub poll_item : StreamManager → ℕ → StreamHandle → Option Frame → Polled
unfolding sent push_task remove_stream
poll_item m id h (some f) = (
  push_task (record m { streams = insert id (sent f h) m.streams }) id,
  ready (some (with_stream_id id f)),
  false,
)
poll_item m id h none =
    if h.needs_fin
    then (
      remove_stream m id,
      ready (some (with_stream_id id (fin (frame_from (Body.data []))))),
      false,
    )
    else (remove_stream m id, pending, true)

-- A task has answered. `unreachable!()` is a panic.
unfoldable pub poll_task : StreamManager → ℕ → Option Frame → Result Panic Polled
unfolding get_stream remove_stream
poll_task m id item = elim (get_stream m id) [
  | err _ ↦ err panic
  | ok h ↦
      if is_closed h.sink_closer && not h.needs_fin
      then ok (remove_stream m id, pending, true)
      else ok (poll_item m id h item)
]

-- Below the system frames: the next frame of a stream.
unfoldable pub poll_tasks : StreamManager → TaskPoll → Result Panic Polled
unfolding take_task
poll_tasks m pending = ok (m, pending, false)
poll_tasks m (ready none) = ok (m, pending, false)
poll_tasks m (ready (some (id, item))) =
    poll_task (record m { tasks = take_task id m.tasks }) id item

-- `poll_next` of a session that has not gone away: system frames come first.
unfoldable pub poll_awake : StreamManager → Poll (Option Frame) → TaskPoll → Result Panic Polled
poll_awake m (ready (some f)) task = ok (m, ready (some f), false)
poll_awake m (ready none) task = poll_tasks m task
poll_awake m pending task = poll_tasks m task

-- `poll_next`, for what the system channel and the tasks answer.
unfoldable pub poll_next : StreamManager → Poll (Option Frame) → TaskPoll → Result Panic Polled
unfolding poll_awake
poll_next m sys task =
    if m.sent_away
    then ok (m, ready none, false)
    else poll_awake (record m { new_streams = true }) sys task
