-- ===== src/StreamManager/Effects.antt =====
-- What a call of the manager's operations can do to the map of streams.
use ngrok_rs.Common.{
  ℕ, ◌≡◌, refl, arith, inl, inr, ◌&&◌, not, true, Bool-cases, Option-cases, List, Option, none,
  some, ok, OnOk, OnOk-if, Poll, ready, pending,
}
use ngrok_rs.Common.Maps.{lookup, insert, remove}
use ngrok_rs.Frame.{Frame}
use ngrok_rs.StreamOutput.{is_closed}
use ngrok_rs.StreamManager.{StreamHandle, StreamManager, get_stream}
use ngrok_rs.StreamManager.Polling.{
  TaskPoll, Polled, take_task, sent, poll_item, poll_task, poll_tasks, poll_awake, poll_next,
}
use ngrok_rs.StreamManager.Sending.{Channel, handle_frame, judge, poll_send}

pub get_stream-lookup :
    (m : StreamManager) (id : ℕ) (h : StreamHandle)
    → get_stream m id ≡ ok h
    → lookup id m.streams ≡ some h
unfolding get_stream
get_stream-lookup m id h e = ground arith

pub lookup-get_stream :
    (m : StreamManager) (id : ℕ) (h : StreamHandle)
    → lookup id m.streams ≡ some h
    → get_stream m id ≡ ok h
unfolding get_stream
lookup-get_stream m id h e = rw (e, get_stream)

abbrev pub Streams : Type 0
Streams = List (ℕ × StreamHandle)

-- A poll leaves the streams alone, drops one, or marks one for the frame that it sent.
pub data PollEffect (before after : Streams) : Type 0 where
  kept : after ≡ before → PollEffect before after
  dropped :
      (id : ℕ) (h : StreamHandle)
      → lookup id before ≡ some h
      → after ≡ remove id before
      → PollEffect before after
  marked :
      (id : ℕ) (h : StreamHandle) (f : Frame)
      → lookup id before ≡ some h
      → after ≡ insert id (sent f h) before
      → PollEffect before after

-- What a poll never changes.
abbrev pub SameIds : StreamManager → StreamManager → Type 0
SameIds m m' =
    (m'.stream_limit ≡ m.stream_limit)
    × (m'.last_local_id ≡ m.last_local_id)
    × (m'.last_remote_id ≡ m.last_remote_id)
    × (m'.sent_away ≡ m.sent_away)

abbrev pub Effect : StreamManager → Polled → Type 0
Effect m p = PollEffect m.streams p.0.streams × SameIds m p.0

poll_item-Effect :
    (m : StreamManager) (id : ℕ) (h : StreamHandle) (item : Option Frame)
    → lookup id m.streams ≡ some h
    → Effect m (poll_item m id h item)
unfolding poll_item
poll_item-Effect m id h (some f) e = (marked id h f e refl, (refl, refl, refl, refl))
poll_item-Effect m id h none e = elim (Bool-cases h.needs_fin) [
  | inl q ↦ rw (q, poll_item) (dropped id h e refl, (refl, refl, refl, refl))
  | inr q ↦ rw (q, poll_item) (dropped id h e refl, (refl, refl, refl, refl))
]

poll_task-Effect :
    (m : StreamManager) (id : ℕ) (item : Option Frame) → OnOk (Effect m) (poll_task m id item)
unfolding poll_task
poll_task-Effect m id item = elim (Option-cases (lookup id m.streams)) [
  | inl q ↦ rw (q, poll_task, get_stream) tt
  | inr (h, q) ↦ elim (Bool-cases (is_closed h.sink_closer && not h.needs_fin)) [
    | inl shut ↦ rw (q, poll_task, get_stream, shut) (dropped id h q refl, (refl, refl, refl, refl))
    | inr used ↦ rw (q, poll_task, get_stream, used) (poll_item-Effect m id h item q)
  ]
]

poll_tasks-Effect : (m : StreamManager) (task : TaskPoll) → OnOk (Effect m) (poll_tasks m task)
unfolding poll_tasks
poll_tasks-Effect m pending = (kept refl, (refl, refl, refl, refl))
poll_tasks-Effect m (ready none) = (kept refl, (refl, refl, refl, refl))
poll_tasks-Effect m (ready (some (id, item))) =
    poll_task-Effect (record m { tasks = take_task id m.tasks }) id item

poll_awake-Effect :
    (m : StreamManager) (sys : Poll (Option Frame)) (task : TaskPoll)
    → OnOk (Effect m) (poll_awake m sys task)
unfolding poll_awake
poll_awake-Effect m (ready (some f)) task = (kept refl, (refl, refl, refl, refl))
poll_awake-Effect m (ready none) task = poll_tasks-Effect m task
poll_awake-Effect m pending task = poll_tasks-Effect m task

-- A poll keeps the ids, the limit and the mark of a session that has gone away, and has one of
-- three effects on the streams: none, one stream less, or one handle brought up to date.
pub poll_next-Effect :
    (m : StreamManager) (sys : Poll (Option Frame)) (task : TaskPoll)
    → OnOk (Effect m) (poll_next m sys task)
unfolding poll_next
poll_next-Effect m sys task =
    OnOk-if (Effect m) m.sent_away _ _ (kept refl, (refl, refl, refl, refl))
      (poll_awake-Effect (record m { new_streams = true }) sys task)

-- A poll of `send_to_stream` brings at most the handle of the frame's stream up to date.
pub data SendEffect (m : StreamManager) (f : Frame) (shrink : ℕ) (channel : Channel) : Type 0 where
  missing :
      lookup f.header.stream_id m.streams ≡ none
      → (poll_send m f shrink channel).0 ≡ m
      → SendEffect m f shrink channel
  updated :
      (h : StreamHandle)
      → lookup f.header.stream_id m.streams ≡ some h
      → (poll_send m f shrink channel).0 ≡ record m {
        streams =
            insert f.header.stream_id
              (judge f (handle_frame f shrink channel h).0 (handle_frame f shrink channel h).2).0
              m.streams;
      }
      → SendEffect m f shrink channel

pub poll_send-SendEffect :
    (m : StreamManager) (f : Frame) (shrink : ℕ) (channel : Channel) → SendEffect m f shrink channel
unfolding poll_send
poll_send-SendEffect m f shrink channel =
    elim (Option-cases (lookup f.header.stream_id m.streams)) [
      | inl q ↦ missing q (rw (q, poll_send))
      | inr (h, q) ↦ updated h q (rw (q, poll_send))
    ]
