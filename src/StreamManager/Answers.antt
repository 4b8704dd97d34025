-- ===== src/StreamManager/Answers.antt =====
-- `poll_next` of muxado/src/stream_manager.rs when a task answers and no system frame is there.
use ngrok_rs.Common.{
  ℕ, ◌≡◌, arith, true, false, inl, inr, Option-cases, Option, none, some, ok, err, panic, ready,
  pending,
}
use ngrok_rs.Common.Maps.{lookup, insert, lookup-remove}
use ngrok_rs.Frame.{Frame, with_stream_id}
use ngrok_rs.StreamManager.{StreamHandle, StreamManager, get_stream}
use ngrok_rs.StreamManager.Polling.{
  Polled, take_task, poll_item, poll_task, poll_tasks, poll_next, sent,
}

abbrev pub without_task : StreamManager → ℕ → StreamManager
without_task m id = record m { tasks = take_task id m.tasks; new_streams = true }

pub poll_next_task :
    (m : StreamManager) (id : ℕ) (item : Option Frame)
    → m.sent_away ≡ false
    → poll_next m pending (ready (some (id, item))) ≡ poll_task (without_task m id) id item
unfolding poll_next poll_tasks
poll_next_task m id item awake = ground arith

pub poll_task_found :
    (m : StreamManager) (id : ℕ) (h : StreamHandle) (item : Option Frame)
    → lookup id m.streams ≡ some h
    → h.needs_fin ≡ true
    → poll_task m id item ≡ ok (poll_item m id h item)
unfolding poll_task get_stream
poll_task_found m id h item q fin = rw (q, poll_task, get_stream) (ground arith)

pub poll_task_missing :
    (m : StreamManager) (id : ℕ) (item : Option Frame)
    → lookup id m.streams ≡ none
    → poll_task m id item ≡ err panic
unfolding poll_task get_stream
poll_task_missing m id item q = rw (q, poll_task, get_stream)

pub end_removes :
    (m : StreamManager) (id : ℕ) (h : StreamHandle)
    → (lookup id (poll_item m id h none).0.streams ≡ none)
      × ((poll_item m id h none).0.sent_away ≡ m.sent_away)
unfolding poll_item
end_removes m id h = ground (arith, lookup-remove id id m.streams)

pub poll_task_frame :
    (m : StreamManager) (id : ℕ) (f : Frame) (p : Polled)
    → poll_task m id (some f) ≡ ok p
    → p.1 ≡ ready (some (with_stream_id id f))
    → (h : StreamHandle) × (lookup id m.streams ≡ some h)
      × (p.0.streams ≡ insert id (sent f h) m.streams)
unfolding poll_task get_stream poll_item
poll_task_frame m id f p e r = elim (Option-cases (lookup id m.streams)) [
  | inl q ↦ absurd (ground (arith, q))
  | inr (h, q) ↦ (h, q, ground (arith, q))
]
