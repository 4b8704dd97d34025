-- ===== src/StreamManager/Duplicates.antt =====
-- A second SYN for a stream that the manager of muxado/src/stream_manager.rs has.
use ngrok_rs.Common.{
  ℕ, ◌<◌, ◌≡◌, ◌≢◌, refl, ap, ◌∙◌, arith, false, List, ◌∷◌, length, Option, none, some, ok, err,
  panic, ready, pending,
}
use ngrok_rs.Common.Maps.{lookup, lookup-insert}
use ngrok_rs.Frame.{Frame}
use ngrok_rs.StreamManager.{StreamHandle, StreamManager, OpenReq, create_stream, opened}
use ngrok_rs.StreamManager.Polling.{Polled, take_task, poll_item, poll_next}
use ngrok_rs.StreamManager.Waiting.{count, IsWaiting}
use ngrok_rs.StreamManager.Answers.{
  without_task, poll_next_task, poll_task_found, poll_task_missing, end_removes,
}

create_stream_remote :
    (m : StreamManager) (id : ℕ) (req : OpenReq)
    → length m.streams ≢ m.stream_limit
    → (lookup id (create_stream m (some id) req).0.streams ≡ some (opened req))
      × ((create_stream m (some id) req).0.sent_away ≡ m.sent_away)
unfolding create_stream
create_stream_remote m id req free = ground (arith, lookup-insert id id (opened req) m.streams)

waiting_first :
    (m : StreamManager) (id : ℕ) (req : OpenReq)
    → length m.streams ≢ m.stream_limit
    → (create_stream m (some id) req).0.tasks ≡ id ∷ m.tasks
unfolding create_stream
waiting_first m id req free = ground arith

taken_first : (id : ℕ) (ts : List ℕ) → take_task id (id ∷ ts) ≡ ts
unfolding take_task
taken_first id ts = ground arith

end_tasks :
    (m : StreamManager) (id : ℕ) (h : StreamHandle) → (poll_item m id h none).0.tasks ≡ m.tasks
unfolding poll_item
end_tasks m id h = ground arith

-- A SYN for a stream that has a waiting task brings the manager down. The new handle takes the
-- place of the old one, and two tasks wait under one id. When one of them ends, its stream having
-- been dropped, the handle goes; the other is still waiting, and when it answers, whatever it
-- says, `poll_next` reaches its `unreachable!()` and panics.
pub duplicate_syn_panics :
    (m : StreamManager) (id : ℕ) (req : OpenReq) (item : Option Frame)
    → 0 < count id m.tasks
    → m.sent_away ≡ false
    → length m.streams ≢ m.stream_limit
    → let m' = (create_stream m (some id) req).0 in
      IsWaiting m' (ready (some (id, none)))
      × ((p : Polled) × (poll_next m' pending (ready (some (id, none))) ≡ ok p)
          × IsWaiting p.0 (ready (some (id, item)))
          × (poll_next p.0 pending (ready (some (id, item))) ≡ err panic))
unfolding opened
duplicate_syn_panics m id req item w awake free =
    let m' = (create_stream m (some id) req).0 in
    let (found, same) = create_stream_remote m id req free in
    let (gone, same') = end_removes (without_task m' id) id (opened req) in
    let p = poll_item (without_task m' id) id (opened req) none in
    let tasks = waiting_first m id req free in
    let left =
      end_tasks (without_task m' id) id (opened req)
      ∙ ap (take_task id) tasks
      ∙ taken_first id m.tasks in
    (
      omega (arith, ap (count id) tasks, w),
      (
        p,
        poll_next_task m' id none (same ∙ awake)
            ∙ poll_task_found (without_task m' id) id (opened req) none found refl,
        omega (arith, ap (count id) left, w),
        poll_next_task p.0 id item (same' ∙ same ∙ awake)
            ∙ poll_task_missing (without_task p.0 id) id item gone,
      ),
    )
