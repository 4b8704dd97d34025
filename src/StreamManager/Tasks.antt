-- ===== src/StreamManager/Tasks.antt =====
-- `poll_next` of muxado/src/stream_manager.rs, its tasks and its `unreachable!()`.
use ngrok_rs.Common.{
  ℕ, ◌+◌, ◌<◌, ◌≡◌, refl, sym, ap, ◌∙◌, arith, ◌==◌, ◌&&◌, not, if◌then◌else◌, Bool, true, inl, inr,
  Option-cases, List, [], ◌∷◌, map, Option, none, some, Result, ok, err, Succeeds, Succeeds-if,
  Succeeds-ok, Panic, Poll, ready, pending,
}
use mathlib.Core.Path.{subst}
use ngrok_rs.Common.Maps.{lookup, insert, lookup-insert, lookup-remove}
use ngrok_rs.Frame.{Frame}
use ngrok_rs.StreamOutput.{is_closed}
use ngrok_rs.StreamManager.{
  StreamHandle, StreamManager, OpenReq, new, go_away, close_senders, create_stream, close_channel,
  take_id, opened, get_stream,
}
use ngrok_rs.StreamManager.Polling.{
  Polled, TaskPoll, take_task, poll_item, poll_task, poll_tasks, poll_awake, poll_next, sent,
}
use ngrok_rs.StreamManager.Effects.{missing, updated, poll_send-SendEffect}
use ngrok_rs.StreamManager.Steps.{Step, creates, polls, sends, leaves, closes, finishes, ends}
use ngrok_rs.StreamManager.Waiting.{
  count, held, TasksMatch, IsWaiting, IsOrderly, OrderlyReach, here, next, count-take_task,
}

poll_item-TasksMatch :
    (m : StreamManager) (id : ℕ) (h : StreamHandle) (item : Option Frame) (k : ℕ)
    → lookup id m.streams ≡ some h
    → count k m.tasks + (if id == k then 1 else 0) ≡ held (lookup k m.streams)
    → count k (poll_item m id h item).0.tasks ≡ held (lookup k (poll_item m id h item).0.streams)
unfolding poll_item
poll_item-TasksMatch m id h (some f) k q e = ground (arith, lookup-insert id k (sent f h) m.streams)
poll_item-TasksMatch m id h none k q e = ground (arith, lookup-remove id k m.streams)

-- A poll of a task that was waiting, for a manager without that task.
poll_task-TasksMatch :
    (m : StreamManager) (id : ℕ) (item : Option Frame) (h : StreamHandle)
    → lookup id m.streams ≡ some h
    → ((k : ℕ) → count k m.tasks + (if id == k then 1 else 0) ≡ held (lookup k m.streams))
    → Succeeds
        (λ p. (k : ℕ) → count k p.0.tasks ≡ held (lookup k p.0.streams))
        (poll_task m id item)
unfolding poll_task
poll_task-TasksMatch m id item h q e =
    rw (q, poll_task, get_stream)
      (Succeeds-if (λ p. (k : ℕ) → count k p.0.tasks ≡ held (lookup k p.0.streams))
        (is_closed h.sink_closer && not h.needs_fin) _ _
        (λ shut k. ground (arith, e k, lookup-remove id k m.streams))
        (λ used k. poll_item-TasksMatch m id h item k q (e k)))

waiting_handle :
    (m : StreamManager) (id : ℕ)
    → count id m.tasks ≡ held (lookup id m.streams)
    → 0 < count id m.tasks
    → (h : StreamHandle) × (lookup id m.streams ≡ some h)
waiting_handle m id e w = elim (Option-cases (lookup id m.streams)) [
  | inl q ↦ absurd (omega (arith, e, ap held q))
  | inr found ↦ found
]

poll_tasks-TasksMatch :
    (m : StreamManager) (task : TaskPoll)
    → IsWaiting m task
    → ((k : ℕ) → count k m.tasks ≡ held (lookup k m.streams))
    → Succeeds (λ p. (k : ℕ) → count k p.0.tasks ≡ held (lookup k p.0.streams)) (poll_tasks m task)
unfolding poll_tasks
poll_tasks-TasksMatch m pending w e = e
poll_tasks-TasksMatch m (ready none) w e = e
poll_tasks-TasksMatch m (ready (some (id, item))) w e =
    let (h, q) = waiting_handle m id (e id) w in
    poll_task-TasksMatch (record m { tasks = take_task id m.tasks }) id item h q
      (λ k. sym (count-take_task id k m.tasks w) ∙ e k)

poll_awake-TasksMatch :
    (m : StreamManager) (sys : Poll (Option Frame)) (task : TaskPoll)
    → IsWaiting m task
    → ((k : ℕ) → count k m.tasks ≡ held (lookup k m.streams))
    → Succeeds
        (λ p. (k : ℕ) → count k p.0.tasks ≡ held (lookup k p.0.streams))
        (poll_awake m sys task)
unfolding poll_awake
poll_awake-TasksMatch m (ready (some f)) task w e = e
poll_awake-TasksMatch m (ready none) task w e = poll_tasks-TasksMatch m task w e
poll_awake-TasksMatch m pending task w e = poll_tasks-TasksMatch m task w e

poll_next-TasksMatch :
    (m : StreamManager) (sys : Poll (Option Frame)) (task : TaskPoll)
    → IsWaiting m task
    → TasksMatch m
    → Succeeds (λ p. TasksMatch p.0) (poll_next m sys task)
unfolding poll_next
poll_next-TasksMatch m sys task w v =
    Succeeds-if (λ p. TasksMatch p.0) m.sent_away _ _ (λ away. v)
      (λ awake.
        weaken _
          (poll_awake-TasksMatch (record m { new_streams = true }) sys task w (v.matched awake)))
  where
    weaken :
        (r : Result Panic Polled)
        → Succeeds (λ p. (k : ℕ) → count k p.0.tasks ≡ held (lookup k p.0.streams)) r
        → Succeeds (λ p. TasksMatch p.0) r
    weaken (ok p) h = record { matched = λ _. h }
    weaken (err e) h = elim h [ ]

held_mapped :
    (k : ℕ) (s : List (ℕ × StreamHandle))
    → held (lookup k (map (λ (entry : ℕ × StreamHandle). (entry.0, close_channel entry.1)) s))
      ≡ held (lookup k s)
unfolding lookup
held_mapped k [] = refl
held_mapped k ((j, h) ∷ s) = ground (arith, held_mapped k s)

held_updated :
    (id k : ℕ) (h h' : StreamHandle) (s : List (ℕ × StreamHandle))
    → lookup id s ≡ some h
    → held (lookup k (insert id h' s)) ≡ held (lookup k s)
held_updated id k h h' s q = ground (arith, lookup-insert id k h' s)

create_stream-TasksMatch :
    (m : StreamManager) (id : Option ℕ) (req : OpenReq)
    → lookup (take_id m id).1 m.streams ≡ none
    → TasksMatch m
    → TasksMatch (create_stream m id req).0
unfolding create_stream
create_stream-TasksMatch m none req new v = record {
  matched = λ here k. ground (
    arith,
    v.matched,
    v.matched (ground arith) k,
    lookup-insert (take_id m none).1 k (opened req) m.streams,
  );
}
create_stream-TasksMatch m (some id) req new v = record {
  matched = λ here k.
      ground
        (arith, v.matched, v.matched (ground arith) k, lookup-insert id k (opened req) m.streams);
}

same_value : (p q : Polled) → ◌≡◌ {A = Result Panic Polled} (ok p) (ok q) → p ≡ q
same_value p q e = cc

Step-TasksMatch :
    {m m' : StreamManager} (s : Step m m') → IsOrderly s → TasksMatch m → TasksMatch m'
unfolding go_away close_senders
Step-TasksMatch {m} (creates id req) o v = create_stream-TasksMatch m id req o v
Step-TasksMatch {m} (polls sys task p e) o v =
    let (p', e', h) = Succeeds-ok (λ q. TasksMatch q.0) _ (poll_next-TasksMatch m sys task o v) in
    subst (λ q. TasksMatch q.0) (same_value p' p (sym e' ∙ e)) h
Step-TasksMatch {m} (sends f shrink channel) o v = elim (poll_send-SendEffect m f shrink channel) [
  | missing q e ↦ rw e v
  | updated g q e ↦ rw e (record {
    matched = λ here k. v.matched here k ∙ sym (held_updated f.header.stream_id k g _ m.streams q);
  })
]
Step-TasksMatch (leaves e) o v = record { matched = λ here k. absurd (cc) }
Step-TasksMatch {m} closes o v = record {
  matched = λ here k. v.matched here k ∙ sym (held_mapped k m.streams);
}
Step-TasksMatch {m} (finishes id g q) o v = record {
  matched = λ here k. v.matched here k ∙ sym (held_updated id k g _ m.streams q);
}
Step-TasksMatch {m} (ends id g e q) o v = record {
  matched = λ here k. v.matched here k ∙ sym (held_updated id k g _ m.streams q);
}

OrderlyReach-TasksMatch :
    (limit : ℕ) (client : Bool) {m : StreamManager}
    → OrderlyReach (new limit client) m
    → TasksMatch m
unfolding new
OrderlyReach-TasksMatch limit client here = record { matched = λ h k. unfold lookup in refl }
OrderlyReach-TasksMatch limit client (next r s o) =
    Step-TasksMatch s o (OrderlyReach-TasksMatch limit client r)

-- While no stream is started under an id that is in use, the manager's `poll_next` does not
-- reach its `unreachable!()`: whatever the calls before and whatever waiting task answers, the
-- poll has a result.
pub poll_next_total :
    (limit : ℕ) (client : Bool) (m : StreamManager) (sys : Poll (Option Frame)) (task : TaskPoll)
    → OrderlyReach (new limit client) m
    → IsWaiting m task
    → (p : Polled) × (poll_next m sys task ≡ ok p)
poll_next_total limit client m sys task r w =
    let (p, e, _) =
      Succeeds-ok (λ q. TasksMatch q.0) _
        (poll_next-TasksMatch m sys task w (OrderlyReach-TasksMatch limit client r)) in
    (p, e)
