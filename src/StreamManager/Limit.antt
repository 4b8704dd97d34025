-- ===== src/StreamManager/Limit.antt =====
-- The limit on the number of streams.
use ngrok_rs.Common.{
  ℕ, ◌≤◌, ◌<◌, ◌≡◌, refl, ap, ◌∙◌, arith, Bool, false, List, [], ◌∷◌, map, length, Option, none,
  some, ok, err, OnOk-ok,
}
use ngrok_rs.Common.Maps.{length-insert_le, length-insert_old, length-remove_le}
use ngrok_rs.Errors.{Error}
use ngrok_rs.Frame.{Frame}
use ngrok_rs.StreamManager.{
  StreamManager, OpenReq, new, go_away, close_senders, create_stream, take_id, opened,
}
use ngrok_rs.StreamManager.Polling.{Polled, sent}
use ngrok_rs.StreamManager.Sending.{Channel, poll_send}
use ngrok_rs.StreamManager.Effects.{
  Streams, PollEffect, kept, dropped, marked, missing, updated, Effect, poll_next-Effect,
  poll_send-SendEffect,
}
use ngrok_rs.StreamManager.Steps.{
  Step, creates, polls, sends, leaves, closes, finishes, ends, Reach, here, next,
}

-- The number of streams is at most `limit`, which is the manager's.
abbrev pub WithinLimit : ℕ → StreamManager → Type 0
WithinLimit limit m = (length m.streams ≤ limit) × (m.stream_limit ≡ limit)

length-map {ℓ κ} :
    {A : Type ℓ} {B : Type κ} (f : A → B) (xs : List A) → length (map f xs) ≡ length xs
length-map f [] = refl
length-map f (x ∷ xs) = omega (arith, length-map f xs)

length-close_senders : (m : StreamManager) → length (close_senders m).streams ≡ length m.streams
unfolding close_senders
length-close_senders m = length-map _ m.streams

create_stream-WithinLimit :
    (limit : ℕ) (m : StreamManager) (id : Option ℕ) (req : OpenReq)
    → WithinLimit limit m
    → WithinLimit limit (create_stream m id req).0
unfolding create_stream
create_stream-WithinLimit limit m none req h =
    ground (arith, length-insert_le (take_id m none).1 (opened req) m.streams)
create_stream-WithinLimit limit m (some id) req h =
    ground (arith, length-insert_le id (opened req) m.streams)

PollEffect-length :
    {before after : Streams} → PollEffect before after → length after ≤ length before
PollEffect-length {before = s} (kept e) = omega (arith, ap length e)
PollEffect-length {before = s} (dropped id h q e) =
    omega (arith, ap length e, length-remove_le id s)
PollEffect-length {before = s} (marked id h f q e) =
    omega (arith, ap length e, length-insert_old id (sent f h) h s q)

Effect-WithinLimit :
    (limit : ℕ) (m : StreamManager) (p : Polled)
    → Effect m p
    → WithinLimit limit m
    → WithinLimit limit p.0
Effect-WithinLimit limit m p (effect, (same, _, _, _)) h =
    (omega (arith, PollEffect-length effect), same ∙ h.1)

poll_send-WithinLimit :
    (limit : ℕ) (m : StreamManager) (f : Frame) (shrink : ℕ) (channel : Channel)
    → WithinLimit limit m
    → WithinLimit limit (poll_send m f shrink channel).0
poll_send-WithinLimit limit m f shrink channel h = elim (poll_send-SendEffect m f shrink channel) [
  | missing q e ↦ rw e h
  | updated g q e ↦ rw e (omega (arith, length-insert_old f.header.stream_id _ g m.streams q), h.1)
]

Step-WithinLimit :
    (limit : ℕ) {m m' : StreamManager} → Step m m' → WithinLimit limit m → WithinLimit limit m'
unfolding go_away close_senders
Step-WithinLimit limit {m} (creates id req) h = create_stream-WithinLimit limit m id req h
Step-WithinLimit limit {m} (polls sys task p e) h =
    Effect-WithinLimit limit m p (OnOk-ok (Effect m) _ p e (poll_next-Effect m sys task)) h
Step-WithinLimit limit {m} (sends f shrink channel) h =
    poll_send-WithinLimit limit m f shrink channel h
Step-WithinLimit limit (leaves e) h = (omega arith, h.1)
Step-WithinLimit limit {m} closes h = (omega (arith, length-close_senders m), h.1)
Step-WithinLimit limit {m} (finishes id g q) h =
    (omega (arith, length-insert_old id _ g m.streams q), h.1)
Step-WithinLimit limit {m} (ends id g e q) h =
    (omega (arith, length-insert_old id _ g m.streams q), h.1)

Reach-WithinLimit :
    (limit : ℕ) (client : Bool) {m : StreamManager}
    → Reach (new limit client) m
    → WithinLimit limit m
unfolding new
Reach-WithinLimit limit client here = (omega arith, refl)
Reach-WithinLimit limit client (next r s) =
    Step-WithinLimit limit s (Reach-WithinLimit limit client r)

-- However the calls on a manager are ordered and whatever the channels answer, it never has more
-- streams than its limit. A new stream is refused, and the manager left as it is, exactly when
-- the limit is reached.
pub stream_limit_kept :
    (limit : ℕ) (client : Bool) (m : StreamManager) (id : Option ℕ) (req : OpenReq)
    → Reach (new limit client) m
    → (length m.streams ≤ limit)
      × (length m.streams ≡ limit
          → create_stream m id req ≡ (m, err Error.streams_exhausted, false))
      × (length m.streams < limit → (new_id : ℕ) × ((create_stream m id req).1 ≡ ok new_id))
unfolding create_stream
stream_limit_kept limit client m id req r =
    let (few, same) = Reach-WithinLimit limit client r in
    (few, λ full. ground arith, λ room. ((take_id m id).1, ground arith))
