-- ===== src/StreamManager/Ids.antt =====
-- The ids of the streams that this side opens.
use ngrok_rs.Common.{
  ℕ, ◌+◌, ◌%◌, ◌≤◌, ◌<◌, ◌≡◌, ◌≢◌, refl, ap, ◌∙◌, arith, if◌then◌else◌, Bool, true, false, [], ◌∷◌,
  map, length, none, some, ok, OnOk-ok,
}
use ngrok_rs.Common.Maps.{lookup, insert, lookup-insert, lookup-remove}
use ngrok_rs.Errors.{stream_id_max}
use ngrok_rs.StreamManager.{
  StreamHandle, StreamManager, OpenReq, new, go_away, close_senders, create_stream, close_channel,
  take_id, opened,
}
use ngrok_rs.StreamManager.Polling.{sent}
use ngrok_rs.StreamManager.Effects.{
  Streams, PollEffect, kept, dropped, marked, missing, updated, Effect, poll_next-Effect,
  poll_send-SendEffect,
}
use ngrok_rs.StreamManager.Steps.{Step, creates, polls, sends, leaves, closes, finishes, ends}

-- A client's ids are odd, a server's even.
abbrev pub parity : Bool → ℕ
parity client = if client then 1 else 0

-- The peer opens streams with ids of its own parity.
abbrev pub IsHonest : Bool → {m m' : StreamManager} → Step m m' → Type 0
IsHonest client (creates (some id) req) = id % 2 ≢ parity client
IsHonest client _ = Unit {0}

pub data HonestReach (client : Bool) (start : StreamManager) : StreamManager → Type 0 where
  here : HonestReach client start start
  next :
      {m m' : StreamManager}
      → HonestReach client start m
      → (s : Step m m') → IsHonest client s
      → HonestReach client start m'

-- The last id of this side has its parity until the ids run out, and no stream has a higher one.
pub record LocalIds (client : Bool) (m : StreamManager) : Type 0 where
  pub bounded : m.last_local_id ≤ stream_id_max
  pub aligned : m.last_local_id < stream_id_max → m.last_local_id % 2 ≡ parity client
  pub fresh : (id : ℕ) → id % 2 ≡ parity client → m.last_local_id < id → lookup id m.streams ≡ none

PollEffect-none :
    {before after : Streams} (k : ℕ)
    → PollEffect before after
    → lookup k before ≡ none
    → lookup k after ≡ none
PollEffect-none {before = s} k (kept e) q = ap (lookup k) e ∙ q
PollEffect-none {before = s} k (dropped id h p e) q =
    ap (lookup k) e ∙ ground (arith, lookup-remove id k s)
PollEffect-none {before = s} k (marked id h f p e) q =
    ap (lookup k) e ∙ ground (arith, lookup-insert id k (sent f h) s)

insert_known :
    (id k : ℕ) (h h' : StreamHandle) (s : Streams)
    → lookup id s ≡ some h
    → lookup k s ≡ none
    → lookup k (insert id h' s) ≡ none
insert_known id k h h' s p q = ground (arith, lookup-insert id k h' s)

lookup_mapped :
    (k : ℕ) (s : Streams)
    → lookup k s ≡ none
    → lookup k (map (λ (entry : ℕ × StreamHandle). (entry.0, close_channel entry.1)) s) ≡ none
unfolding lookup
lookup_mapped k [] q = refl
lookup_mapped k ((j, h) ∷ s) q = ground (arith, lookup_mapped k s)

create_local :
    (client : Bool) (m : StreamManager) (req : OpenReq)
    → LocalIds client m
    → LocalIds client (create_stream m none req).0
unfolding create_stream
create_local client m req v = record {
  bounded = ground (arith, v.bounded);
  aligned = λ h. ground (arith, v.aligned);
  fresh = λ k p h. ground (
    arith,
    v.bounded,
    v.aligned,
    v.fresh k,
    lookup-insert (take_id m none).1 k (opened req) m.streams,
  );
}

create_remote :
    (client : Bool) (m : StreamManager) (id : ℕ) (req : OpenReq)
    → id % 2 ≢ parity client
    → LocalIds client m
    → LocalIds client (create_stream m (some id) req).0
unfolding create_stream
create_remote client m id req ne v = record {
  bounded = ground (arith, v.bounded);
  aligned = λ h. ground (arith, v.aligned);
  fresh = λ k p h. ground (arith, v.fresh k, lookup-insert id k (opened req) m.streams);
}

Step-LocalIds :
    (client : Bool) {m m' : StreamManager} (s : Step m m')
    → IsHonest client s
    → LocalIds client m
    → LocalIds client m'
unfolding go_away close_senders
Step-LocalIds client {m} (creates none req) h v = create_local client m req v
Step-LocalIds client {m} (creates (some id) req) h v = create_remote client m id req h v
Step-LocalIds client {m} (polls sys task p e) h v =
    let (effect, (_, local, _, _)) = OnOk-ok (Effect m) _ p e (poll_next-Effect m sys task) in
    record {
      bounded = omega (arith, local, v.bounded);
      aligned = λ lt. ground (arith, local, v.aligned);
      fresh = λ k p' lt. PollEffect-none k effect (v.fresh k p' (omega (arith, local)));
    }
Step-LocalIds client {m} (sends f shrink channel) h v =
    elim (poll_send-SendEffect m f shrink channel) [
      | missing q e ↦ rw e v
      | updated g q e ↦ rw e (record {
        bounded = v.bounded;
        aligned = v.aligned;
        fresh = λ k p lt. insert_known f.header.stream_id k g _ m.streams q (v.fresh k p lt);
      })
    ]
Step-LocalIds client (leaves e) h v = record {
  bounded = v.bounded;
  aligned = v.aligned;
  fresh = λ k p lt. unfold lookup in refl;
}
Step-LocalIds client {m} closes h v = record {
  bounded = v.bounded;
  aligned = v.aligned;
  fresh = λ k p lt. lookup_mapped k m.streams (v.fresh k p lt);
}
Step-LocalIds client {m} (finishes id g q) h v = record {
  bounded = v.bounded;
  aligned = v.aligned;
  fresh = λ k p lt. insert_known id k g _ m.streams q (v.fresh k p lt);
}
Step-LocalIds client {m} (ends id g e q) h v = record {
  bounded = v.bounded;
  aligned = v.aligned;
  fresh = λ k p lt. insert_known id k g _ m.streams q (v.fresh k p lt);
}

HonestReach-LocalIds :
    (limit : ℕ) (client : Bool) {m : StreamManager}
    → HonestReach client (new limit client) m
    → LocalIds client m
unfolding new
HonestReach-LocalIds limit true here = record {
  bounded = omega arith;
  aligned = λ h. refl;
  fresh = λ k p h. unfold lookup in refl;
}
HonestReach-LocalIds limit false here = record {
  bounded = omega arith;
  aligned = λ h. refl;
  fresh = λ k p h. unfold lookup in refl;
}
HonestReach-LocalIds limit client (next r s h) =
    Step-LocalIds client s h (HonestReach-LocalIds limit client r)

-- As long as the peer keeps to ids of its own parity and this side's ids have not run out, a
-- stream that this side opens gets the id two above the last one. It has this side's parity, a
-- header can hold it, and no stream of the manager has it.
pub local_id_fresh :
    (limit : ℕ) (client : Bool) (m : StreamManager) (req : OpenReq)
    → HonestReach client (new limit client) m
    → m.last_local_id + 2 ≤ stream_id_max
    → length m.streams ≢ m.stream_limit
    → ((create_stream m none req).1 ≡ ok (m.last_local_id + 2))
      × ((m.last_local_id + 2) % 2 ≡ parity client)
      × (lookup (m.last_local_id + 2) m.streams ≡ none)
unfolding create_stream
local_id_fresh limit client m req r room free =
    let v = HonestReach-LocalIds limit client r in
    let even : (m.last_local_id + 2) % 2 ≡ parity client = omega (arith, v.aligned (omega arith)) in
    (ground arith, even, v.fresh (m.last_local_id + 2) even (omega arith))

-- Once the ids have run out, every further stream that this side opens gets the highest id,
-- whatever stream has it: the new handle takes the place of the old one.
pub local_id_exhausted :
    (m : StreamManager) (req : OpenReq)
    → stream_id_max < m.last_local_id + 2
    → length m.streams ≢ m.stream_limit
    → ((create_stream m none req).1 ≡ ok stream_id_max)
      × ((create_stream m none req).0.last_local_id ≡ stream_id_max)
      × (lookup stream_id_max (create_stream m none req).0.streams ≡ some (opened req))
unfolding create_stream
local_id_exhausted m req out free = (
  ground arith,
  ground arith,
  ground (arith, lookup-insert stream_id_max stream_id_max (opened req) m.streams),
)
