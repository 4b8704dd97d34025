-- ===== src/StreamManager/Waiting.antt =====
-- The tasks of the manager of muxado/src/stream_manager.rs that wait for the streams' frames.
use ngrok_rs.Common.{
  ℕ, ◌+◌, ◌<◌, ◌≡◌, arith, ◌==◌, if◌then◌else◌, false, List, [], ◌∷◌, Option, none, some, ready,
}
use ngrok_rs.Common.Maps.{lookup}
use ngrok_rs.StreamManager.{StreamHandle, StreamManager, take_id}
use ngrok_rs.StreamManager.Polling.{TaskPoll, take_task}
use ngrok_rs.StreamManager.Steps.{Step, creates, polls}

-- How often an id stands in the list of tasks.
abbrev pub count : ℕ → List ℕ → ℕ
count k [] = 0
count k (t ∷ ts) = (if t == k then 1 else 0) + count k ts

abbrev pub held : Option StreamHandle → ℕ
held none = 0
held (some h) = 1

-- Until the session goes away there is one task for each stream and no other.
pub record TasksMatch (m : StreamManager) : Type 0 where
  pub matched : m.sent_away ≡ false → (k : ℕ) → count k m.tasks ≡ held (lookup k m.streams)

-- An answered task is one of those that were waiting.
abbrev pub IsWaiting : StreamManager → TaskPoll → Type 0
IsWaiting m (ready (some (id, item))) = 0 < count id m.tasks
IsWaiting m _ = Unit {0}

-- The peer starts no stream under the id of one that is there, this side's ids are not used up,
-- and only waiting tasks answer.
abbrev pub IsOrderly : {m m' : StreamManager} → Step m m' → Type 0
IsOrderly {m} (creates id req) = lookup (take_id m id).1 m.streams ≡ none
IsOrderly {m} (polls sys task p e) = IsWaiting m task
IsOrderly _ = Unit {0}

pub data OrderlyReach (start : StreamManager) : StreamManager → Type 0 where
  here : OrderlyReach start start
  next :
      {m m' : StreamManager}
      → OrderlyReach start m
      → (s : Step m m') → IsOrderly s
      → OrderlyReach start m'

pub count-take_task :
    (id k : ℕ) (ts : List ℕ)
    → 0 < count id ts
    → count k ts ≡ count k (take_task id ts) + (if id == k then 1 else 0)
unfolding take_task
count-take_task id k [] h = absurd (omega arith)
count-take_task id k (t ∷ ts) h = ground (arith, count-take_task id k ts)
