-- ===== src/StreamManager/Steps.antt =====
-- The manager's life as a step relation: the calls of the session's two tasks, in any order, and
-- what the streams do to the cells that they share with it.
use ngrok_rs.Common.{ℕ, ◌≡◌, true, Option, some, ok, Poll}
use ngrok_rs.Common.Maps.{lookup, insert}
use ngrok_rs.Errors.{Error}
use ngrok_rs.Frame.{Frame}
use ngrok_rs.StreamOutput.{close_with}
use ngrok_rs.StreamManager.{
  StreamHandle, StreamManager, OpenReq, create_stream, go_away, close_senders,
}
use ngrok_rs.StreamManager.Polling.{TaskPoll, Polled, poll_next}
use ngrok_rs.StreamManager.Sending.{Channel, poll_send}

-- The session's reader marks the writer of a stream as closed after the peer's FIN.
abbrev pub mark_closed : ℕ → StreamHandle → StreamManager → StreamManager
mark_closed id h m = record m {
  streams = insert id (record h { data_write_closed = true }) m.streams;
}

-- The stream's own end stores an error in the shared cell.
abbrev pub close_cell : ℕ → StreamHandle → Error → StreamManager → StreamManager
close_cell id h e m = record m {
  streams = insert id (record h { sink_closer = close_with h.sink_closer e }) m.streams;
}

pub data Step (m : StreamManager) : StreamManager → Type 0 where
  creates : (id : Option ℕ) (req : OpenReq) → Step m (create_stream m id req).0
  polls :
      (sys : Poll (Option Frame)) (task : TaskPoll) (p : Polled)
      → poll_next m sys task ≡ ok p
      → Step m p.0
  sends : (f : Frame) (shrink : ℕ) (channel : Channel) → Step m (poll_send m f shrink channel).0
  leaves : (e : Error) → Step m (go_away m e).0
  closes : Step m (close_senders m)
  finishes :
      (id : ℕ) (h : StreamHandle) → lookup id m.streams ≡ some h → Step m (mark_closed id h m)
  ends :
      (id : ℕ) (h : StreamHandle) (e : Error)
      → lookup id m.streams ≡ some h
      → Step m (close_cell id h e m)

pub data Reach (start : StreamManager) : StreamManager → Type 0 where
  here : Reach start start
  next : {m m' : StreamManager} → Reach start m → Step m m' → Reach start m'
