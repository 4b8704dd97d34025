-- ===== src/StreamOutput.antt =====
-- muxado/src/stream_output.rs: the sending end of a stream, with a cell for the reason why it is
-- closed. The cell is shared with the stream manager; 0 means open. What the channel answers to a
-- poll or a send is an argument, and `sink` collects the frames that it took.
pub mod Closing
mod Runs
use ngrok_rs.Common.{
  ℕ, Bool, true, false, ◌==◌, if◌then◌else◌, List, [], ◌∷◌, ◌++◌, Result, ok, err, ◌>>=◌, Poll,
  ready, pending, not,
}
use ngrok_rs.Constrained.{mask}
use ngrok_rs.Errors.{Error, error_code_range, code_from_error, error_from_code}
use ngrok_rs.Frame.{Frame}

-- The error of the channel.
pub data SendError : Type 0 where
  send_error : SendError

-- `Ok(())`, an error, or still waiting, as the channel reports it.
abbrev pub SinkPoll : Type 0
SinkPoll = Poll (Result SendError (Unit {0}))

abbrev pub SenderPoll : Type 0
SenderPoll = Poll (Result Error (Unit {0}))

-- `SinkCloser::close_with`: an error is stored only if the cell holds none.
unfoldable pub close_with : ℕ → Error → ℕ
close_with code ty = if code == 0 then code_from_error ty else code

unfoldable pub check_closed : ℕ → Result Error (Unit {0})
unfolding mask
check_closed code =
    if not (code == 0) then err (error_from_code (mask error_code_range code)) else ok tt

unfoldable pub is_closed : ℕ → Bool
unfolding check_closed
is_closed code = elim (check_closed code) [ ok _ ↦ false | err _ ↦ true ]

pub record StreamSender : Type 0 where
  pub sink : List Frame
  pub closer : ℕ

-- `StreamSender::wrap`, around a channel that has taken no frame.
unfoldable pub wrap : StreamSender
wrap = record { sink = []; closer = 0 }

-- `close_with` on the sender's cell, with the answer that goes with it.
abbrev failed : StreamSender → StreamSender × SenderPoll
failed s = (
  record s { closer = close_with s.closer Error.session_closed },
  ready (err Error.session_closed),
)

-- What `poll_ready` and `poll_flush` make of the channel's answer.
answered : StreamSender → SinkPoll → StreamSender × SenderPoll
answered s (ready (ok _)) = (s, ready (ok tt))
answered s (ready (err _)) = failed s
answered s pending = (s, pending)

unfoldable pub poll_ready : StreamSender → SinkPoll → StreamSender × SenderPoll
unfolding answered
poll_ready s channel = elim (check_closed s.closer) [
  | err e ↦ (s, ready (err e))
  | ok _ ↦ answered s channel
]

-- `start_send`. The channel takes the item or reports an error.
unfoldable pub start_send :
    StreamSender → Frame → Result SendError (Unit {0}) → StreamSender × Result Error (Unit {0})
start_send s item channel = elim (check_closed s.closer) [
  | err e ↦ (s, err e)
  | ok _ ↦ elim channel [
    | ok _ ↦ (record s { sink = s.sink ++ (item ∷ []) }, ok tt)
    | err _ ↦
        (record s { closer = close_with s.closer Error.session_closed }, err Error.session_closed)
  ]
]

unfoldable pub poll_flush : StreamSender → SinkPoll → StreamSender × SenderPoll
unfolding answered
poll_flush s channel = elim (check_closed s.closer) [
  | err e ↦ (s, ready (err e))
  | ok _ ↦ answered s channel
]

-- The block of `poll_close`: flush the channel, then close it.
abbrev flush_and_close : SinkPoll → SinkPoll → SinkPoll
flush_and_close (ready (ok _)) close = close
flush_and_close (ready (err e)) close = ready (err e)
flush_and_close pending close = pending

-- `map_ok` and `map_err` of `poll_close`.
closed : StreamSender → SinkPoll → StreamSender × SenderPoll
closed s (ready (ok _)) =
    (record s { closer = close_with s.closer Error.stream_closed }, ready (ok tt))
closed s (ready (err _)) = failed s
closed s pending = (s, pending)

unfoldable pub poll_close : StreamSender → SinkPoll → SinkPoll → StreamSender × SenderPoll
unfolding closed
poll_close s flush close = elim (check_closed s.closer) [
  | err e ↦ (s, ready (err e))
  | ok _ ↦ closed s (flush_and_close flush close)
]
