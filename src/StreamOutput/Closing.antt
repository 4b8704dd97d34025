-- ===== src/StreamOutput/Closing.antt =====
-- The closing of a stream's sending end, from either side of the shared cell.
use ngrok_rs.Common.{
  ℕ, true, ◌==◌, ◌≡◌, ◌≢◌, refl, arith, List, [], ◌∷◌, ◌++◌, Result, ok, err, ready, pending, inl,
  inr, Result-cases,
}
use ngrok_rs.Errors.{Error, code_from_error, error_from_code}
use ngrok_rs.Frame.{Frame}
use ngrok_rs.StreamOutput.{
  StreamSender, SinkPoll, SenderPoll, SendError, close_with, check_closed, is_closed, answered,
  poll_ready, start_send, poll_flush, poll_close,
}

code_zero : (e : Error) → (code_from_error e == 0) ≡ true → e ≡ Error.none
unfolding code_from_error
code_zero Error.none h = refl
code_zero _ h = cc

-- The first error that the cell is closed with is the one that it reports, and later ones change
-- nothing.
pub check_closed-close_with :
    (first later : Error)
    → first ≢ Error.none
    → (check_closed (close_with 0 first) ≡ err first)
      × (is_closed (close_with 0 first) ≡ true)
      × (close_with (close_with 0 first) later ≡ close_with 0 first)
unfolding check_closed close_with is_closed code_from_error error_from_code
check_closed-close_with Error.none later h = absurd (h refl)
check_closed-close_with _ later h = (refl, refl, refl)

open_cell : (code : ℕ) → check_closed code ≡ ok tt → code ≡ 0
unfolding check_closed
open_cell code h = ground arith

-- Closing an open cell with a real error leaves that error in it.
pub closed_cell :
    (code : ℕ) (e : Error)
    → e ≢ Error.none
    → check_closed code ≡ ok tt
    → check_closed (close_with code e) ≡ err e
closed_cell code e ne h = rw (open_cell code h) (check_closed-close_with e e ne).0

-- A sender whose cell holds an error answers every operation with it, whatever the channel would
-- say, and takes no frame.
pub closed_sender :
    (s : StreamSender) (e : Error) (f : Frame) (channel close : SinkPoll)
    (r : Result SendError (Unit {0}))
    → check_closed s.closer ≡ err e
    → (poll_ready s channel ≡ (s, ready (err e)))
      × (start_send s f r ≡ (s, err e))
      × (poll_flush s channel ≡ (s, ready (err e)))
      × (poll_close s channel close ≡ (s, ready (err e)))
unfolding poll_ready start_send poll_flush poll_close
closed_sender s e f channel close r h =
    (rw (h, poll_ready), rw (h, start_send), rw (h, poll_flush), rw (h, poll_close))

-- The sender and its answer agree: after an error the cell holds that error, and after a success
-- of any operation but `poll_close` the cell is as it was.
abbrev pub Agrees : StreamSender → StreamSender → Result Error (Unit {0}) → Type 0
Agrees s s' (ok _) = s'.closer ≡ s.closer
Agrees s s' (err e) = check_closed s'.closer ≡ err e

abbrev pub AgreesPoll : StreamSender → StreamSender → SenderPoll → Type 0
AgreesPoll s s' pending = s' ≡ s
AgreesPoll s s' (ready r) = Agrees s s' r

-- What the channel holds after a send with this answer.
abbrev pub sent_by : StreamSender → Frame → Result Error (Unit {0}) → List Frame
sent_by s f (ok _) = s.sink ++ (f ∷ [])
sent_by s f (err _) = s.sink

answered_sink : (s : StreamSender) (channel : SinkPoll) → (answered s channel).0.sink ≡ s.sink
unfolding answered
answered_sink s (ready (ok _)) = refl
answered_sink s (ready (err _)) = refl
answered_sink s pending = refl

answered-AgreesPoll :
    (s : StreamSender) (channel : SinkPoll)
    → check_closed s.closer ≡ ok tt
    → AgreesPoll s (answered s channel).0 (answered s channel).1
unfolding answered
answered-AgreesPoll s (ready (ok _)) h = refl
answered-AgreesPoll s (ready (err _)) h = closed_cell s.closer Error.session_closed (λ e. cc) h
answered-AgreesPoll s pending h = refl

pub poll_flush_sink :
    (s : StreamSender) (channel : SinkPoll) → (poll_flush s channel).0.sink ≡ s.sink
unfolding poll_flush
poll_flush_sink s channel = elim (Result-cases (check_closed s.closer)) [
  | inl (_, h) ↦ rw (h, poll_flush) (answered_sink s channel)
  | inr (e, h) ↦ rw (h, poll_flush)
]

start_send_open :
    (s : StreamSender) (f : Frame) (r : Result SendError (Unit {0}))
    → check_closed s.closer ≡ ok tt
    → Agrees s (start_send s f r).0 (start_send s f r).1
      × ((start_send s f r).0.sink ≡ sent_by s f (start_send s f r).1)
unfolding start_send
start_send_open s f (ok _) h = rw (h, start_send) (refl, refl)
start_send_open s f (err _) h =
    rw (h, start_send) (closed_cell s.closer Error.session_closed (λ e. cc) h, refl)

-- Every operation keeps the sender and its answer in step: an error that is answered is the one
-- that the cell holds from then on, and while nothing fails the cell stays as it is. `start_send`
-- hands the channel the frame exactly when it reports success; the polls hand it nothing.
pub sender-Agrees :
    (s : StreamSender) (f : Frame) (channel : SinkPoll) (r : Result SendError (Unit {0}))
    → AgreesPoll s (poll_ready s channel).0 (poll_ready s channel).1
      × AgreesPoll s (poll_flush s channel).0 (poll_flush s channel).1
      × Agrees s (start_send s f r).0 (start_send s f r).1
      × ((start_send s f r).0.sink ≡ sent_by s f (start_send s f r).1)
      × ((poll_ready s channel).0.sink ≡ s.sink)
unfolding poll_ready poll_flush
sender-Agrees s f channel r = elim (Result-cases (check_closed s.closer)) [
  | inl (_, h) ↦ (
    rw (h, poll_ready) (answered-AgreesPoll s channel h),
    rw (h, poll_flush) (answered-AgreesPoll s channel h),
    (start_send_open s f r h).0,
    (start_send_open s f r h).1,
    rw (h, poll_ready) (answered_sink s channel),
  )
  | inr (e, h) ↦ (
    rw (h, poll_ready) h,
    rw (h, poll_flush) h,
    rw ((closed_sender s e f channel channel r h).1) h,
    rw ((closed_sender s e f channel channel r h).1),
    rw (h, poll_ready),
  )
]
