-- ===== src/StreamManager/Sending.antt =====
-- `send_to_stream` of muxado/src/stream_manager.rs: a frame from the peer to its stream.
use ngrok_rs.Common.{
  ℕ, ◌-◌, ◌==◌, leb, if◌then◌else◌, Bool, true, false, not, ◌&&◌, ◌||◌, List, [], ◌∷◌, ◌++◌, length,
  none, some, Result, ok, err, Poll, ready, pending,
}
use ngrok_rs.Common.Maps.{lookup, insert}
use ngrok_rs.Errors.{Error}
use ngrok_rs.Frame.{HeaderType, Body, Frame, body_len, is_fin}
use ngrok_rs.StreamOutput.{SendError, SinkPoll, close_with}
use ngrok_rs.StreamManager.{StreamHandle, StreamManager}

-- What the channel to a stream answers: when polled for room, and when a frame is sent.
pub record Channel : Type 0 where
  pub room : SinkPoll
  pub send : Result SendError (Unit {0})

abbrev pub SendResult : Type 0
SendResult = Poll (Result Error (Unit {0}))

-- `typ == HeaderType::Data`
unfoldable pub is_data : HeaderType → Bool
is_data HeaderType.data = true
is_data _ = false

-- How far a data frame shrinks the window.
unfoldable pub data_len : Body → ℕ
data_len (Body.data bs) = length bs
data_len _ = 0

-- `frame.is_fin() && frame.body.len() == 0`
unfoldable pub is_bare_fin : Frame → Bool
unfolding is_fin body_len
is_bare_fin f = is_fin f && body_len f.body == 0

-- Close all the writers of a stream with this error.
unfoldable pub shut : Error → StreamHandle → StreamHandle
shut e h = record h {
  sink_closer = close_with h.sink_closer e;
  data_write_closed = true;
  needs_fin = false;
}

-- The channel takes the frame.
abbrev deliver : Frame → StreamHandle → StreamHandle
deliver f h = record h {
  to_stream = record (h.to_stream) { taken = h.to_stream.taken ++ (f ∷ []) };
}

-- The end of `handle_frame`: wait for room, send, and forgive a failure to send a bare FIN.
unfoldable pub send_frame : Frame → Channel → StreamHandle → StreamHandle × SendResult
unfolding is_bare_fin
send_frame f channel h = elim channel.room [
  | pending ↦ (h, pending)
  | ready room ↦ elim room [
    | err _ ↦ (h, ready (if is_bare_fin f then ok tt else err Error.stream_closed))
    | ok _ ↦ elim channel.send [
      | err _ ↦ (h, ready (if is_bare_fin f then ok tt else err Error.stream_closed))
      | ok _ ↦ (deliver f h, ready (ok tt))
    ]
  ]
]

-- The closure `handle_frame` past the test for a closed writer: the handle, what is still to be
-- taken off the window, and the answer.
unfoldable pub handle_body :
    Body → Frame → ℕ → Channel → StreamHandle → StreamHandle × ℕ × SendResult
unfolding shut send_frame
handle_body (Body.rst e) f shrink channel h = (shut e h, shrink, ready (ok tt))
handle_body _ f shrink channel h =
    if leb shrink h.window
    then (let (h', answer) = send_frame f channel (record h { window = h.window - shrink }) in
        (h', 0, answer))
    else (h, shrink, ready (err Error.flow_control))

unfoldable pub handle_frame : Frame → ℕ → Channel → StreamHandle → StreamHandle × ℕ × SendResult
unfolding handle_body is_data
handle_frame f shrink channel h =
    if is_data f.header.typ && h.data_write_closed
    then (h, shrink, ready (err Error.stream_closed))
    else handle_body f.body f shrink channel h

-- What `send_to_stream` makes of the closure's answer. Only the errors of data count, and they
-- close the stream's writers.
unfoldable pub judge : Frame → StreamHandle → SendResult → StreamHandle × SendResult
unfolding shut is_data is_bare_fin
judge f h pending = (h, pending)
judge f h (ready (ok _)) = (h, ready (ok tt))
judge f h (ready (err e)) =
    if is_data f.header.typ && not (is_bare_fin f)
    then (shut Error.stream_closed h, ready (err e))
    else (h, ready (ok tt))

-- One poll of `send_to_stream` that holds the lock: the manager, what is still to be taken off
-- the window, and the answer.
unfoldable pub poll_send : StreamManager → Frame → ℕ → Channel → StreamManager × ℕ × SendResult
unfolding judge is_data is_bare_fin
poll_send m f shrink channel = elim (lookup f.header.stream_id m.streams) [
  | none ↦ (
    m,
    shrink,
    ready (if not (is_data f.header.typ) || is_bare_fin f then ok tt else err Error.stream_closed),
  )
  | some h ↦
      let (h', shrink', answer) = handle_frame f shrink channel h in
      let (h'', result) = judge f h' answer in
      (record m { streams = insert f.header.stream_id h'' m.streams }, shrink', result)
]

-- The polls of one `send_to_stream` in turn, for what the channel answers each time, with nothing
-- else between them. The answer is pending while the channel's answers last.
unfoldable pub send_polls : StreamManager → Frame → ℕ → List Channel → StreamManager × SendResult
send_polls m f shrink [] = (m, pending)
send_polls m f shrink (channel ∷ rest) =
    let (m', shrink', answer) = poll_send m f shrink channel in
    let later = send_polls m' f shrink' rest in
    elim answer [ pending ↦ later | ready r ↦ (m', ready r) ]

-- `send_to_stream`: frames that no stream may see are refused before the first poll.
unfoldable pub send_to_stream : StreamManager → Frame → List Channel → StreamManager × SendResult
unfolding data_len
send_to_stream m f channels = elim f.body [
  | Body.go_away _ _ _ ↦ (m, ready (err Error.internal))
  | Body.invalid _ _ ↦ (m, ready (err Error.internal))
  | Body.rst _ ↦ send_polls m f (data_len f.body) channels
  | Body.data _ ↦ send_polls m f (data_len f.body) channels
  | Body.wnd_inc _ ↦ send_polls m f (data_len f.body) channels
]
