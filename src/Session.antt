-- ===== src/Session.antt =====
-- muxado/src/session.rs: the two tasks of a session, the reader and the writer, on the stream
-- manager that they share. What the channels and the connection answer is an argument. A step of a
-- task is taken with nothing of the other task between its awaits.
pub mod Managed
pub mod Live
pub mod Refusals
pub mod Agreement
mod Runs
use ngrok_rs.Common.{
  ℕ, ◌==◌, if◌then◌else◌, not, Bool, true, false, List, [], ◌∷◌, ◌++◌, Option, none, some, Result,
  ok, err, ◌>>=◌, Panic, panic, Poll, ready, pending,
}
use ngrok_rs.Common.Maps.{lookup, insert}
use ngrok_rs.Constrained.{clamp}
use ngrok_rs.Errors.{Error, stream_id_range}
use ngrok_rs.Frame.{Bytes, HeaderType, Body, Frame, is_fin, is_syn, rst_frame, goaway}
use ngrok_rs.StreamOutput.{SendError, wrap}
use ngrok_rs.Stream.{Stream}
use ngrok_rs.StreamManager.{
  OpenReq, StreamManager, get_stream, create_stream, go_away, close_senders, is_terminated,
}
use ngrok_rs.StreamManager.Polling.{TaskPoll, Polled, poll_next}
use ngrok_rs.StreamManager.Sending.{Channel, SendResult, send_to_stream}

-- The options of `SessionBuilder`, without the connection.
pub record SessionBuilder : Type 0 where
  pub window : ℕ
  pub accept_queue_size : ℕ
  pub stream_limit : ℕ
  pub client : Bool

-- `SessionBuilder::new`
abbrev pub new : SessionBuilder
new = record { window = 0x40000; accept_queue_size = 64; stream_limit = 512; client = true }

unfoldable pub window_size : SessionBuilder → ℕ → SessionBuilder
window_size self size = record self { window = size }

unfoldable pub accept_queue_size : SessionBuilder → ℕ → SessionBuilder
accept_queue_size self size = record self { accept_queue_size = size }

unfoldable pub stream_limit : SessionBuilder → ℕ → SessionBuilder
stream_limit self count = record self { stream_limit = count }

unfoldable pub client : SessionBuilder → SessionBuilder
client self = record self { client = true }

unfoldable pub server : SessionBuilder → SessionBuilder
server self = record self { client = false }

-- `MuxadoOpen::open`, for how the channel of the requests took the request, and for what came back.
unfoldable pub open_muxado :
    Result (Unit {0}) (Unit {0}) → Result (Unit {0}) (Result Error Stream) → Result Error Stream
open_muxado (err _) resp = err Error.session_closed
open_muxado (ok _) (err _) = err Error.session_closed
open_muxado (ok _) (ok r) = r

-- What the reader keeps: what the system channel and the accept channel took, and the manager.
pub record Reader : Type 0 where
  pub sys_tx : List Frame
  pub accept_tx : List Stream
  pub window : ℕ
  pub manager : StreamManager
  pub last_stream_processed : ℕ

-- What the writer keeps: the frames that the connection took, and the manager.
pub record Writer : Type 0 where
  pub manager : StreamManager
  pub window : ℕ
  pub io : List Frame

-- `start`: the two tasks on one new manager.
unfoldable pub start : SessionBuilder → Reader × Writer
unfolding clamp
start b =
    let manager = ngrok_rs.StreamManager.new b.stream_limit b.client in
    (
      record {
        sys_tx = [];
        accept_tx = [];
        window = b.window;
        manager = manager;
        last_stream_processed = clamp stream_id_range 0;
      },
      record { manager = manager; window = b.window; io = [] },
    )

-- `OpenReq::create`: the manager's end and the stream's, with new channels between them.
unfoldable pub create : ℕ → Bool → OpenReq × Stream
unfolding wrap
create window needs_syn = (
  record { closer = wrap.closer; window = window },
  ngrok_rs.Stream.new wrap (record { queue = []; ended = false }) window needs_syn,
)

-- What the channels answer to the reader in one `handle_frame`.
pub record Answers : Type 0 where
  pub accept : Result SendError (Unit {0})
  pub sys : Result SendError (Unit {0})
  pub stream : List Channel

abbrev pub Handled : Type 0
Handled = Reader × SendResult

-- `if frame.is_syn()` of `handle_frame`: a new stream for the accept channel.
unfoldable pub accept_syn : Reader → Frame → Answers → Reader × Result Error (Unit {0})
unfolding create create_stream is_syn
accept_syn r f answers =
    if is_syn f
    then (let (req, stream) = create r.window false in
        let (manager, created, _) = create_stream r.manager (some f.header.stream_id) req in
        let r' = record r { manager = manager } in
        elim created [
          | err e ↦ (r', err e)
          | ok _ ↦ elim answers.accept [
            | err _ ↦ (r', err Error.session_closed)
            | ok _ ↦ (record r' { accept_tx = r'.accept_tx ++ (stream ∷ []) }, ok tt)
          ]
        ])
    else (r, ok tt)

-- A frame for the system channel; the error is the one that a closed channel becomes.
unfoldable pub send_sys : Frame → Error → Answers → Reader → Handled
send_sys f e answers r = elim answers.sys [
  | err _ ↦ (r, ready (err e))
  | ok _ ↦ (record r { sys_tx = r.sys_tx ++ (f ∷ []) }, ready (ok tt))
]

-- `handle.data_write_closed = true`, if the manager has the stream.
unfoldable pub close_data_write : ℕ → StreamManager → StreamManager
unfolding get_stream
close_data_write id m = elim (get_stream m id) [
  | err _ ↦ m
  | ok h ↦ record m { streams = insert id (record h { data_write_closed = true }) m.streams }
]

-- A frame that belongs to a stream.
unfoldable pub to_stream : Reader → Frame → Answers → Handled
unfolding send_sys close_data_write send_to_stream is_fin
to_stream r f answers =
    let id = f.header.stream_id in
    let (manager, answer) = send_to_stream r.manager f answers.stream in
    let r' = record r { manager = manager } in
    elim answer [
      | pending ↦ (r', pending)
      | ready result ↦ elim result [
        | err e ↦ send_sys (rst_frame id e) Error.session_closed answers r'
        | ok _ ↦ (
          record r' {
            last_stream_processed = id;
            manager = if is_fin f then close_data_write id manager else manager;
          },
          ready (ok tt),
        )
      ]
    ]

-- "invalid frame"
abbrev pub invalid_frame : Bytes
invalid_frame = 105 ∷ 110 ∷ 118 ∷ 97 ∷ 108 ∷ 105 ∷ 100 ∷ 32 ∷ 102 ∷ 114 ∷ 97 ∷ 109 ∷ 101 ∷ []

-- `if let Body::GoAway { error, .. } = frame.body`. `unreachable!()` is a panic.
unfoldable pub leave : Reader → Body → Result Panic Handled
leave r (Body.go_away _ error _) =
    ok (record r { manager = (go_away r.manager error).0 }, ready (err Error.remote_gone_away))
leave r _ = err panic

-- `match typ` of `handle_frame`.
unfoldable pub dispatch : Reader → Frame → Answers → HeaderType → Result Panic Handled
unfolding to_stream send_sys leave
dispatch r f answers HeaderType.data = ok (to_stream r f answers)
dispatch r f answers HeaderType.rst = ok (to_stream r f answers)
dispatch r f answers HeaderType.wnd_inc = ok (to_stream r f answers)
dispatch r f answers HeaderType.go_away = leave r f.body
dispatch r f answers (HeaderType.invalid _) = ok (
    send_sys (goaway r.last_stream_processed Error.protocol invalid_frame) Error.stream_closed
      answers r)

unfoldable pub handle_frame : Reader → Frame → Answers → Result Panic Handled
unfolding accept_syn dispatch
handle_frame r f answers =
    let (r', accepted) = accept_syn r f answers in
    elim accepted [ err e ↦ ok (r', ready (err e)) | ok _ ↦ dispatch r' f answers f.header.typ ]

-- What `self.io.try_next()` gives: a frame, with the answers for its handling, or that there is
-- none to come, by the end of the connection or an error of it.
pub data Incoming : Type 0 where
  frame : Frame → Answers → Incoming
  last : Incoming

-- The end of `Reader::run`: the loop has an error.
unfoldable pub finish : Reader → Handled
unfolding close_senders
finish r = (record r { manager = close_senders r.manager }, ready (err Error.session_closed))

-- `Reader::run`, over what the connection gives.
unfoldable pub run : Reader → List Incoming → Result Panic Handled
unfolding handle_frame finish
run r [] = ok (r, pending)
run r (last ∷ rest) = ok (finish r)
run r (frame f answers ∷ rest) = handle_frame r f answers >>= λ (r', answer).
    let later = run r' rest in
    elim answer [
      | pending ↦ ok (r', pending)
      | ready result ↦ elim result [ err _ ↦ ok (finish r') | ok _ ↦ later ]
    ]

-- A turn of the `select!` of `Writer::run`: the manager's next frame, with what its channels say
-- and what the connection answers, or a request for a new stream.
pub data Turn : Type 0 where
  next : Poll (Option Frame) → TaskPoll → Result SendError (Unit {0}) → Turn
  open_req : Turn

-- What the turn gives: the stream of an open request, or that the task ends.
pub data Outcome : Type 0 where
  goes_on : Outcome
  responds : Result Error Stream → Outcome
  ends : Result Error (Unit {0}) → Outcome

-- `self.io.send(frame)` for a frame that the manager gave.
unfoldable pub write_frame :
    Writer → Result SendError (Unit {0}) → Poll (Option Frame) → Writer × Outcome
write_frame w io pending = (w, goes_on)
write_frame w io (ready none) = (w, goes_on)
write_frame w (err _) (ready (some f)) = (w, ends (err Error.session_closed))
write_frame w (ok _) (ready (some f)) = (record w { io = w.io ++ (f ∷ []) }, goes_on)

unfoldable pub open_stream : Writer → Writer × Outcome
unfolding create create_stream
open_stream w =
    let (req, stream) = create w.window true in
    let (manager, created, _) = create_stream w.manager none req in
    (record w { manager = manager }, responds (elim created [ err e ↦ err e | ok _ ↦ ok stream ]))

unfoldable pub write_turn : Writer → Turn → Result Panic (Writer × Outcome)
unfolding write_frame open_stream
write_turn w (next sys task io) =
    poll_next w.manager sys task >>= λ p. ok (write_frame (record w { manager = p.0 }) io p.1)
write_turn w open_req = ok (open_stream w)
