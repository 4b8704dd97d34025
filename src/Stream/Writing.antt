-- ===== src/Stream/Writing.antt =====
-- `poll_write`, `poll_flush` and `poll_shutdown` of muxado/src/stream.rs.
use ngrok_rs.Common.{
  ℕ, ◌%◌, ◌^◌, ◌==◌, if◌then◌else◌, min, true, false, [], length, take, none, some, Result, ok, err,
  ◌>>=◌, Panic, Poll, ready, pending,
}
use ngrok_rs.Constrained.{clamp}
use ngrok_rs.Errors.{Error, length_range}
use ngrok_rs.Frame.{Bytes, HeaderType, Body, Frame, frame_from, syn, fin}
use ngrok_rs.Window.{capacity, dec}
use ngrok_rs.StreamOutput.{poll_ready, start_send}
use ngrok_rs.Stream.{Stream, Outgoing, poll_recv_frame_type}

pub data ErrorKind : Type 0 where
  broken_pipe connection_reset : ErrorKind

-- `io::Error::new(kind, code)`
pub record IoError : Type 0 where
  pub kind : ErrorKind
  pub code : Error

abbrev pub IoPoll : Type 0 → Type 0
IoPoll A = Poll (Result IoError A)

-- `closed_err`
unfoldable pub closed_err : Stream → Error → Stream × IoError
closed_err s code = (
  record s { write_closed = some code },
  record { kind = ErrorKind.connection_reset; code = code },
)

abbrev pub reset_by {ℓ} : {A : Type ℓ} → Stream → Error → Stream × Poll (Result IoError A)
reset_by s code = let (s', e) = closed_err s code in (s', ready (err e))

-- How many of the bytes the next frame takes.
unfoldable pub send_len : Stream → Bytes → ℕ
unfolding clamp capacity
send_len s buf = min (capacity s.window) (clamp length_range (length buf % 2 ^ 32))

-- The frame of the first so many bytes, which opens the stream if nothing has yet.
unfoldable pub data_frame : Stream → Bytes → Frame
unfolding send_len frame_from syn
data_frame s buf =
    let frame = frame_from (Body.data (take (send_len s buf) buf)) in
    if s.needs_syn then syn frame else frame

-- The end of `poll_write`, when the channel has room.
unfoldable pub send_data : Stream → Bytes → Outgoing → Stream × IoPoll ℕ
unfolding data_frame start_send closed_err dec
send_data s buf out =
    let (fout, answer) = start_send s.fout (data_frame s buf) out.send in
    let s' = record s { needs_syn = false; fout = fout } in
    elim answer [
      | err e ↦ reset_by s' e
      | ok _ ↦
          (record s' { window = (dec s.window (send_len s buf)).0 }, ready (ok (send_len s buf)))
    ]

-- `poll_write`, from the wait for the channel on.
unfoldable pub write_ready : Stream → Bytes → Outgoing → Stream × IoPoll ℕ
unfolding poll_ready send_data
write_ready s buf out =
    let (fout, answer) = poll_ready s.fout out.room in
    let s' = record s { fout = fout } in
    elim answer [
      | pending ↦ (s', pending)
      | ready room ↦ elim room [ err e ↦ reset_by s' e | ok _ ↦ send_data s' buf out ]
    ]

unfoldable pub poll_write : Stream → ℕ → Bytes → Outgoing → Result Panic (Stream × IoPoll ℕ)
unfolding write_ready poll_recv_frame_type
poll_write s cx buf out = elim s.write_closed [
  | some code ↦ ok (s, ready (err (record { kind = ErrorKind.broken_pipe; code = code })))
  | none ↦ elim (capacity s.window == 0) [
    | false ↦ ok (write_ready s buf out)
    | true ↦
        poll_recv_frame_type HeaderType.wnd_inc cx (record s { write_waker = some cx })
        >>= λ (s', answer). elim answer [
          | pending ↦ ok (s', pending)
          | ready _ ↦ ok (write_ready s' buf out)
        ]
  ]
]

unfoldable pub poll_flush : Stream → Outgoing → Stream × IoPoll (Unit {0})
unfolding closed_err
poll_flush s out =
    let (fout, answer) = ngrok_rs.StreamOutput.poll_flush s.fout out.flush in
    let s' = record s { fout = fout } in
    elim answer [
      | pending ↦ (s', pending)
      | ready flushed ↦ elim flushed [ err e ↦ reset_by s' e | ok _ ↦ (s', ready (ok tt)) ]
    ]

-- The frame that `poll_shutdown` sends.
abbrev pub fin_frame : Frame
fin_frame = fin (frame_from (Body.data []))

-- The block of `poll_shutdown` for a stream that is not closed for writing yet.
unfoldable pub send_fin : Stream → Outgoing → Stream × IoPoll (Unit {0})
unfolding poll_ready start_send closed_err
send_fin s out =
    let (fout, answer) = poll_ready s.fout out.room in
    let s' = record s { fout = fout } in
    elim answer [
      | pending ↦ (s', pending)
      | ready room ↦ elim room [
        | err e ↦ reset_by s' e
        | ok _ ↦
            let (fout', sent) = start_send fout fin_frame out.send in
            let s'' = record s { fout = fout' } in
            elim sent [
              | err e ↦ reset_by s'' e
              | ok _ ↦ (record s'' { write_closed = some Error.stream_closed }, ready (ok tt))
            ]
      ]
    ]

unfoldable pub poll_shutdown : Stream → Outgoing → Stream × IoPoll (Unit {0})
unfolding send_fin poll_flush
poll_shutdown s out = elim s.write_closed [
  | some _ ↦ poll_flush s out
  | none ↦
      let (s', answer) = send_fin s out in
      elim answer [
        | pending ↦ (s', pending)
        | ready sent ↦ elim sent [ err e ↦ (s', ready (err e)) | ok _ ↦ poll_flush s' out ]
      ]
]
