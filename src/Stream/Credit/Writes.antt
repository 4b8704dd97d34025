-- ===== src/Stream/Credit/Writes.antt =====
-- The bytes that a stream may send, under the writing operations of muxado/src/stream.rs.
use ngrok_rs.Common.{
  ℕ, ◌≤◌, ◌==◌, ◌≡◌, refl, ap, ◌∙◌, inl, inr, arith, Bool-cases, length, take, length-take,
  Option-cases, some, Result, ok, err, OnOk, OnOk-bind, OnOk-sym, ◌>>=◌, Result-cases, Poll-cases,
  Panic, Poll, ready, pending,
}
use ngrok_rs.Errors.{length_max}
use ngrok_rs.Frame.Lengths.{frame_from_header}
use ngrok_rs.Frame.{Bytes, HeaderType, Body, frame_from, syn, fin}
use ngrok_rs.Window.{capacity, dec}
use ngrok_rs.StreamOutput.{
  SendError, SinkPoll, StreamSender, wrap, close_with, check_closed, poll_ready, start_send,
}
use ngrok_rs.Stream.{Stream, Outgoing, poll_recv_frame_type}
use ngrok_rs.Stream.Writing.{
  IoPoll, ErrorKind, closed_err, send_len, data_frame, send_data, write_ready, poll_write,
  poll_flush, fin_frame, send_fin, poll_shutdown,
}
use ngrok_rs.Stream.Effects.{poll_recv-P}
use ngrok_rs.Stream.Fifo.{body_bytes}
use ngrok_rs.Stream.Credit.{
  IsWithin, sent_bytes-append, start_send_bytes, poll_ready_bytes, poll_flush_bytes, receiving,
}

send_len_le :
    (s : Stream) (buf : Bytes)
    → (send_len s buf ≤ s.window.size)
      × (send_len s buf ≤ length buf)
      × (send_len s buf ≤ length_max)
unfolding send_len capacity
send_len_le s buf = (omega arith, ground arith, ground arith)

pub data_frame_body :
    (s : Stream) (buf : Bytes) → (data_frame s buf).body ≡ Body.data (take (send_len s buf) buf)
unfolding data_frame syn
data_frame_body s buf =
    let (_, _, _, _, _, whole) = frame_from_header (Body.data (take (send_len s buf) buf)) in
    let fits = whole (omega (arith, length-take (send_len s buf) buf, send_len_le s buf)) in
    elim (Bool-cases s.needs_syn) [
      | inl h ↦ simp (h, data_frame) fits
      | inr h ↦ simp (h, data_frame) fits
    ]

-- The frame of `poll_write` has as many bytes as it says that it took.
data_frame_bytes :
    (s : Stream) (buf : Bytes) → length (body_bytes (data_frame s buf).body) ≡ send_len s buf
data_frame_bytes s buf =
    ap (λ b. length (body_bytes b)) (data_frame_body s buf)
    ∙ omega (arith, length-take (send_len s buf) buf, send_len_le s buf)

send_data-IsWithin :
    (s : Stream) (buf : Bytes) (out : Outgoing) → IsWithin s (send_data s buf out).0
unfolding send_data dec capacity
send_data-IsWithin s buf out =
    elim (Result-cases (start_send s.fout (data_frame s buf) out.send).1) [
      | inl (_, h) ↦
          simp (h, send_data, dec)
            (omega (
              arith,
              start_send_bytes s.fout (data_frame s buf) out.send (ok tt) h,
              sent_bytes-append s.fout.sink (data_frame s buf),
              data_frame_bytes s buf,
              send_len_le s buf,
            ))
      | inr (e, h) ↦
          simp (h, send_data, closed_err)
            (omega (arith, start_send_bytes s.fout (data_frame s buf) out.send (err e) h))
    ]

write_ready-IsWithin :
    (s : Stream) (buf : Bytes) (out : Outgoing) → IsWithin s (write_ready s buf out).0
unfolding write_ready
write_ready-IsWithin s buf out = elim (Poll-cases (poll_ready s.fout out.room).1) [
  | inl h ↦ simp (h, write_ready) (omega (arith, poll_ready_bytes s.fout out.room))
  | inr (err _, h) ↦
      simp (h, write_ready, closed_err) (omega (arith, poll_ready_bytes s.fout out.room))
  | inr (ok _, h) ↦
      simp (h, write_ready)
        (omega (
          arith,
          poll_ready_bytes s.fout out.room,
          send_data-IsWithin (record s { fout = (poll_ready s.fout out.room).0 }) buf out,
        ))
]

pub poll_flush-IsWithin : (s : Stream) (out : Outgoing) → IsWithin s (poll_flush s out).0
unfolding poll_flush
poll_flush-IsWithin s out =
    elim (Poll-cases (ngrok_rs.StreamOutput.poll_flush s.fout out.flush).1) [
      | inl h ↦ simp (h, poll_flush) (omega (arith, poll_flush_bytes s.fout out.flush))
      | inr (err _, h) ↦
          simp (h, poll_flush, closed_err) (omega (arith, poll_flush_bytes s.fout out.flush))
      | inr (ok _, h) ↦ simp (h, poll_flush) (omega (arith, poll_flush_bytes s.fout out.flush))
    ]

fin_frame_bytes : length (body_bytes fin_frame.body) ≡ 0
unfolding fin frame_from
fin_frame_bytes = refl

send_fin-IsWithin : (s : Stream) (out : Outgoing) → IsWithin s (send_fin s out).0
unfolding send_fin
send_fin-IsWithin s out = elim (Poll-cases (poll_ready s.fout out.room).1) [
  | inl h ↦ simp (h, send_fin) (omega (arith, poll_ready_bytes s.fout out.room))
  | inr (err _, h) ↦
      simp (h, send_fin, closed_err) (omega (arith, poll_ready_bytes s.fout out.room))
  | inr (ok _, h) ↦
      elim (Result-cases (start_send (poll_ready s.fout out.room).0 fin_frame out.send).1) [
        | inl (_, e) ↦
            simp (h, e, send_fin)
              (omega (
                arith,
                poll_ready_bytes s.fout out.room,
                start_send_bytes (poll_ready s.fout out.room).0 fin_frame out.send (ok tt) e,
                sent_bytes-append (poll_ready s.fout out.room).0.sink fin_frame,
                fin_frame_bytes,
              ))
        | inr (c, e) ↦
            simp (h, e, send_fin, closed_err)
              (omega (
                arith,
                poll_ready_bytes s.fout out.room,
                start_send_bytes (poll_ready s.fout out.room).0 fin_frame out.send (err c) e,
              ))
      ]
]

pub poll_shutdown-IsWithin : (s : Stream) (out : Outgoing) → IsWithin s (poll_shutdown s out).0
unfolding poll_shutdown
poll_shutdown-IsWithin s out = elim (Option-cases s.write_closed) [
  | inr (e, h) ↦ simp (h, poll_shutdown) (poll_flush-IsWithin s out)
  | inl h ↦ elim (Poll-cases (send_fin s out).1) [
    | inl e ↦ simp (h, e, poll_shutdown) (send_fin-IsWithin s out)
    | inr (err _, e) ↦ simp (h, e, poll_shutdown) (send_fin-IsWithin s out)
    | inr (ok _, e) ↦
        simp (h, e, poll_shutdown)
          (omega (arith, send_fin-IsWithin s out, poll_flush-IsWithin (send_fin s out).0 out))
  ]
]

pub poll_write-IsWithin :
    (s : Stream) (cx : ℕ) (buf : Bytes) (out : Outgoing)
    → OnOk (λ p. IsWithin s p.0) (poll_write s cx buf out)
unfolding poll_write
poll_write-IsWithin s cx buf out = elim (Option-cases s.write_closed) [
  | inr (e, h) ↦
      OnOk-sym (λ (p : Stream × IoPoll ℕ). IsWithin s p.0) (poll_write s cx buf out)
        (ok (s, ready (err (record { kind = ErrorKind.broken_pipe; code = e }))))
        (simp (h, poll_write)) (omega arith)
  | inl h ↦ elim (Bool-cases (capacity s.window == 0)) [
    | inr e ↦
        OnOk-sym (λ (p : Stream × IoPoll ℕ). IsWithin s p.0) (poll_write s cx buf out)
          (ok (write_ready s buf out)) (simp (h, e, poll_write)) (write_ready-IsWithin s buf out)
    | inl e ↦
        OnOk-sym (λ (p : Stream × IoPoll ℕ). IsWithin s p.0) (poll_write s cx buf out)
          (poll_recv_frame_type HeaderType.wnd_inc cx blocked >>= then_write)
          (simp (h, e, poll_write))
          (OnOk-bind (λ (p : Stream × Poll (Unit {0})). IsWithin blocked p.0)
            (λ (p : Stream × IoPoll ℕ). IsWithin s p.0) _ then_write
            (poll_recv-P IsWithin receiving HeaderType.wnd_inc cx blocked) (λ p k. turn p.0 p.1 k))
  ]
]
  where
    blocked : Stream
    blocked = record s { write_waker = some cx }

    then_write : Stream × Poll (Unit {0}) → Result Panic (Stream × IoPoll ℕ)
    then_write (t, answer) = elim answer [
      | pending ↦ ok (t, pending)
      | ready _ ↦ ok (write_ready t buf out)
    ]

    turn :
        (t : Stream) (answer : Poll (Unit {0}))
        → IsWithin blocked t
        → OnOk (λ (p : Stream × IoPoll ℕ). IsWithin s p.0) (then_write (t, answer))
    turn t pending k = k
    turn t (ready _) k = omega (arith, write_ready-IsWithin t buf out)
