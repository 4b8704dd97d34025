-- ===== src/Stream/Credit.antt =====
-- The flow control of muxado/src/stream.rs: the bytes that a stream may send, while it reads.
pub mod Writes
pub mod Life
use ngrok_rs.Common.{
  ℕ, zero, suc, ◌+◌, ◌-◌, ◌≤◌, ◌%◌, ◌^◌, ◌==◌, ◌≡◌, refl, sym, ap, subst, ◌∙◌, ◌⊎◌, inl, inr, arith,
  Bool, Bool-cases, true, false, if◌then◌else◌, List, [], ◌∷◌, ◌++◌, length, take, length-take,
  Option, Option-cases, none, some, Result, ok, err, OnOk, OnOk-ok, OnOk-bind, OnOk-sym, ◌>>=◌,
  Result-cases, Poll-cases, Panic, Poll, ready, pending, min,
}
use ngrok_rs.Errors.{Error, length_max}
use ngrok_rs.Frame.Lengths.{frame_from_header}
use ngrok_rs.Frame.{Bytes, HeaderType, Body, Frame, frame_from, syn, fin}
use ngrok_rs.Window.{capacity, inc, dec}
use ngrok_rs.StreamOutput.{
  SendError, SinkPoll, StreamSender, wrap, close_with, check_closed, poll_ready, start_send,
}
use ngrok_rs.StreamOutput.Closing.{sender-Agrees, poll_flush_sink, sent_by}
use ngrok_rs.Stream.{
  Stream, Outgoing, Receiver, new, handle_body, note_fin, poll_send_wndinc, poll_recv_frame_type,
}
use ngrok_rs.Stream.Reading.{ReadPoll, read_len, give, poll_read}
use ngrok_rs.Stream.Writing.{
  IoPoll, ErrorKind, IoError, closed_err, reset_by, send_len, data_frame, send_data, write_ready,
  poll_write, poll_flush, fin_frame, send_fin, poll_shutdown,
}
use ngrok_rs.Stream.Effects.{leaves, IsReceiving, IsAnswer, poll_read-Q, poll_recv-P}
use ngrok_rs.Stream.Fifo.{body_bytes, wndinc_keeps}

abbrev pub sent_bytes : List Frame → ℕ
sent_bytes [] = 0
sent_bytes (f ∷ fs) = length (body_bytes f.body) + sent_bytes fs

abbrev pub increment : Body → ℕ
increment (Body.wnd_inc by) = by
increment _ = 0

abbrev pub increments : List Frame → ℕ
increments [] = 0
increments (f ∷ fs) = increment f.body + increments fs

-- The bytes sent, those that the window still allows, and those that the channel has yet to allow.
abbrev pub credit : Stream → ℕ
credit s = sent_bytes s.fout.sink + capacity s.window + increments s.incoming.queue

abbrev pub IsWithin : Stream → Stream → Type 0
IsWithin s t = credit t ≤ credit s

pub sent_bytes-append :
    (fs : List Frame) (f : Frame)
    → sent_bytes (fs ++ (f ∷ [])) ≡ sent_bytes fs + length (body_bytes f.body)
sent_bytes-append [] f = omega arith
sent_bytes-append (g ∷ fs) f = omega (arith, sent_bytes-append fs f)

pub increments-append :
    (fs : List Frame) (f : Frame) → increments (fs ++ (f ∷ [])) ≡ increments fs + increment f.body
increments-append [] f = omega arith
increments-append (g ∷ fs) f = omega (arith, increments-append fs f)

body-IsWithin :
    (s : Stream) (ended : Bool) (f : Frame) (fs : List Frame) (cx : ℕ) (b : Body)
    → OnOk
        (λ t. credit t ≤ sent_bytes s.fout.sink + capacity s.window + (increment b + increments fs))
        (handle_body (some cx) (note_fin (leaves s ended fs) f) b)
unfolding handle_body note_fin inc capacity
body-IsWithin s ended f fs cx (Body.data bs) = ground arith
body-IsWithin s ended f fs cx (Body.wnd_inc by) = ground arith
body-IsWithin s ended f fs cx (Body.rst _) = tt
body-IsWithin s ended f fs cx (Body.go_away _ _ _) = tt
body-IsWithin s ended f fs cx (Body.invalid _ _) = tt

pub receiving : IsReceiving IsWithin
receiving = record {
  refl_P = λ s. omega arith;
  trans_P = λ s t u h k. omega arith;
  body_P = λ s ended f fs cx. body-IsWithin s ended f fs cx f.body;
  end_P = λ s. omega arith;
  waits_P = λ s cx. omega arith;
  blocks_P = λ s cx. omega arith;
}

-- The channel has the frame's bytes as well, or it has what it had.
pub start_send_bytes :
    (s : StreamSender) (f : Frame) (r : Result SendError (Unit {0})) (a : Result Error (Unit {0}))
    → (start_send s f r).1 ≡ a
    → sent_bytes (start_send s f r).0.sink ≡ sent_bytes (sent_by s f a)
start_send_bytes s f r a h =
    let (_, _, _, q, _) = sender-Agrees s f pending r in
    ap sent_bytes q ∙ ap (λ x. sent_bytes (sent_by s f x)) h

pub poll_ready_bytes :
    (s : StreamSender) (c : SinkPoll) → sent_bytes (poll_ready s c).0.sink ≡ sent_bytes s.sink
poll_ready_bytes s c = let (_, _, _, _, q) = sender-Agrees s fin_frame c (ok tt) in ap sent_bytes q

pub poll_flush_bytes :
    (s : StreamSender) (c : SinkPoll)
    → sent_bytes (ngrok_rs.StreamOutput.poll_flush s c).0.sink ≡ sent_bytes s.sink
poll_flush_bytes s c = ap sent_bytes (poll_flush_sink s c)

wndinc-IsWithin : (s : Stream) (n : ℕ) (out : Outgoing) → IsWithin s (poll_send_wndinc s n out).0
unfolding poll_send_wndinc
wndinc-IsWithin s n out = elim (Poll-cases (poll_ready s.fout out.room).1) [
  | inl h ↦ simp (h, poll_send_wndinc) (omega (arith, poll_ready_bytes s.fout out.room))
  | inr (ok _, h) ↦
      simp (h, poll_send_wndinc)
        (omega (
          arith,
          poll_ready_bytes s.fout out.room,
          announced (poll_ready s.fout out.room).0 n out.send
              (start_send (poll_ready s.fout out.room).0 (frame_from (Body.wnd_inc n)) out.send).1
              refl,
        ))
  | inr (err _, h) ↦ simp (h, poll_send_wndinc) (omega (arith, poll_ready_bytes s.fout out.room))
]
  where
    announced :
        (fout : StreamSender) (n : ℕ) (r : Result SendError (Unit {0}))
        (a : Result Error (Unit {0}))
        → (start_send fout (frame_from (Body.wnd_inc n)) r).1 ≡ a
        → sent_bytes (start_send fout (frame_from (Body.wnd_inc n)) r).0.sink ≡ sent_bytes fout.sink
    announced fout n r (ok _) h =
        start_send_bytes fout (frame_from (Body.wnd_inc n)) r (ok tt) h
        ∙ sent_bytes-append fout.sink (frame_from (Body.wnd_inc n))
        ∙ unfold frame_from in omega arith
    announced fout n r (err e) h = start_send_bytes fout (frame_from (Body.wnd_inc n)) r (err e) h

give-IsWithin : (s : Stream) (remaining : ℕ) (out : Outgoing) → IsWithin s (give s remaining out).0
unfolding give
give-IsWithin s remaining out = elim (Bool-cases (read_len s remaining == 0)) [
  | inl h ↦ simp (h, give) (omega arith)
  | inr h ↦ elim (Poll-cases (poll_send_wndinc s (read_len s remaining) out).1) [
    | inl e ↦ simp (h, e, give) (wndinc-IsWithin s (read_len s remaining) out)
    | inr (_, e) ↦ simp (h, e, give) (wndinc-IsWithin s (read_len s remaining) out)
  ]
]

pub answering :
    (cx remaining : ℕ) (out : Outgoing) → IsAnswer IsWithin cx remaining out (λ s p. IsWithin s p.0)
answering cx remaining out = record {
  later_Q = λ s t p h k. omega arith;
  give_Q = λ s. give-IsWithin s remaining out;
  end_Q = λ s. omega arith;
  wait_Q = λ s. omega arith;
}
