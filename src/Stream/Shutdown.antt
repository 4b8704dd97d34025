-- ===== src/Stream/Shutdown.antt =====
-- What `poll_write` and `poll_shutdown` of muxado/src/stream.rs put on the channel.
use ngrok_rs.Common.{
  ℕ, ◌+◌, ◌<◌, ◌==◌, ◌≡◌, refl, sym, ap, subst, inl, inr, arith, Bool-cases, true, false, [], ◌∷◌,
  ◌++◌, length, take, none, some, ok, err, Poll-cases, ready, min, ◌^◌,
}
use ngrok_rs.Errors.{Error, length_max}
use ngrok_rs.Frame.{Bytes, HeaderType, Body, Frame, is_fin, is_syn, frame_from, fin, syn}
use ngrok_rs.Window.{capacity, dec}
use ngrok_rs.StreamOutput.{check_closed, poll_ready, start_send}
use ngrok_rs.StreamOutput.Closing.{poll_flush_sink}
use ngrok_rs.Stream.{Stream, Outgoing}
use ngrok_rs.Stream.Writing.{
  IoPoll, ErrorKind, closed_err, send_len, data_frame, send_data, write_ready, poll_write,
  poll_flush, fin_frame, send_fin, poll_shutdown,
}
use ngrok_rs.Stream.Credit.Writes.{data_frame_body}

-- The channel has room and takes the frame, and the stream's cell is open.
pub record IsOpen (s : Stream) (out : Outgoing) : Type 0 where
  pub cell : check_closed s.fout.closer ≡ ok tt
  pub room : out.room ≡ ready (ok tt)
  pub send : out.send ≡ ok tt
  pub unclosed : s.write_closed ≡ none

ready_open :
    (s : Stream) (out : Outgoing)
    → IsOpen s out
    → poll_ready s.fout out.room ≡ (s.fout, ready (ok tt))
unfolding poll_ready
ready_open s out o = simp (o.cell, o.room, poll_ready)

send_open :
    (s : Stream) (f : Frame) (out : Outgoing)
    → IsOpen s out
    → start_send s.fout f out.send ≡ (record (s.fout) { sink = s.fout.sink ++ (f ∷ []) }, ok tt)
unfolding start_send
send_open s f out o = simp (o.cell, o.send, start_send)

data_frame_syn : (s : Stream) (buf : Bytes) → is_syn (data_frame s buf) ≡ s.needs_syn
unfolding data_frame is_syn syn frame_from
data_frame_syn s buf = elim (Bool-cases s.needs_syn) [
  | inl h ↦ simp (h, data_frame)
  | inr h ↦ simp (h, data_frame)
]

send_len-min :
    (s : Stream) (buf : Bytes)
    → length buf < 2 ^ 32
    → send_len s buf ≡ min (capacity s.window) (min length_max (length buf))
unfolding send_len capacity
send_len-min s buf h = ground arith

-- For a stream that is open, with room in its window and a channel that has room and takes the
-- frame, and a buffer of less than 2 ^ 32 bytes, `poll_write` takes as many bytes as the window,
-- a frame and the buffer allow, sends them as one data frame that has the SYN flag exactly if the
-- stream still needs it, and takes them off the window.
pub write_sends_prefix :
    (s : Stream) (cx : ℕ) (buf : Bytes) (out : Outgoing)
    → IsOpen s out
    → 0 < capacity s.window
    → length buf < 2 ^ 32
    → (t : Stream) × (frame : Frame) × (n : ℕ) × (poll_write s cx buf out ≡ ok (t, ready (ok n)))
      × (n ≡ min (capacity s.window) (min length_max (length buf)))
      × (t.fout.sink ≡ s.fout.sink ++ (frame ∷ []))
      × (frame.body ≡ Body.data (take n buf))
      × (is_syn frame ≡ s.needs_syn)
      × (t.needs_syn ≡ false)
      × (capacity t.window + n ≡ capacity s.window)
unfolding poll_write write_ready send_data capacity dec
write_sends_prefix s cx buf out o room len = (
  record s {
    needs_syn = false;
    fout = record (s.fout) { sink = s.fout.sink ++ (data_frame s buf ∷ []) };
    window = (dec s.window (send_len s buf)).0;
  },
  data_frame s buf,
  send_len s buf,
  simp (
    o.unclosed,
    not_empty,
    ready_open s out o,
    send_open s (data_frame s buf) out o,
    poll_write,
    write_ready,
    send_data,
  ),
  send_len-min s buf len,
  refl,
  data_frame_body s buf,
  data_frame_syn s buf,
  refl,
  omega (arith, send_len-min s buf len),
)
  where
    not_empty : (s.window.size == 0) ≡ false
    not_empty = ground arith

closed_write :
    (t : Stream) (code : Error) (cx : ℕ) (buf : Bytes) (out : Outgoing)
    → t.write_closed ≡ some code
    → poll_write t cx buf out
      ≡ ok (t, ready (err (record { kind = ErrorKind.broken_pipe; code = code })))
unfolding poll_write
closed_write t code cx buf out h = simp (h, poll_write)

flush_sink : (s : Stream) (out : Outgoing) → (poll_flush s out).0.fout.sink ≡ s.fout.sink
unfolding poll_flush
flush_sink s out = elim (Poll-cases (ngrok_rs.StreamOutput.poll_flush s.fout out.flush).1) [
  | inl h ↦ simp (h, poll_flush) (poll_flush_sink s.fout out.flush)
  | inr (err _, h) ↦ simp (h, poll_flush, closed_err) (poll_flush_sink s.fout out.flush)
  | inr (ok _, h) ↦ simp (h, poll_flush) (poll_flush_sink s.fout out.flush)
]

flush_closed :
    (s : Stream) (out : Outgoing) (code : Error)
    → s.write_closed ≡ some code
    → (code' : Error) × ((poll_flush s out).0.write_closed ≡ some code')
unfolding poll_flush
flush_closed s out code h =
    elim (Poll-cases (ngrok_rs.StreamOutput.poll_flush s.fout out.flush).1) [
      | inl e ↦ (code, simp (e, poll_flush) h)
      | inr (err c, e) ↦ (c, simp (e, poll_flush, closed_err))
      | inr (ok _, e) ↦ (code, simp (e, poll_flush) h)
    ]

closed_shutdown :
    (t : Stream) (code : Error) (out : Outgoing)
    → t.write_closed ≡ some code
    → (poll_shutdown t out).0.fout.sink ≡ t.fout.sink
unfolding poll_shutdown
closed_shutdown t code out h = simp (h, poll_shutdown) (flush_sink t out)

-- The stream when its FIN is on the channel.
abbrev after_fin : Stream → Stream
after_fin s = record s {
  fout = record (s.fout) { sink = s.fout.sink ++ (fin_frame ∷ []) };
  write_closed = some Error.stream_closed;
}

shutdown_open :
    (s : Stream) (out : Outgoing)
    → IsOpen s out
    → poll_shutdown s out ≡ poll_flush (after_fin s) out
unfolding poll_shutdown send_fin
shutdown_open s out o =
    simp (o.unclosed, ready_open s out o, send_open s fin_frame out o, poll_shutdown, send_fin)

-- A data frame without bytes that has the FIN flag, and not the SYN flag.
abbrev pub IsBareFin : Frame → Type 0
IsBareFin f =
    (f.body ≡ Body.data [])
    × (f.header.typ ≡ HeaderType.data)
    × (f.header.length ≡ 0)
    × (is_fin f ≡ true)
    × (is_syn f ≡ false)

fin_frame-IsBareFin : IsBareFin fin_frame
unfolding is_fin is_syn fin frame_from
fin_frame-IsBareFin = (refl, refl, refl, refl, refl)

-- `poll_shutdown` of a stream that is open, on a channel that has room and takes the frame, sends
-- one data frame, which has no bytes, has the FIN flag and does not have the SYN flag. Whatever the
-- channel answers to the next call, `poll_write` fails with a broken pipe and changes nothing, and a
-- further `poll_shutdown` sends no frame.
pub shutdown_once :
    (s : Stream) (out out' : Outgoing) (cx : ℕ) (buf : Bytes)
    → IsOpen s out
    → let t = (poll_shutdown s out).0 in
      (t.fout.sink ≡ s.fout.sink ++ (fin_frame ∷ []))
      × IsBareFin fin_frame
      × ((code : Error) × (poll_write t cx buf out'
            ≡ ok (t, ready (err (record { kind = ErrorKind.broken_pipe; code = code })))))
      × ((poll_shutdown t out').0.fout.sink ≡ t.fout.sink)
shutdown_once s out out' cx buf o =
    subst
      (λ (t : Stream).
        (t.fout.sink ≡ s.fout.sink ++ (fin_frame ∷ []))
        × IsBareFin fin_frame
        × ((code : Error) × (poll_write t cx buf out'
              ≡ ok (t, ready (err (record { kind = ErrorKind.broken_pipe; code = code })))))
        × ((poll_shutdown t out').0.fout.sink ≡ t.fout.sink))
      (sym (ap (λ (p : Stream × IoPoll (Unit {0})). p.0) (shutdown_open s out o)))
      (let (code, closed) = flush_closed (after_fin s) out Error.stream_closed refl in
        (
          flush_sink (after_fin s) out,
          fin_frame-IsBareFin,
          (code, closed_write _ code cx buf out' closed),
          closed_shutdown _ code out' closed,
        ))
