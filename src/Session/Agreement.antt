-- ===== src/Session/Agreement.antt =====
-- The flow control of muxado/src between two peers: a stream that sends, and the handle that the
-- other peer's manager has for it. Frames arrive in the order in which they were sent.
mod Runs
use ngrok_rs.Common.{
  ℕ, ◌+◌, ◌-◌, ◌≤◌, leb, ◌≡◌, ◌≢◌, refl, sym, ap, subst, ◌&&◌, Bool, Bool-cases, true, false,
  if◌then◌else◌, ◌⊎◌, inl, inr, arith, List, [], ◌∷◌, ◌++◌, length, Option, ok, err, Result, Poll,
  ready, pending,
}
use ngrok_rs.Errors.{Error}
use ngrok_rs.Frame.{Bytes, HeaderType, Body, Frame, with_stream_id, is_fin}
use ngrok_rs.StreamOutput.{SendError, SinkPoll, wrap, close_with}
use ngrok_rs.StreamManager.{StreamHandle}
use ngrok_rs.StreamManager.Polling.{sent, credit}
use ngrok_rs.StreamManager.Sending.{
  Channel, SendResult, data_len, is_data, shut, send_frame, handle_body, handle_frame,
}
use ngrok_rs.StreamManager.Allowance.{
  data_len-body_bytes, sent-window, handle_frame-window, handle_frame-Allowed,
}
use ngrok_rs.Stream.{Stream, Outgoing, new}
use ngrok_rs.Stream.Reading.{ReadPoll, poll_read}
use ngrok_rs.Stream.Writing.{IoPoll, poll_write, poll_flush, poll_shutdown}
use ngrok_rs.Stream.Effects.{leaves}
use ngrok_rs.Stream.Fifo.{body_bytes}
use ngrok_rs.Stream.Credit.{sent_bytes, sent_bytes-append, increment}
use ngrok_rs.Stream.Credit.Life.{
  Life, starts, arrives, ends, closes, reads, writes, flushes, shuts, written_within_window,
}

-- What the owner of a stream and its manager do to it.
pub data Acts : Stream → Stream → Type 0 where
  ended : {s : Stream} → Acts s (leaves s true s.incoming.queue)
  failed :
      {s : Stream} (e : Error)
      → Acts s (record s { fout = record (s.fout) { closer = close_with s.fout.closer e } })
  read :
      {s : Stream} (t : ReadPoll) (cx remaining : ℕ) (out : Outgoing)
      → poll_read s cx remaining out ≡ ok t
      → Acts s t.0
  wrote :
      {s : Stream} (t : Stream × IoPoll ℕ) (cx : ℕ) (buf : Bytes) (out : Outgoing)
      → poll_write s cx buf out ≡ ok t
      → Acts s t.0
  flushed : {s : Stream} (out : Outgoing) → Acts s (poll_flush s out).0
  shut_down : {s : Stream} (out : Outgoing) → Acts s (poll_shutdown s out).0

Acts-Life : (window n : ℕ) (s t : Stream) → Life window s n → Acts s t → Life window t n
Acts-Life window n s _ l ended = ends l
Acts-Life window n s _ l (failed e) = closes e l
Acts-Life window n s _ l (read t cx remaining out e) = reads t cx remaining out e l
Acts-Life window n s _ l (wrote t cx buf out e) = writes t cx buf out e l
Acts-Life window n s _ l (flushed out) = flushes out l
Acts-Life window n s _ l (shut_down out) = shuts out l

-- The first poll for a frame, with what it takes off the window.
abbrev pub polled : ℕ → Frame → Channel → StreamHandle → StreamHandle × ℕ × SendResult
polled id f channel h = handle_frame (with_stream_id id f) (data_len f.body) channel h

-- A stream with the increments that it was sent, the frames of it that the other peer has
-- received, the increments that this peer has sent, and its handle.
pub data Linked (window : ℕ) : Stream → ℕ → List Frame → ℕ → StreamHandle → Type 0 where
  opens :
      (needs_syn : Bool) (h : StreamHandle)
      → h.window ≡ window
      → Linked window (new wrap (record { queue = []; ended = false }) window needs_syn) 0 [] 0 h
  acts :
      {s t : Stream} {n granted : ℕ} {received : List Frame} {h : StreamHandle}
      → Acts s t
      → Linked window s n received granted h
      → Linked window t n received granted h
  -- A frame reaches the stream; the increments that do are among those sent.
  allows :
      {s : Stream} {n granted : ℕ} {received : List Frame} {h : StreamHandle} (f : Frame)
      → n + increment f.body ≤ granted
      → Linked window s n received granted h
      → Linked window
          (leaves s s.incoming.ended (s.incoming.queue ++ (f ∷ [])))
          (n + increment f.body)
          received
          granted
          h
  -- The next frame of the stream reaches the manager, which polls its channel.
  receives :
      {s : Stream} {n granted : ℕ} {received : List Frame} {h : StreamHandle} (id : ℕ) (f : Frame)
      (rest : List Frame) (channel : Channel)
      → s.fout.sink ≡ received ++ (f ∷ rest)
      → Linked window s n received granted h
      → Linked window s n (received ++ (f ∷ [])) granted (polled id f channel h).0
  -- The channel is polled again for a frame that is already counted.
  retries :
      {s : Stream} {n granted : ℕ} {received : List Frame} {h : StreamHandle} (id : ℕ) (f : Frame)
      (channel : Channel)
      → Linked window s n received granted h
      → Linked window s n received granted (handle_frame (with_stream_id id f) 0 channel h).0
  -- The manager closes the stream's writers.
  fails :
      {s : Stream} {n granted : ℕ} {received : List Frame} {h : StreamHandle} (e : Error)
      → Linked window s n received granted h
      → Linked window s n received granted (shut e h)
  -- The other peer's stream sends a frame, an increment for example.
  grants :
      {s : Stream} {n granted : ℕ} {received : List Frame} {h : StreamHandle} (f : Frame)
      → Linked window s n received granted h
      → Linked window s n received (granted + increment f.body) (sent f h)

sent_bytes-split :
    (fs gs : List Frame) (f : Frame)
    → sent_bytes fs + length (body_bytes f.body) ≤ sent_bytes (fs ++ (f ∷ gs))
sent_bytes-split [] gs f = omega arith
sent_bytes-split (g ∷ fs) gs f = omega (arith, sent_bytes-split fs gs f)

-- The bytes that the peer has allowed are on the handle's window or received.
Linked-Agrees :
    (window : ℕ) (s : Stream) (n granted : ℕ) (received : List Frame) (h : StreamHandle)
    → Linked window s n received granted h
    → Life window s n × (n ≤ granted) × (window + granted ≤ h.window + sent_bytes received)
unfolding shut
Linked-Agrees window _ _ _ _ h (opens needs_syn _ e) =
    (starts needs_syn, omega arith, omega (arith, e))
Linked-Agrees window t n granted received h (acts {s} a l) =
    let (life, le, w) = Linked-Agrees window s n granted received h l in
    (Acts-Life window n s t life a, le, w)
Linked-Agrees window _ _ granted received h (allows {s} {n} f le l) =
    let (life, _, w) = Linked-Agrees window s n granted received h l in (arrives f life, le, w)
Linked-Agrees window s n granted _ _
      (receives {received = received} {h = h} id f rest channel e l) =
    let (life, le, w) = Linked-Agrees window s n granted received h l in
    (
      life,
      le,
      omega (
        arith,
        w,
        sent_bytes-append received f,
        data_len-body_bytes f.body,
        handle_frame-window (with_stream_id id f) (data_len f.body) channel h,
      ),
    )
Linked-Agrees window s n granted received _ (retries {h = h} id f channel l) =
    let (life, le, w) = Linked-Agrees window s n granted received h l in
    (life, le, omega (arith, w, handle_frame-window (with_stream_id id f) 0 channel h))
Linked-Agrees window s n granted received _ (fails {h = h} e l) =
    Linked-Agrees window s n granted received h l
Linked-Agrees window s n _ received _ (grants {granted = granted} {h = h} f l) =
    let (life, le, w) = Linked-Agrees window s n granted received h l in
    (life, omega (arith, le), omega (arith, w, sent-window f h))

next_fits :
    (window : ℕ) (s : Stream) (n granted : ℕ) (received : List Frame) (h : StreamHandle) (f : Frame)
    (rest : List Frame)
    → Linked window s n received granted h
    → s.fout.sink ≡ received ++ (f ∷ rest)
    → data_len f.body ≤ h.window
next_fits window s n granted received h f rest l e =
    let (life, le, w) = Linked-Agrees window s n granted received h l in
    omega (
      arith,
      le,
      w,
      written_within_window window s n life,
      ap sent_bytes e,
      sent_bytes-split received rest f,
      data_len-body_bytes f.body,
    )

-- Two peers that keep the protocol never break its flow control. A stream's first window is that of
-- its handle at the other peer, its frames reach that peer's manager in the order in which its
-- channel took them, and the increments that reach it are among those sent: then the next of its
-- frames that the manager polls fits the handle's window, and is not answered with a flow control
-- error, whatever the channel to the other peer's stream answers.
pub never_overruns :
    (window : ℕ) (s : Stream) (n granted : ℕ) (received : List Frame) (h : StreamHandle) (id : ℕ)
    (f : Frame) (rest : List Frame) (channel : Channel)
    → Linked window s n received granted h
    → s.fout.sink ≡ received ++ (f ∷ rest)
    → (data_len f.body ≤ h.window) × ((polled id f channel h).2 ≢ ready (err Error.flow_control))
never_overruns window s n granted received h id f rest channel l e =
    let fits = next_fits window s n granted received h f rest l e in
    (fits, handle_frame-Allowed (with_stream_id id f) (data_len f.body) channel h fits)
