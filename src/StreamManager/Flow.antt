-- ===== src/StreamManager/Flow.antt =====
-- The receive window that muxado/src/stream_manager.rs keeps for a stream.
use ngrok_rs.Common.{
  ℕ, ◌+◌, ◌-◌, ◌≤◌, ◌≡◌, refl, ap, ◌∙◌, arith, false, inl, inr, List, [], ◌∷◌, length, some, Result,
  ok, err, Poll, Poll-cases, ready, pending,
}
use ngrok_rs.Common.Maps.{lookup, insert, lookup-insert}
use ngrok_rs.Errors.{Error}
use ngrok_rs.Frame.{Bytes, HeaderType, Header, Body, Frame}
use ngrok_rs.StreamOutput.{SendError}
use ngrok_rs.StreamManager.{StreamHandle, StreamManager}
use ngrok_rs.StreamManager.Sending.{
  Channel, SendResult, shut, send_frame, handle_frame, judge, poll_send, send_polls, send_to_stream,
}

-- A data frame for the stream `id`.
abbrev pub data_on : ℕ → Header → Bytes → Frame
data_on id h bs = record {
  header = record h { typ = HeaderType.data; stream_id = id };
  body = Body.data bs;
}

pub send_frame_keeps :
    (f : Frame) (channel : Channel) (h : StreamHandle)
    → ((send_frame f channel h).0.window ≡ h.window)
      × ((send_frame f channel h).0.data_write_closed ≡ h.data_write_closed)
unfolding send_frame
send_frame_keeps f channel h = go channel.room channel.send
  where
    go :
        (room : Poll (Result SendError (Unit {0}))) (send : Result SendError (Unit {0}))
        → ((send_frame f (record { room = room; send = send }) h).0.window ≡ h.window)
          × ((send_frame f (record { room = room; send = send }) h).0.data_write_closed
              ≡ h.data_write_closed)
    go pending send = (refl, refl)
    go (ready (err _)) send = (refl, refl)
    go (ready (ok _)) (err _) = (refl, refl)
    go (ready (ok _)) (ok _) = (refl, refl)

judge_window : (f : Frame) (h : StreamHandle) (r : SendResult) → (judge f h r).0.window ≡ h.window
unfolding judge shut
judge_window f h pending = refl
judge_window f h (ready (ok _)) = refl
judge_window f h (ready (err e)) = ground arith

judge_pending :
    (f : Frame) (h : StreamHandle) (r : SendResult)
    → (judge f h r).1 ≡ pending
    → (judge f h r).0 ≡ h
unfolding judge
judge_pending f h pending e = refl
judge_pending f h (ready (ok _)) e = refl
judge_pending f h (ready (err x)) e = ground arith

abbrev shrunk : ℕ → StreamHandle → StreamHandle
shrunk n h = record h { window = h.window - n }

handle_fits :
    (id : ℕ) (hd : Header) (bs : Bytes) (shrink : ℕ) (channel : Channel) (h : StreamHandle)
    → h.data_write_closed ≡ false
    → shrink ≤ h.window
    → let s = send_frame (data_on id hd bs) channel (shrunk shrink h) in
      handle_frame (data_on id hd bs) shrink channel h ≡ (s.0, 0, s.1)
unfolding handle_frame
handle_fits id hd bs shrink channel h opened fits = ground (arith, opened)

pub poll_send_found :
    (m : StreamManager) (f : Frame) (shrink : ℕ) (channel : Channel) (h : StreamHandle)
    → lookup f.header.stream_id m.streams ≡ some h
    → let r = handle_frame f shrink channel h in
      let j = judge f r.0 r.2 in
      poll_send m f shrink channel
      ≡ (record m { streams = insert f.header.stream_id j.0 m.streams }, r.1, j.1)
unfolding poll_send
poll_send_found m f shrink channel h q = rw (q, poll_send)

-- One poll that has room for the data takes all that is left of it off the window, and while the
-- answer is pending the writer stays as it was.
poll_send_fits :
    (m : StreamManager) (id : ℕ) (hd : Header) (bs : Bytes) (shrink : ℕ) (channel : Channel)
    (h : StreamHandle)
    → lookup id m.streams ≡ some h
    → h.data_write_closed ≡ false
    → shrink ≤ h.window
    → let r = poll_send m (data_on id hd bs) shrink channel in
      (r.1 ≡ 0)
      × ((h' : StreamHandle) × (lookup id r.0.streams ≡ some h')
          × (h'.window + shrink ≡ h.window)
          × (r.2 ≡ pending → h'.data_write_closed ≡ false))
poll_send_fits m id hd bs shrink channel h q opened fits = rw sends (
  refl,
  (
    j.0,
    ground (arith, lookup-insert id id j.0 m.streams),
    omega (arith, judge_window f s.0 s.1, kept.0),
    λ e. ap (λ x. x.data_write_closed) (judge_pending f s.0 s.1 e) ∙ kept.1 ∙ opened,
  ),
)
  where
    f : Frame
    f = data_on id hd bs

    s : StreamHandle × SendResult
    s = send_frame f channel (shrunk shrink h)

    j : StreamHandle × SendResult
    j = judge f s.0 s.1

    kept : (s.0.window ≡ h.window - shrink) × (s.0.data_write_closed ≡ h.data_write_closed)
    kept = send_frame_keeps f channel (shrunk shrink h)

    sends : poll_send m f shrink channel ≡ (record m { streams = insert id j.0 m.streams }, 0, j.1)
    sends =
        poll_send_found m f shrink channel h q
        ∙ ap
            (λ (r : StreamHandle × ℕ × SendResult). (
              record m { streams = insert id (judge f r.0 r.2).0 m.streams },
              r.1,
              (judge f r.0 r.2).1,
            ))
            (handle_fits id hd bs shrink channel h opened fits)

-- The stream's handle, once `taken` bytes have gone off its window.
abbrev pub Took : ℕ → ℕ → StreamHandle → StreamManager → Type 0
Took id taken h m =
    (h' : StreamHandle) × (lookup id m.streams ≡ some h') × (h'.window + taken ≡ h.window)

pub send_polls_ready :
    (m : StreamManager) (f : Frame) (shrink : ℕ) (c : Channel) (cs : List Channel)
    (r : Result Error (Unit {0}))
    → (poll_send m f shrink c).2 ≡ ready r
    → send_polls m f shrink (c ∷ cs) ≡ ((poll_send m f shrink c).0, ready r)
unfolding send_polls
send_polls_ready m f shrink c cs r e = rw (e, send_polls)

send_polls_pending :
    (m : StreamManager) (f : Frame) (shrink : ℕ) (c : Channel) (cs : List Channel)
    → (poll_send m f shrink c).2 ≡ pending
    → send_polls m f shrink (c ∷ cs)
      ≡ send_polls (poll_send m f shrink c).0 f (poll_send m f shrink c).1 cs
unfolding send_polls
send_polls_pending m f shrink c cs e = rw (e, send_polls)

-- With nothing left to take, further polls leave the window alone.
send_polls-Took_zero :
    (m : StreamManager) (id : ℕ) (hd : Header) (bs : Bytes) (cs : List Channel) (h : StreamHandle)
    → lookup id m.streams ≡ some h
    → h.data_write_closed ≡ false
    → Took id 0 h (send_polls m (data_on id hd bs) 0 cs).0
send_polls-Took_zero m id hd bs [] h q opened = unfold send_polls in (h, q, omega arith)
send_polls-Took_zero m id hd bs (c ∷ cs) h q opened =
    let f : Frame = data_on id hd bs in
    let (zero_left, (h', q', w, still)) = poll_send_fits m id hd bs 0 c h q opened (omega arith) in
    elim (Poll-cases (poll_send m f 0 c).2) [
      | inr (r, e) ↦ rw (send_polls_ready m f 0 c cs r e) (h', q', w)
      | inl e ↦
          let (h'', q'', w') =
            send_polls-Took_zero (poll_send m f 0 c).0 id hd bs cs h' q' (still e) in
          rw (send_polls_pending m f 0 c cs e, zero_left) (h'', q'', omega (arith, w, w'))
    ]

send_polls-Took :
    (m : StreamManager) (id : ℕ) (hd : Header) (bs : Bytes) (shrink : ℕ) (c : Channel)
    (cs : List Channel) (h : StreamHandle)
    → lookup id m.streams ≡ some h
    → h.data_write_closed ≡ false
    → shrink ≤ h.window
    → Took id shrink h (send_polls m (data_on id hd bs) shrink (c ∷ cs)).0
send_polls-Took m id hd bs shrink c cs h q opened fits =
    let f : Frame = data_on id hd bs in
    let (zero_left, (h', q', w, still)) = poll_send_fits m id hd bs shrink c h q opened fits in
    elim (Poll-cases (poll_send m f shrink c).2) [
      | inr (r, e) ↦ rw (send_polls_ready m f shrink c cs r e) (h', q', w)
      | inl e ↦
          let (h'', q'', w') =
            send_polls-Took_zero (poll_send m f shrink c).0 id hd bs cs h' q' (still e) in
          rw (send_polls_pending m f shrink c cs e, zero_left) (h'', q'', omega (arith, w, w'))
    ]

-- Data that fits the window of an open stream shrinks it by its exact length, once: however many
-- polls the delivery takes and whatever the channel answers, in the end the window is smaller by
-- that length.
pub data_shrinks_once :
    (m : StreamManager) (id : ℕ) (hd : Header) (bs : Bytes) (c : Channel) (cs : List Channel)
    (h : StreamHandle)
    → lookup id m.streams ≡ some h
    → h.data_write_closed ≡ false
    → length bs ≤ h.window
    → (h' : StreamHandle) × (lookup id (send_to_stream m (data_on id hd bs) (c ∷ cs)).0.streams
        ≡ some h')
      × (h'.window + length bs ≡ h.window)
unfolding send_to_stream
data_shrinks_once m id hd bs c cs h q opened fits =
    send_polls-Took m id hd bs (length bs) c cs h q opened fits
