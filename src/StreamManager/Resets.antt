-- ===== src/StreamManager/Resets.antt =====
-- What an RST of the peer does to its stream.
use ngrok_rs.Common.{
  ℕ, ◌≡◌, ◌≢◌, refl, ap, ◌∙◌, arith, ◌==◌, not, true, false, inl, inr, Bool-cases, ==_iff, length,
  List, ◌∷◌, Option, none, some, Result, ok, err, ready, pending,
}
use ngrok_rs.Common.Maps.{lookup, insert, lookup-insert, lookup-remove}
use ngrok_rs.Errors.{Error, code_from_error}
use ngrok_rs.Frame.{Bytes, Header, Frame, rst_frame, with_stream_id}
use ngrok_rs.StreamOutput.{close_with, check_closed, is_closed}
use ngrok_rs.StreamOutput.Closing.{check_closed-close_with}
use ngrok_rs.StreamManager.{StreamHandle, StreamManager, get_stream, remove_stream}
use ngrok_rs.StreamManager.Polling.{Polled, poll_item, poll_task, poll_next}
use ngrok_rs.StreamManager.Sending.{
  Channel, SendResult, is_bare_fin, shut, handle_frame, judge, send_polls, send_to_stream,
}
use ngrok_rs.StreamManager.Answers.{without_task, poll_next_task}
use ngrok_rs.StreamManager.Flow.{data_on, poll_send_found, send_polls_ready}

-- One poll that gives a result for the frame of a stream that is there.
send_first :
    (m : StreamManager) (f : Frame) (shrink : ℕ) (c : Channel) (cs : List Channel)
    (h g : StreamHandle) (r : Result Error (Unit {0}))
    → lookup f.header.stream_id m.streams ≡ some h
    → judge f (handle_frame f shrink c h).0 (handle_frame f shrink c h).2 ≡ (g, ready r)
    → send_polls m f shrink (c ∷ cs)
      ≡ (record m { streams = insert f.header.stream_id g m.streams }, ready r)
send_first m f shrink c cs h g r q e =
    send_polls_ready m f shrink c cs r
      (ap (λ x. x.2) (poll_send_found m f shrink c h q) ∙ ap (λ x. x.1) e)
    ∙ ap (λ (x : StreamManager). (x, ready r))
        (ap (λ x. x.0) (poll_send_found m f shrink c h q)
          ∙ ap
              (λ (j : StreamHandle × SendResult). record m {
                streams = insert f.header.stream_id j.0 m.streams;
              })
              e)

reset_stored :
    (m : StreamManager) (id : ℕ) (e : Error) (c : Channel) (cs : List Channel) (h : StreamHandle)
    → lookup id m.streams ≡ some h
    → send_to_stream m (rst_frame id e) (c ∷ cs)
      ≡ (record m { streams = insert id (shut e h) m.streams }, ready (ok tt))
unfolding send_to_stream rst_frame
reset_stored m id e c cs h q =
    send_first m (rst_frame id e) 0 c cs h (shut e h) (ok tt) q (unfold handle_frame judge in refl)

shut_refuses :
    (m : StreamManager) (id : ℕ) (hd : Header) (bs : Bytes) (c : Channel) (cs : List Channel)
    (h : StreamHandle)
    → lookup id m.streams ≡ some h
    → h.data_write_closed ≡ true
    → is_bare_fin (data_on id hd bs) ≡ false
    → (send_to_stream m (data_on id hd bs) (c ∷ cs)).1 ≡ ready (err Error.stream_closed)
unfolding send_to_stream
shut_refuses m id hd bs c cs h q closed full =
    ap (λ x. x.1)
      (send_first m (data_on id hd bs) (length bs) c cs h (shut Error.stream_closed h)
        (err Error.stream_closed) q (unfold handle_frame judge in ground (arith, closed, full)))

closed_test : (cell : ℕ) → is_closed cell ≡ not (cell == 0)
unfolding is_closed
closed_test cell = ground arith

held_cell : (cell : ℕ) (e : Error) → (cell == 0) ≡ false → close_with cell e ≡ cell
unfolding close_with
held_cell cell e held = rw (held, close_with)

closed_either : (cell : ℕ) (e : Error) → e ≢ Error.none → is_closed (close_with cell e) ≡ true
closed_either cell e ne = elim (Bool-cases (cell == 0)) [
  | inl opened ↦
      ap (λ k. is_closed (close_with k e)) ((==_iff cell 0).0 opened)
      ∙ (check_closed-close_with e e ne).1
  | inr held ↦ ap is_closed (held_cell cell e held) ∙ closed_test cell ∙ ap not held
]

shut_drops :
    (m : StreamManager) (id : ℕ) (item : Option Frame) (h : StreamHandle)
    → lookup id m.streams ≡ some h
    → is_closed h.sink_closer ≡ true
    → h.needs_fin ≡ false
    → (p : Polled) × (poll_task m id item ≡ ok p) × (p.1 ≡ pending) × (lookup id p.0.streams ≡ none)
unfolding poll_task get_stream
shut_drops m id item h q closed settled = (
  (remove_stream m id, pending, true),
  rw (q, poll_task, get_stream) (ground (arith, closed, settled)),
  refl,
  unfold remove_stream in ground (arith, lookup-remove id id m.streams),
)

-- A reset by the peer, with an error other than the one that stands for none, ends its stream on
-- this side. The reset itself is accepted. From then on data for the stream, but for a bare FIN,
-- is refused as for a closed stream; and when the stream next has a frame or ends, it is dropped
-- and nothing is sent for it, not even a FIN.
pub reset_ends_stream :
    (m : StreamManager) (id : ℕ) (e : Error) (c c' : Channel) (cs cs' : List Channel)
    (h : StreamHandle) (hd : Header) (bs : Bytes) (item : Option Frame)
    → lookup id m.streams ≡ some h
    → m.sent_away ≡ false
    → e ≢ Error.none
    → is_bare_fin (data_on id hd bs) ≡ false
    → let r = send_to_stream m (rst_frame id e) (c ∷ cs) in
      (r.1 ≡ ready (ok tt))
      × ((send_to_stream r.0 (data_on id hd bs) (c' ∷ cs')).1 ≡ ready (err Error.stream_closed))
      × ((p : Polled) × (poll_next r.0 pending (ready (some (id, item))) ≡ ok p)
          × (p.1 ≡ pending)
          × (lookup id p.0.streams ≡ none))
reset_ends_stream m id e c c' cs cs' h hd bs item q awake ne full =
    rw (reset_stored m id e c cs h q) (
      refl,
      shut_refuses reset id hd bs c' cs' (shut e h) found (unfold shut in refl) full,
      let (p, e', idle, gone) =
            shut_drops (without_task reset id) id item (shut e h) found
              (unfold shut in closed_either h.sink_closer e ne) (unfold shut in refl) in
          (p, poll_next_task reset id item awake ∙ e', idle, gone),
    )
  where
    reset : StreamManager
    reset = record m { streams = insert id (shut e h) m.streams }

    found : lookup id reset.streams ≡ some (shut e h)
    found = ground (arith, lookup-insert id id (shut e h) m.streams)

opened_sends :
    (m : StreamManager) (id : ℕ) (f : Frame) (h : StreamHandle)
    → lookup id m.streams ≡ some h
    → is_closed h.sink_closer ≡ false
    → (p : Polled) × (poll_task m id (some f) ≡ ok p) × (p.1 ≡ ready (some (with_stream_id id f)))
unfolding poll_task get_stream poll_item
opened_sends m id f h q opened =
    (poll_item m id h (some f), rw (q, poll_task, get_stream) (ground (arith, opened)), refl)

-- A reset whose code stands for no error does not stop a stream whose cell holds no error. The reset
-- is accepted, the cell still reads as open after it, and a frame that the stream goes on to write
-- is sent to the peer that has reset it.
pub reset_none_goes_on :
    (m : StreamManager) (id : ℕ) (c : Channel) (cs : List Channel) (h : StreamHandle) (f : Frame)
    → lookup id m.streams ≡ some h
    → m.sent_away ≡ false
    → h.sink_closer ≡ 0
    → let r = send_to_stream m (rst_frame id Error.none) (c ∷ cs) in
      (r.1 ≡ ready (ok tt))
      × ((h' : StreamHandle) × (lookup id r.0.streams ≡ some h')
          × (check_closed h'.sink_closer ≡ ok tt))
      × ((p : Polled) × (poll_next r.0 pending (ready (some (id, some f))) ≡ ok p)
          × (p.1 ≡ ready (some (with_stream_id id f))))
reset_none_goes_on m id c cs h f q awake opened = rw (reset_stored m id Error.none c cs h q) (
  refl,
  (
    shut Error.none h,
    found,
    unfold shut close_with code_from_error check_closed in ground (arith, opened),
  ),
  let (p, e, sends) =
        opened_sends (without_task reset id) id f (shut Error.none h) found
          (unfold shut close_with code_from_error in (closed_test _ ∙ ground (arith, opened))) in
      (p, poll_next_task reset id (some f) awake ∙ e, sends),
)
  where
    reset : StreamManager
    reset = record m { streams = insert id (shut Error.none h) m.streams }

    found : lookup id reset.streams ≡ some (shut Error.none h)
    found = ground (arith, lookup-insert id id (shut Error.none h) m.streams)
