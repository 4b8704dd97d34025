-- ===== src/StreamManager/Overrun.antt =====
-- Data beyond the receive window that muxado/src/stream_manager.rs keeps for a stream.
use ngrok_rs.Common.{ℕ, ◌<◌, ◌≡◌, ap, ◌∙◌, arith, false, List, ◌∷◌, length, some, err, ready}
use ngrok_rs.Common.Maps.{lookup, insert}
use ngrok_rs.Errors.{Error}
use ngrok_rs.Frame.{Bytes, Header, Frame}
use ngrok_rs.StreamManager.{StreamHandle, StreamManager}
use ngrok_rs.StreamManager.Sending.{
  Channel, SendResult, shut, handle_frame, judge, poll_send, send_to_stream,
}
use ngrok_rs.StreamManager.Flow.{data_on, send_polls_ready, poll_send_found}

-- Data beyond the window of an open stream is refused at the first poll with a flow control
-- error. Nothing is delivered and the window stays, and the stream's writers are closed.
pub data_beyond_window :
    (m : StreamManager) (id : ℕ) (hd : Header) (bs : Bytes) (c : Channel) (cs : List Channel)
    (h : StreamHandle)
    → lookup id m.streams ≡ some h
    → h.data_write_closed ≡ false
    → h.window < length bs
    → send_to_stream m (data_on id hd bs) (c ∷ cs) ≡ (
      record m { streams = insert id (shut Error.stream_closed h) m.streams },
      ready (err Error.flow_control),
    )
unfolding send_to_stream
data_beyond_window m id hd bs c cs h q opened beyond =
    send_polls_ready m f (length bs) c cs (err Error.flow_control) (ap (λ r. r.2) refused)
    ∙ ap (λ (r : StreamManager × ℕ × SendResult). (r.0, ready (err Error.flow_control))) refused
  where
    f : Frame
    f = data_on id hd bs

    over : handle_frame f (length bs) c h ≡ (h, length bs, ready (err Error.flow_control))
    over = unfold handle_frame in ground (arith, opened)

    judged :
        judge f h (ready (err Error.flow_control))
        ≡ (shut Error.stream_closed h, ready (err Error.flow_control))
    judged = unfold judge in ground arith

    refused : poll_send m f (length bs) c ≡ (
      record m { streams = insert id (shut Error.stream_closed h) m.streams },
      length bs,
      ready (err Error.flow_control),
    )
    refused =
        poll_send_found m f (length bs) c h q
        ∙ ap
            (λ (r : StreamHandle × ℕ × SendResult). (
              record m { streams = insert id (judge f r.0 r.2).0 m.streams },
              r.1,
              (judge f r.0 r.2).1,
            ))
            over
        ∙ ap
            (λ (j : StreamHandle × SendResult).
              (record m { streams = insert id j.0 m.streams }, length bs, j.1))
            judged
