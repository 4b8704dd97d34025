-- ===== src/Session/Agreement/Runs.antt =====
-- A concrete exchange between two peers of muxado/src, on one stream.
use ngrok_rs.Common.{◌≤◌, ◌≡◌, ◌≢◌, refl, arith, true, false, [], ◌∷◌, none, ok, err, ready}
use ngrok_rs.Errors.{Error}
use ngrok_rs.Frame.{Body, Frame, frame_from, syn, is_fin}
use ngrok_rs.StreamOutput.{wrap, check_closed, poll_ready, start_send}
use ngrok_rs.StreamManager.{StreamHandle}
use ngrok_rs.StreamManager.Polling.{sent}
use ngrok_rs.StreamManager.Sending.{Channel, data_len}
use ngrok_rs.Window.{capacity, inc, dec}
use ngrok_rs.Stream.{
  Stream, Outgoing, new, maybe_wake, maybe_wake_write, note_fin, handle_body, handle_frame,
  same_type, recv_frames, poll_recv_frame_type,
}
use ngrok_rs.Stream.Effects.{leaves}
use ngrok_rs.Stream.Writing.{poll_write, write_ready, send_data, data_frame, send_len}
use ngrok_rs.Session.Agreement.{
  wrote, Linked, opens, acts, allows, receives, grants, polled, never_overruns,
}

abbrev willing : Outgoing
willing = record { room = ready (ok tt); send = ok tt; flush = ready (ok tt) }

abbrev channel : Channel
channel = record { room = ready (ok tt); send = ok tt }

abbrev handle : StreamHandle
handle = record {
  to_stream = record { taken = []; closed = false };
  sink_closer = 0;
  needs_fin = true;
  data_write_closed = false;
  window = 3;
}

abbrev fresh : Stream
fresh = new wrap (record { queue = []; ended = false }) 3 true

-- "Hel", with the stream's first flag, then "lo".
abbrev hel : Frame
hel = syn (frame_from (Body.data (72 ∷ 101 ∷ 108 ∷ [])))

abbrev lo : Frame
lo = frame_from (Body.data (108 ∷ 111 ∷ []))

abbrev more : Frame
more = frame_from (Body.wnd_inc 2)

abbrev first : Stream
first = record {
  window = record { max_size = 3; size = 0 };
  incoming = record { queue = []; ended = false };
  fout = record { sink = hel ∷ []; closer = 0 };
  read_buf = [];
  read_waker = none;
  write_waker = none;
  write_closed = none;
  data_read_closed = false;
  needs_syn = false;
  woken = [];
}

three_bytes_go :
    poll_write fresh 7 (72 ∷ 101 ∷ 108 ∷ 108 ∷ 111 ∷ []) willing ≡ ok (first, ready (ok 3))
unfolding new wrap ngrok_rs.Window.new poll_write write_ready send_data data_frame send_len capacity
    poll_ready start_send check_closed frame_from syn dec
three_bytes_go = refl

abbrev second : Stream
second = record first { fout = record { sink = hel ∷ lo ∷ []; closer = 0 } }

two_bytes_go :
    poll_write (leaves first false (more ∷ [])) 7 (108 ∷ 111 ∷ []) willing
    ≡ ok (second, ready (ok 2))
unfolding poll_write write_ready send_data data_frame send_len capacity poll_ready start_send
    check_closed frame_from syn dec inc poll_recv_frame_type recv_frames same_type handle_frame
    handle_body note_fin maybe_wake_write maybe_wake is_fin
two_bytes_go = refl

-- The peer has the first frame and allows two bytes more, which the stream sends.
sent_Linked : Linked 3 second 2 (hel ∷ []) 2 (sent more (polled 2 hel channel handle).0)
unfolding frame_from
sent_Linked = acts (wrote (second, ready (ok 2)) 7 (108 ∷ 111 ∷ []) willing two_bytes_go) (
    allows more (omega arith) (
      grants more (
        receives 2 hel [] channel refl (
          acts
            (wrote (first, ready (ok 3)) 7 (72 ∷ 101 ∷ 108 ∷ 108 ∷ 111 ∷ []) willing three_bytes_go)
            (opens true handle refl)))))

never_overruns_example :
    let h = sent more (polled 2 hel channel handle).0 in
    (data_len lo.body ≤ h.window) × ((polled 2 lo channel h).2 ≢ ready (err Error.flow_control))
never_overruns_example =
    never_overruns 3 second 2 2 (hel ∷ []) (sent more (polled 2 hel channel handle).0) 2 lo []
      channel sent_Linked refl
