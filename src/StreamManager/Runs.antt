-- ===== src/StreamManager/Runs.antt =====
-- Concrete runs of stream_manager.rs, and its theorems at concrete inputs.
use ngrok_rs.Common.{
  ℕ, ◌+◌, ◌%◌, ◌≡◌, refl, arith, true, false, List, [], ◌∷◌, none, some, ok, err, panic, ready,
  pending,
}
use ngrok_rs.Common.Maps.{lookup, insert}
use ngrok_rs.Errors.{Error, stream_id_max, code_from_error}
use ngrok_rs.Frame.{default_header, Body, Frame, frame_from, is_fin, fin, with_stream_id, rst_frame}
use ngrok_rs.StreamOutput.{close_with, is_closed}
use ngrok_rs.StreamManager.{
  StreamHandle, StreamManager, OpenReq, new, create_stream, opened, go_away, is_terminated,
}
use ngrok_rs.StreamOutput.{check_closed}
use ngrok_rs.StreamManager.Polling.{
  Polled, take_task, poll_item, poll_task, poll_tasks, poll_next, sent,
}
use ngrok_rs.StreamManager.Sending.{Channel, is_bare_fin, send_to_stream}
use ngrok_rs.StreamManager.Steps.{creates}
use ngrok_rs.StreamManager.Ids.{HonestReach, parity, local_id_fresh, local_id_exhausted}
use ngrok_rs.StreamManager.Waiting.{OrderlyReach, IsWaiting}
use ngrok_rs.StreamManager.Tasks.{poll_next_total}
use ngrok_rs.StreamManager.Duplicates.{duplicate_syn_panics}
use ngrok_rs.StreamManager.Flow.{data_on, data_shrinks_once}
use ngrok_rs.StreamManager.Fin.{Elsewhere, no_second_fin}
use ngrok_rs.StreamManager.Resets.{reset_ends_stream, reset_none_goes_on}

abbrev req : OpenReq
req = record { closer = 0; window = 10 }

-- A handle as `create_stream` makes it, with a window of ten bytes.
abbrev handle : StreamHandle
handle = record {
  to_stream = record { taken = []; closed = false };
  sink_closer = 0;
  needs_fin = true;
  data_write_closed = false;
  window = 10;
}

-- A client with room for two streams that has the peer's stream 2.
abbrev one : StreamManager
one = record {
  stream_limit = 2;
  streams = (2, handle) ∷ [];
  tasks = 2 ∷ [];
  last_local_id = 1;
  last_remote_id = 2;
  sent_away = false;
  new_streams = false;
}

one_created : (create_stream (new 2 true) (some 2) req).0 ≡ one
unfolding new create_stream opened insert
one_created = refl

one_found : lookup 2 one.streams ≡ some handle
unfolding lookup
one_found = refl

left_empty : (go_away one Error.protocol).1 ≡ (2, 11) ∷ []
unfolding go_away close_with code_from_error
left_empty = refl

left_terminated : is_terminated (go_away one Error.protocol).0 ≡ true
unfolding go_away is_terminated
left_terminated = refl

fresh_client : StreamManager
unfolding new
fresh_client = new 2 true

local_id_fresh_example :
    ((create_stream (new 2 true) none req).1 ≡ ok ((new 2 true).last_local_id + 2))
    × (((new 2 true).last_local_id + 2) % 2 ≡ parity true)
    × (lookup ((new 2 true).last_local_id + 2) (new 2 true).streams ≡ none)
unfolding new
local_id_fresh_example =
    local_id_fresh 2 true (new 2 true) req HonestReach.here (omega arith) (omega arith)

-- A client that has opened every stream that it can.
abbrev used_up : StreamManager
used_up = record one { streams = (stream_id_max, handle) ∷ []; last_local_id = stream_id_max }

local_id_exhausted_example :
    ((create_stream used_up none req).1 ≡ ok stream_id_max)
    × ((create_stream used_up none req).0.last_local_id ≡ stream_id_max)
    × (lookup stream_id_max (create_stream used_up none req).0.streams ≡ some (opened req))
local_id_exhausted_example = local_id_exhausted used_up req (omega arith) (omega arith)

poll_next_total_example :
    (p : Polled) × (poll_next
        (create_stream (new 2 true) (some 2) req).0
        pending
        (ready (some (2, none)))
      ≡ ok p)
unfolding create_stream new lookup
poll_next_total_example =
    poll_next_total 2 true _ pending (ready (some (2, none)))
      (OrderlyReach.next OrderlyReach.here (creates (some 2) req) refl) (omega arith)

duplicate_syn_panics_example :
    let m' = (create_stream one (some 2) req).0 in
    IsWaiting m' (ready (some (2, none)))
    × ((p : Polled) × (poll_next m' pending (ready (some (2, none))) ≡ ok p)
        × IsWaiting p.0 (ready (some (2, none)))
        × (poll_next p.0 pending (ready (some (2, none))) ≡ err panic))
duplicate_syn_panics_example = duplicate_syn_panics one 2 req none (omega arith) refl (omega arith)

abbrev willing : Channel
willing = record { room = ready (ok tt); send = ok tt }

abbrev full : Channel
full = record { room = pending; send = ok tt }

-- Two polls that find no room, and one that does.
data_shrinks_once_example :
    (h' : StreamHandle) × (lookup 2
        (send_to_stream one
          (data_on 2 default_header (1 ∷ 2 ∷ 3 ∷ []))
          (full ∷ full ∷ willing ∷ [])).0.streams
      ≡ some h')
    × (h'.window + 3 ≡ handle.window)
data_shrinks_once_example =
    data_shrinks_once one 2 default_header (1 ∷ 2 ∷ 3 ∷ []) full (full ∷ willing ∷ []) handle
      one_found refl (omega arith)

abbrev eleven : List ℕ
eleven = 1 ∷ 2 ∷ 3 ∷ 4 ∷ 5 ∷ 6 ∷ 7 ∷ 8 ∷ 9 ∷ 10 ∷ 11 ∷ []

abbrev bye : Frame
bye = with_stream_id 2 (fin (frame_from (Body.data [])))

-- The manager after the stream's own FIN.
abbrev finished : Polled
finished = poll_item (record one { tasks = []; new_streams = true }) 2 handle (some bye)

no_second_fin_example :
    (p' : Polled) × (poll_next finished.0 pending (ready (some (2, none))) ≡ ok p')
    × (p'.1 ≡ pending)
    × (lookup 2 p'.0.streams ≡ none)
unfolding poll_next poll_tasks poll_task take_task poll_item lookup insert fin with_stream_id
    frame_from sent is_fin is_closed
no_second_fin_example =
    no_second_fin 2 bye one finished.0 finished (sent bye handle) refl refl refl refl Elsewhere.here
      refl refl

reset_ends_stream_example :
    let r = send_to_stream one (rst_frame 2 Error.stream_cancelled) (willing ∷ []) in
    (r.1 ≡ ready (ok tt))
    × ((send_to_stream r.0 (data_on 2 default_header eleven) (willing ∷ [])).1
        ≡ ready (err Error.stream_closed))
    × ((p : Polled) × (poll_next r.0 pending (ready (some (2, none))) ≡ ok p)
        × (p.1 ≡ pending)
        × (lookup 2 p.0.streams ≡ none))
unfolding is_bare_fin
reset_ends_stream_example =
    reset_ends_stream one 2 Error.stream_cancelled willing willing [] [] handle default_header
      eleven none one_found refl (λ e. cc) refl

reset_none_goes_on_example :
    let r = send_to_stream one (rst_frame 2 Error.none) (willing ∷ []) in
    (r.1 ≡ ready (ok tt))
    × ((h' : StreamHandle) × (lookup 2 r.0.streams ≡ some h')
        × (check_closed h'.sink_closer ≡ ok tt))
    × ((p : Polled) × (poll_next r.0 pending (ready (some (2, some bye))) ≡ ok p)
        × (p.1 ≡ ready (some (with_stream_id 2 bye))))
reset_none_goes_on_example = reset_none_goes_on one 2 willing [] handle bye one_found refl refl
