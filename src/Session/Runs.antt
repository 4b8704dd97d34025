-- ===== src/Session/Runs.antt =====
-- Concrete runs of muxado/src/session.rs, and its theorems at concrete inputs.
use ngrok_rs.Common.{
  ℕ, ◌≤◌, ◌≡◌, refl, arith, true, false, [], ◌∷◌, length, none, some, Result, ok, err, ready,
}
use ngrok_rs.Common.Maps.{lookup, insert}
use ngrok_rs.Errors.{Error}
use ngrok_rs.Frame.{Body, default_header, frame_from, is_syn, rst_frame, syn}
use ngrok_rs.StreamManager.{StreamHandle, StreamManager, close_senders}
use ngrok_rs.StreamManager.Sending.{Channel, shut}
use ngrok_rs.StreamManager.Steps.{Reach}
use ngrok_rs.StreamManager.Flow.{data_on}
use ngrok_rs.Session.{Reader, Answers, frame, last, start, handle_frame, finish, run, new}
use ngrok_rs.Session.Live.{starts, gives_up, session_within_limit}
use ngrok_rs.Session.Refusals.{overrun_is_reset, syn_at_limit_ends_session, run_closes_streams}

abbrev willing : Channel
willing = record { room = ready (ok tt); send = ok tt }

abbrev answers : Answers
answers = record { accept = ok tt; sys = ok tt; stream = willing ∷ [] }

abbrev handle : StreamHandle
handle = record {
  to_stream = record { taken = []; closed = false };
  sink_closer = 0;
  needs_fin = true;
  data_write_closed = false;
  window = 2;
}

-- A reader whose manager has room for one stream and has the peer's stream 2.
abbrev one : Reader
one = record {
  sys_tx = [];
  accept_tx = [];
  window = 2;
  manager = record {
    stream_limit = 1;
    streams = (2, handle) ∷ [];
    tasks = 2 ∷ [];
    last_local_id = 1;
    last_remote_id = 2;
    sent_away = false;
    new_streams = false;
  };
  last_stream_processed = 0;
}

one_found : lookup 2 one.manager.streams ≡ some handle
unfolding lookup
one_found = refl

other_missing : lookup 4 one.manager.streams ≡ none
unfolding lookup
other_missing = refl

session_within_limit_example :
    let r = (finish (start new).0).0 in
    Reach (ngrok_rs.StreamManager.new 512 true) r.manager
    × (r.manager ≡ r.manager)
    × (length r.manager.streams ≤ 512)
session_within_limit_example =
    session_within_limit new (finish (start new).0).0
      (record {
        manager = (finish (start new).0).0.manager;
        window = (start new).1.window;
        io = (start new).1.io;
      })
      (gives_up starts)

no_syn_flag : is_syn (data_on 2 default_header (1 ∷ 2 ∷ 3 ∷ [])) ≡ false
unfolding is_syn
no_syn_flag = refl

overrun_is_reset_example :
    handle_frame one (data_on 2 default_header (1 ∷ 2 ∷ 3 ∷ [])) answers
    ≡ ok (
      record one {
        manager = record (one.manager) {
          streams = insert 2 (shut Error.stream_closed handle) one.manager.streams;
        };
        sys_tx = rst_frame 2 Error.flow_control ∷ [];
      },
      ready (ok tt),
    )
overrun_is_reset_example =
    overrun_is_reset one 2 default_header (1 ∷ 2 ∷ 3 ∷ []) handle answers willing [] no_syn_flag
      one_found refl (omega arith) refl refl

syn_at_limit_ends_session_example :
    run one (frame (syn (frame_from (Body.data []))) answers ∷ last ∷ []) ≡ ok (finish one)
unfolding is_syn syn frame_from
syn_at_limit_ends_session_example =
    syn_at_limit_ends_session one (syn (frame_from (Body.data []))) answers (last ∷ []) refl refl

run_closes_streams_example :
    (◌≡◌ {A = Result Error (Unit {0})} (err Error.session_closed) (err Error.session_closed))
    × ((id : ℕ) (h : StreamHandle)
        → lookup id (finish one).0.manager.streams ≡ some h
        → h.to_stream.closed ≡ true)
unfolding run finish
run_closes_streams_example =
    run_closes_streams one (finish one).0 (last ∷ []) (err Error.session_closed) refl
