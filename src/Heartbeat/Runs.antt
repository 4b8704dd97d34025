-- ===== src/Heartbeat/Runs.antt =====
-- Concrete runs of muxado/src/heartbeat.rs, and its theorems at concrete inputs.
use ngrok_rs.Common.{ℕ, some, arith, ◌≡◌, refl, true, false, [], ◌∷◌, none, Result, ok, err}
use ngrok_rs.Errors.{Error}
use ngrok_rs.Stream.{Stream}
use ngrok_rs.Typed.{TypedStream}
use ngrok_rs.Heartbeat.Check.{start_check, period, start_check-InTime}
use ngrok_rs.Heartbeat.Echo.{at_end, responder-at_end}
use ngrok_rs.Heartbeat.{
  responder, HeartbeatCtl, heartbeat_type, default_config, start_ctl, set_interval, get_durations,
  open_typed, Round,
}

durations_set : get_durations (set_interval (start_ctl default_config) 5) ≡ (5, 15000000000)
unfolding get_durations set_interval start_ctl
durations_set = refl

heartbeat_refused :
    (inner : Result Error TypedStream)
    → open_typed heartbeat_type 0xFFFFFFFF inner ≡ err Error.stream_refused
unfolding open_typed heartbeat_type
heartbeat_refused inner = refl

abbrev empty : Stream
empty = record {
  window = record { max_size = 8; size = 8 };
  incoming = record { queue = []; ended = false };
  fout = record { sink = []; closer = 0 };
  read_buf = [];
  read_waker = none;
  write_waker = none;
  write_closed = none;
  data_read_closed = false;
  needs_syn = false;
  woken = [];
}

abbrev of_type : ℕ → TypedStream
of_type typ = record { typ = typ; inner = empty }

abbrev asked : Round
asked = record { id = 77; on_demand = true; write = ok tt; read = ok 77; started = 10; now = 15 }

abbrev ticked : Round
ticked = record { id = 78; on_demand = false; write = ok tt; read = ok 78; started = 20; now = 23 }

-- An interval of 10 and a tolerance of 5
abbrev steady : ℕ → HeartbeatCtl
steady now = record { interval = 10; tolerance = 5 }

-- The second heartbeat is late: it is missed at 27, and then noted.
one_missed :
    start_check true 4 steady 0 ((12, some 2) ∷ (30, some 9) ∷ (31, none) ∷ [])
    ≡ (12, 2) ∷ (27, 0) ∷ (30, 9) ∷ []
unfolding start_check period
one_missed = refl

start_check-InTime_example :
    start_check true 3 steady 0 ((12, some 2) ∷ (27, some 9) ∷ (31, none) ∷ [])
    ≡ (12, 2) ∷ (27, 9) ∷ []
start_check-InTime_example =
    start_check-InTime ((12, some 2) ∷ (27, some 9) ∷ (31, none) ∷ []) 3 steady 0
      (omega arith, omega arith, (omega arith, omega arith, (omega arith, omega arith, tt))) tt
      (omega arith)

responder-at_end_example :
    responder (at_end (tt ∷ tt ∷ [])) ≡ (0 ∷ 0 ∷ 0 ∷ 0 ∷ 0 ∷ 0 ∷ 0 ∷ 0 ∷ [], false)
responder-at_end_example = responder-at_end (tt ∷ tt ∷ [])
