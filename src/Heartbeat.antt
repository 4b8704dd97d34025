-- ===== src/Heartbeat.antt =====
-- muxado/src/heartbeat.rs: a session whose typed streams of one type carry heartbeats. Times are
-- nanoseconds; what the streams, the clock and the random numbers give is an argument. An id is
-- the u32 with the bits of the i32.
pub mod Streams
pub mod Echo
pub mod Check
mod Runs
use ngrok_rs.Common.{
  ℕ, ◌+◌, ◌-◌, ◌*◌, ◌%◌, ◌^◌, ◌==◌, if◌then◌else◌, Bool, true, false, List, [], ◌∷◌, ◌++◌, length,
  drop, Option, none, some, Result, ok, err, Poll, ready, pending,
}
use ngrok_rs.Constrained.{clamp}
use ngrok_rs.Errors.{Error}
use ngrok_rs.Frame.{Bytes}
use ngrok_rs.Stream.Writing.{IoError}
use ngrok_rs.Typed.{TypedStream, stream_type_range}

unfoldable pub heartbeat_type : ℕ
unfolding clamp
heartbeat_type = clamp stream_type_range 0xFFFFFFFF

pub record HeartbeatConfig : Type 0 where
  pub interval : ℕ
  pub tolerance : ℕ

-- `HeartbeatConfig::default`
abbrev pub default_config : HeartbeatConfig
default_config = record { interval = 10 * 10 ^ 9; tolerance = 15 * 10 ^ 9 }

-- The two atomic numbers of `HeartbeatCtl`.
pub record HeartbeatCtl : Type 0 where
  pub interval : ℕ
  pub tolerance : ℕ

-- The `ctl` of `Heartbeat::start`, with `as u64`.
unfoldable pub start_ctl : HeartbeatConfig → HeartbeatCtl
start_ctl cfg = record { interval = cfg.interval % 2 ^ 64; tolerance = cfg.tolerance % 2 ^ 64 }

unfoldable pub set_interval : HeartbeatCtl → ℕ → HeartbeatCtl
set_interval ctl nanos = record ctl { interval = nanos % 2 ^ 64 }

unfoldable pub set_tolerance : HeartbeatCtl → ℕ → HeartbeatCtl
set_tolerance ctl nanos = record ctl { tolerance = nanos % 2 ^ 64 }

unfoldable pub get_durations : HeartbeatCtl → ℕ × ℕ
get_durations ctl = (ctl.interval, ctl.tolerance)

-- The error kinds of `beat`
pub data BeatError : Type 0 where
  not_connected connection_reset : BeatError

-- `HeartbeatCtl::beat`, for how the channel took the request, and the latency that came back.
unfoldable pub beat : Result (Unit {0}) (Unit {0}) → Result (Unit {0}) ℕ → Result BeatError ℕ
beat (err _) resp = err not_connected
beat (ok _) (err _) = err connection_reset
beat (ok _) (ok latency) = ok latency

-- `accept_typed`, over what the inner session gives: the streams that responders are started for,
-- and the answer.
unfoldable pub accept_typed :
    ℕ → List (Result Error TypedStream) → List TypedStream × Poll (Result Error TypedStream)
accept_typed typ [] = ([], pending)
accept_typed typ (err e ∷ rest) = ([], ready (err e))
accept_typed typ (ok stream ∷ rest) =
    let (responders, answer) = accept_typed typ rest in
    if stream.typ == typ then (stream ∷ responders, answer) else ([], ready (ok stream))

-- `open_typed`, for the answer of the inner session, which is asked only in the second case.
unfoldable pub open_typed : ℕ → ℕ → Result Error TypedStream → Result Error TypedStream
open_typed self_typ typ inner = if typ == self_typ then err Error.stream_refused else inner

-- A round of the responder: what `read` gives, and how `write_all` ends.
pub record Served : Type 0 where
  pub read : Result IoError Bytes
  pub write : Result IoError (Unit {0})

-- The buffer of four bytes after `read` has put these bytes at its start.
abbrev pub filled : Bytes → Bytes
filled bs = bs ++ drop (length bs) (0 ∷ 0 ∷ 0 ∷ 0 ∷ [])

-- The loop of `start_responder`: what is written, and whether the responder has ended.
unfoldable pub responder : List Served → Bytes × Bool
responder [] = ([], false)
responder (served ∷ rest) =
    let (written, ended) = responder rest in
    elim served.read [
      | err _ ↦ ([], true)
      | ok bs ↦ elim served.write [ err _ ↦ ([], true) | ok _ ↦ (filled bs ++ written, ended) ]
    ]

-- A round of the requester: the random id, whether it is on demand, how the write ends, what
-- `read_exact` gives, as the number of its bytes, and the times.
pub record Round : Type 0 where
  pub id : ℕ
  pub on_demand : Bool
  pub write : Result IoError (Unit {0})
  pub read : Result IoError ℕ
  pub started : ℕ
  pub now : ℕ

-- What the requester has done: the ids that it wrote, and the latencies for those who asked and
-- for the check task.
pub record Requester : Type 0 where
  pub ids : List ℕ
  pub responses : List ℕ
  pub marks : List ℕ

unfoldable pub report : Requester → Round → Requester
report r round =
    let latency = round.now - round.started in
    if round.on_demand
    then record r { responses = r.responses ++ (latency ∷ []) }
    else record r { marks = r.marks ++ (latency ∷ []) }

-- The loop of `start_requester`: what was done, and whether the task has ended.
unfoldable pub requester : Requester → List Round → Requester × Bool
unfolding report
requester r [] = (r, false)
requester r (round ∷ rest) =
    let wrote = record r { ids = r.ids ++ (round.id ∷ []) } in
    let later = requester (report wrote round) rest in
    elim round.write [
      | err _ ↦ (r, true)
      | ok _ ↦ elim round.read [
        | err _ ↦ (wrote, true)
        | ok resp_id ↦ if round.id == resp_id then later else (wrote, true)
      ]
    ]
