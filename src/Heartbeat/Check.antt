-- ===== src/Heartbeat/Check.antt =====
-- The check task of muxado/src/heartbeat.rs, on a clock in nanoseconds. A turn of the loop either
-- waits to the deadline or takes what the requester sends; a timeout looks at the channel first, so
-- a mark at the deadline is in time. A callback takes no time.
use ngrok_rs.Common.{
  ℕ, zero, suc, ◌+◌, ◌≤◌, ◌≡◌, max, ltb, if◌then◌else◌, Bool, true, false, List, [], ◌∷◌, Option,
  none, some, length, arith,
}
use ngrok_rs.Heartbeat.{HeartbeatCtl, get_durations}

-- When the requester sends something: a latency, or its end.
abbrev pub Arrivals : Type 0
Arrivals = List (ℕ × Option ℕ)

-- `interval + tolerance`
unfoldable pub period : HeartbeatCtl → ℕ
unfolding get_durations
period ctl = (get_durations ctl).0 + (get_durations ctl).1

-- The loop of `start_check` for so many turns, with the control at each time: when the callback is
-- called and with what latency. A latency of 0 stands for a missed heartbeat.
unfoldable pub check_loop : ℕ → (ℕ → HeartbeatCtl) → ℕ → ℕ → Arrivals → List (ℕ × ℕ)
check_loop zero ctl now deadline arrivals = []
check_loop (suc turns) ctl now deadline [] =
    (deadline, 0) ∷ check_loop turns ctl deadline (deadline + period (ctl deadline)) []
check_loop (suc turns) ctl now deadline ((at, none) ∷ rest) = elim (ltb deadline at) [
  | true ↦
      (deadline, 0)
      ∷ check_loop turns ctl deadline (deadline + period (ctl deadline)) ((at, none) ∷ rest)
  | false ↦ []
]
check_loop (suc turns) ctl now deadline ((at, some latency) ∷ rest) = elim (ltb deadline at) [
  | true ↦
      (deadline, 0)
      ∷ check_loop turns ctl deadline (deadline + period (ctl deadline)) ((at, some latency) ∷ rest)
  | false ↦
      (max now at, latency)
      ∷ check_loop turns ctl (max now at) (max now at + period (ctl (max now at))) rest
]

-- `start_check`, at this time; without a callback nothing is called.
unfoldable pub start_check : Bool → ℕ → (ℕ → HeartbeatCtl) → ℕ → Arrivals → List (ℕ × ℕ)
unfolding check_loop
start_check cb turns ctl now arrivals =
    if cb then check_loop turns ctl now (now + period (ctl now)) arrivals else []

-- Each one comes in order, and not later than an interval and a tolerance after the one before.
abbrev pub InTime : (ℕ → HeartbeatCtl) → ℕ → Arrivals → Type 0
InTime ctl now [] = Unit
InTime ctl now ((at, mark) ∷ rest) =
    (now ≤ at) × (at ≤ now + ((ctl now).interval + (ctl now).tolerance)) × InTime ctl at rest

-- What the marks say, up to the end of the requester
abbrev pub latencies : Arrivals → List (ℕ × ℕ)
latencies [] = []
latencies ((at, none) ∷ rest) = []
latencies ((at, some latency) ∷ rest) = (at, latency) ∷ latencies rest

-- The requester ends.
abbrev pub Ends : Arrivals → Type 0
Ends [] = ⊥
Ends ((at, none) ∷ rest) = Unit
Ends ((at, some latency) ∷ rest) = Ends rest

not_late : (deadline at : ℕ) → at ≤ deadline → ltb deadline at ≡ false
not_late deadline at h = ground arith

max_later : (now at : ℕ) → now ≤ at → max now at ≡ at
max_later now at h = omega arith

check_loop-InTime :
    (arrivals : Arrivals) (turns : ℕ) (ctl : ℕ → HeartbeatCtl) (now : ℕ)
    → InTime ctl now arrivals
    → Ends arrivals
    → length arrivals ≤ turns
    → check_loop turns ctl now (now + period (ctl now)) arrivals ≡ latencies arrivals
unfolding check_loop period get_durations
check_loop-InTime [] turns ctl now t e le = elim e [ ]
check_loop-InTime (arrival ∷ rest) zero ctl now t e le = ground arith
check_loop-InTime ((at, none) ∷ rest) (suc turns) ctl now (lo, hi, t) e le =
    rw (not_late (now + period (ctl now)) at hi, check_loop)
check_loop-InTime ((at, some latency) ∷ rest) (suc turns) ctl now (lo, hi, t) e le = rw (
  not_late (now + period (ctl now)) at hi,
  max_later now at lo,
  check_loop,
  check_loop-InTime rest turns ctl at t e (ground arith),
)

-- Where every heartbeat is answered within an interval and a tolerance of the one before, whatever
-- these are set to meanwhile, the callback is called once for each answer, with its latency, and
-- never for a missed heartbeat, until the requester ends and the check with it.
pub start_check-InTime :
    (arrivals : Arrivals) (turns : ℕ) (ctl : ℕ → HeartbeatCtl) (now : ℕ)
    → InTime ctl now arrivals
    → Ends arrivals
    → length arrivals ≤ turns
    → start_check true turns ctl now arrivals ≡ latencies arrivals
unfolding start_check
start_check-InTime arrivals turns ctl now t e le = check_loop-InTime arrivals turns ctl now t e le
