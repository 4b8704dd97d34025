-- ===== src/Constrained.antt =====
-- muxado/src/constrained.rs: numbers that are kept within a range. The macro's base type is u32
-- wherever it is used, and a value of the new type is the number that it wraps.
pub mod Bounds
mod Runs
use ngrok_rs.Common.{ℕ, Bool, ◌&&◌, ltb, leb, if◌then◌else◌, bit_and, Result, ok, err}

-- The macro's `$range`.
pub record Range : Type 0 where
  pub start : ℕ
  pub end : ℕ

pub record OutOfRange : Type 0 where
  pub got : ℕ
  pub expected : Range

unfoldable pub clamp : Range → ℕ → ℕ
clamp r value = if ltb r.end value then r.end else if ltb value r.start then r.start else value

unfoldable pub mask : Range → ℕ → ℕ
mask r value =
    if ltb value r.start then r.start else if ltb r.end value then bit_and value r.end else value

-- `RANGE.contains(&other)`
abbrev contains : Range → ℕ → Bool
contains r value = leb r.start value && leb value r.end

unfoldable pub try_from : Range → ℕ → Result OutOfRange ℕ
try_from r other = if contains r other then ok other else err (record { got = other; expected = r })

-- The value of `Default`.
unfoldable pub default : Range → ℕ
default r = r.start
