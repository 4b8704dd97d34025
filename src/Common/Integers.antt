-- ===== src/Common/Integers.antt =====
-- The signed numbers, over the native ones, and Rust's casts between i64, u64 and usize, the last
-- as wide as on a 64-bit target.
use Prim.Native.Nat.{ℕ, ◌-◌, ◌^◌, ◌≤◌, ◌<◌}
use ngrok_rs.Common.Tests.{ltb, if◌then◌else◌}
use mathlib.Core.Path.{◌≡◌}
use native.Mathlib.Omega.{arith}

-- `negsuc n` is -1 - n.
pub data ℤ : Type 0 where
  pos : ℕ → ℤ
  negsuc : ℕ → ℤ

-- `n as i64`, for a u64
unfoldable pub as_i64 : ℕ → ℤ
as_i64 n = if ltb n (2 ^ 63) then pos n else negsuc (2 ^ 64 - 1 - n)

-- `z as usize`, for an i64
unfoldable pub as_usize : ℤ → ℕ
as_usize (pos n) = n
as_usize (negsuc n) = 2 ^ 64 - 1 - n

-- It is the value of an i64.
abbrev pub IsI64 : ℤ → Type 0
IsI64 (pos n) = n < 2 ^ 63
IsI64 (negsuc n) = n < 2 ^ 63

pub as_usize-as_i64 : (n : ℕ) → n < 2 ^ 64 → as_usize (as_i64 n) ≡ n
unfolding as_usize as_i64
as_usize-as_i64 n h = ground arith

-- A negative number is cast to one that no allocation has.
pub as_usize-negsuc : (n : ℕ) → IsI64 (negsuc n) → 2 ^ 63 ≤ as_usize (negsuc n)
unfolding as_usize
as_usize-negsuc n h = omega arith
