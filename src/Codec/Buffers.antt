-- ===== src/Codec/Buffers.antt =====
-- What muxado/src/codec.rs takes from the `bytes` crate: reading and writing a u32, as a
-- parameter. A `BytesMut` is the list of the bytes that it holds.
use ngrok_rs.Common.{ℕ, ◌≤◌, ◌<◌, ◌^◌, ◌≡◌, ◌++◌, Result, ok, err, Panic, panic, length, drop}
use ngrok_rs.Frame.{Bytes}

pub record BufOps : Type 0 where
  -- The bytes that `put_u32` appends.
  pub put_u32 : ℕ → Bytes
  -- `get_u32` returns the number and what is left. It panics when the buffer is too short.
  pub get_u32 : Bytes → Result Panic (ℕ × Bytes)

-- The documented behaviour: four bytes are written, and reading them gives the number back;
-- whatever the bytes are, four of them make a u32.
pub record IsBuf (lib : BufOps) : Type 0 where
  pub width : (n : ℕ) → length (lib.put_u32 n) ≡ 4
  pub get-put :
      (n : ℕ) (rest : Bytes) → n < 2 ^ 32 → lib.get_u32 (lib.put_u32 n ++ rest) ≡ ok (n, rest)
  pub four :
      (bs : Bytes) → 4 ≤ length bs → (n : ℕ) × (n < 2 ^ 32) × (lib.get_u32 bs ≡ ok (n, drop 4 bs))
  pub short : (bs : Bytes) → length bs < 4 → lib.get_u32 bs ≡ err panic
