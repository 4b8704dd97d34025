-- ===== src/Codec/Network.antt =====
-- The codec's parameter as big-endian numbers, which the `bytes` crate documents.
use ngrok_rs.Common.{
  ℕ, ◌+◌, ◌*◌, ◌/◌, ◌%◌, ◌^◌, ◌<◌, ◌≤◌, ◌≡◌, refl, arith, [], ◌∷◌, ◌++◌, length, drop, Result, ok,
  err, Panic, panic,
}
use ngrok_rs.Frame.{Bytes}
use ngrok_rs.Codec.Buffers.{BufOps, IsBuf}

abbrev put_network : ℕ → Bytes
put_network n = (n / 0x1000000 % 256) ∷ (n / 0x10000 % 256) ∷ (n / 0x100 % 256) ∷ (n % 256) ∷ []

abbrev get_network : Bytes → Result Panic (ℕ × Bytes)
get_network (a ∷ b ∷ c ∷ d ∷ rest) =
    ok (a % 256 * 0x1000000 + b % 256 * 0x10000 + c % 256 * 0x100 + d % 256, rest)
get_network _ = err panic

abbrev pub network : BufOps
network = record { put_u32 = put_network; get_u32 = get_network }

get-put_network :
    (n : ℕ) (rest : Bytes) → n < 2 ^ 32 → get_network (put_network n ++ rest) ≡ ok (n, rest)
get-put_network n rest h = ground arith

four_network :
    (bs : Bytes) → 4 ≤ length bs → (n : ℕ) × (n < 2 ^ 32) × (get_network bs ≡ ok (n, drop 4 bs))
four_network (a ∷ b ∷ c ∷ d ∷ rest) h =
    (a % 256 * 0x1000000 + b % 256 * 0x10000 + c % 256 * 0x100 + d % 256, omega arith, refl)
four_network _ h = absurd (omega arith)

short_network : (bs : Bytes) → length bs < 4 → get_network bs ≡ err panic
short_network (a ∷ b ∷ c ∷ d ∷ rest) h = absurd (omega arith)
short_network _ h = refl

pub network-IsBuf : IsBuf network
network-IsBuf = record {
  width = λ n. refl;
  get-put = get-put_network;
  four = four_network;
  short = short_network;
}
