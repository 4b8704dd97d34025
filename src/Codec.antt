-- ===== src/Codec.antt =====
-- muxado/src/codec.rs: frames to bytes and back.
pub mod Buffers
pub mod Fields
pub mod Headers
pub mod RoundTrip
pub mod Chunks
pub mod Safety
pub mod Made
pub mod Network
mod Runs
use ngrok_rs.Common.{
  ℕ, ◌+◌, ◌*◌, ◌/◌, ◌%◌, ◌^◌, ◌==◌, ltb, if◌then◌else◌, bit_and, bit_or, Option, none, some, ◌++◌,
  length, take, drop, Result, ok, err, ◌>>=◌, ◌>>◌, Panic, panic,
}
use ngrok_rs.Constrained.{clamp, mask, try_from}
use ngrok_rs.Errors.{
  InvalidHeader, length_range, stream_id_range, wnd_inc_range, error_code_range, code_from_error,
  error_from_code,
}
use ngrok_rs.Frame.{
  Bytes, HeaderType, Header, Body, Frame, fin_flag, syn_flag, header_type_from, u8_from,
}
use Buffers.{BufOps}

pub record FrameCodec : Type 0 where
  pub input_header : Option Header

-- `FrameCodec::default()`
abbrev pub fresh : FrameCodec
fresh = record { input_header = none }

unfoldable pub expect_zero_stream_id : Header → Result InvalidHeader (Unit {0})
unfolding clamp
expect_zero_stream_id h =
    if h.stream_id == clamp stream_id_range 0
    then ok tt
    else err (InvalidHeader.non_zero_stream_id h.stream_id)

unfoldable pub expect_non_zero_stream_id : Header → Result InvalidHeader (Unit {0})
unfolding clamp
expect_non_zero_stream_id h =
    if h.stream_id == clamp stream_id_range 0 then err InvalidHeader.zero_stream_id else ok tt

unfoldable pub expect_length : Header → ℕ → Result InvalidHeader (Unit {0})
expect_length h len = if h.length == len then ok tt else err (InvalidHeader.length len h.length)

unfoldable pub expect_min_length : Header → ℕ → Result InvalidHeader (Unit {0})
expect_min_length h len =
    if ltb h.length len then err (InvalidHeader.min_length len h.length) else ok tt

-- The match of `validate_header` on the header's type.
validate_typ : HeaderType → Header → Result InvalidHeader (Unit {0})
unfolding expect_zero_stream_id expect_non_zero_stream_id expect_length expect_min_length clamp
validate_typ HeaderType.rst h = do
  expect_non_zero_stream_id h
  expect_length h (clamp length_range 4)
validate_typ HeaderType.data h = expect_non_zero_stream_id h
validate_typ HeaderType.wnd_inc h = do
  expect_non_zero_stream_id h
  expect_length h (clamp length_range 4)
validate_typ HeaderType.go_away h = do
  expect_zero_stream_id h
  expect_min_length h (clamp length_range 8)
validate_typ (HeaderType.invalid t) h = err (InvalidHeader.typ t)

unfoldable pub validate_header : Header → Result InvalidHeader (Unit {0})
unfolding validate_typ
validate_header h = validate_typ h.typ h

-- `.unwrap()` on a result.
abbrev unwrap {ℓ κ} : {E : Type κ} {A : Type ℓ} → Result E A → Result Panic A
unwrap (ok a) = ok a
unwrap (err e) = err panic

-- `Flags::from_bits_truncate`: the bits that no flag uses are dropped.
unfoldable pub from_bits_truncate : ℕ → ℕ
from_bits_truncate bits = bit_and bits (bit_or fin_flag syn_flag)

unfoldable pub pack_type_flags : Header → ℕ
unfolding u8_from
pack_type_flags h = bit_or (bit_and (u8_from h.typ * 16 % 2 ^ 8) 0xF0) (bit_and h.flags 0x0F)

unfoldable pub pack_length_type_flags : Header → ℕ
pack_length_type_flags h =
    bit_or (bit_and (h.length * 2 ^ 8 % 2 ^ 32) 0xFFFFFF00) (pack_type_flags h)

module _ (lib : BufOps) where
  open lib use {put_u32, get_u32}

  unfoldable pub decode_header : Bytes → Result Panic Header
  unfolding try_from header_type_from from_bits_truncate mask
  decode_header bs = do
    (length_type_flags, bs') ← get_u32 bs
    len ← unwrap (try_from length_range (bit_and length_type_flags 0xFFFFFF00 / 2 ^ 8))
    let type_flags = length_type_flags % 2 ^ 8
    (id, _) ← get_u32 bs'
    ok (record {
      length = len;
      typ = header_type_from (bit_and type_flags 0xF0 / 2 ^ 4);
      flags = from_bits_truncate (bit_and type_flags 0x0F);
      stream_id = mask stream_id_range id;
    })

  -- The match of `decode_frame` on the header's type.
  unfoldable pub decode_body : HeaderType → Bytes → Result Panic Body
  unfolding mask error_from_code
  decode_body HeaderType.rst body = do
    (code, _) ← get_u32 body
    ok (Body.rst (error_from_code (mask error_code_range code)))
  decode_body HeaderType.data body = ok (Body.data body)
  decode_body HeaderType.wnd_inc body = do
    (inc, _) ← get_u32 body
    ok (Body.wnd_inc (mask wnd_inc_range inc))
  decode_body HeaderType.go_away body = do
    (last, body') ← get_u32 body
    (code, message) ← get_u32 body'
    ok (
        Body.go_away (mask stream_id_range last) (error_from_code (mask error_code_range code))
          message)
  decode_body (HeaderType.invalid t) body = ok (Body.invalid (InvalidHeader.typ t) body)

  unfoldable pub decode_frame : Header → Bytes → Result Panic Frame
  decode_frame h body = elim (validate_header h) [
    | err e ↦ ok (record { header = h; body = Body.invalid e body })
    | ok _ ↦ decode_body h.typ body >>= λ b. ok (record { header = h; body = b })
  ]

  -- The part of `decode` below the header: wait for the body, or cut it off and drop the header.
  unfoldable pub decode_sized : Header → Bytes → Result Panic (FrameCodec × Bytes × Option Frame)
  decode_sized h b =
      if ltb (length b) h.length
      then ok (record { input_header = some h }, b, none)
      else decode_frame h (take h.length b) >>= λ f. ok (fresh, drop h.length b, some f)

  -- `Decoder::decode`: the new codec, the bytes left, and the frame if there is one.
  unfoldable pub decode : FrameCodec → Bytes → Result Panic (FrameCodec × Bytes × Option Frame)
  decode c b = elim c.input_header [
    | some h ↦ decode_sized h b
    | none ↦
        if ltb (length b) 8
        then ok (c, b, none)
        else decode_header (take 8 b) >>= λ h. decode_sized h (drop 8 b)
  ]

  unfoldable pub encode_header : Header → Bytes → Bytes
  encode_header h buf = (buf ++ put_u32 (pack_length_type_flags h)) ++ put_u32 h.stream_id

  unfoldable pub encode_body : Body → Bytes → Bytes
  encode_body (Body.rst e) buf = buf ++ put_u32 (code_from_error e)
  encode_body (Body.data bs) buf = buf ++ bs
  encode_body (Body.wnd_inc inc) buf = buf ++ put_u32 inc
  encode_body (Body.go_away last e message) buf =
      ((buf ++ put_u32 last) ++ put_u32 (code_from_error e)) ++ message
  encode_body (Body.invalid e body) buf = buf ++ body

  -- `Encoder::encode`: the buffer, and the result.
  unfoldable pub encode : Frame → Bytes → Bytes × Result InvalidHeader (Unit {0})
  encode f buf = elim (validate_header f.header) [
    | err e ↦ (buf, err e)
    | ok _ ↦ (encode_body f.body (encode_header f.header buf), ok tt)
  ]
