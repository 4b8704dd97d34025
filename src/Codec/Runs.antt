-- ===== src/Codec/Runs.antt =====
-- Concrete runs of codec.rs over big-endian numbers, and its theorems at concrete inputs.
use ngrok_rs.Common.{
  ◌-◌, ◌<◌, ◌≤◌, ◌≡◌, refl, arith, [], ◌∷◌, ◌++◌, length, drop, Option, none, some, ok, err,
}
use ngrok_rs.Errors.{Error, InvalidHeader}
use ngrok_rs.Frame.{Bytes, Frame, frame_from, with_stream_id, goaway}
use ngrok_rs.Codec.Network.{network, network-IsBuf}
use ngrok_rs.Codec.RoundTrip.{CanEncode, decode-encode}
use ngrok_rs.Codec.Chunks.{decode-append}
use ngrok_rs.Codec.Safety.{Answers, decode_total}
use ngrok_rs.Codec.Made.{data_frame, made-CanEncode, goaway_read, encode-goaway}
use ngrok_rs.Codec.{
  FrameCodec, fresh, validate_header, pack_length_type_flags, pack_type_flags, encode_header,
  encode_body, decode, encode,
}

-- "Hi" on stream 5.
abbrev hi : Frame
hi = data_frame 5 (0x48 ∷ 0x69 ∷ [])

hi_wire : (encode network hi []).0 ≡ 0 ∷ 0 ∷ 2 ∷ 0x10 ∷ 0 ∷ 0 ∷ 0 ∷ 5 ∷ 0x48 ∷ 0x69 ∷ []
unfolding encode validate_header frame_from with_stream_id encode_header encode_body pack_type_flags
    pack_length_type_flags
hi_wire = refl

hi-CanEncode : CanEncode hi
hi-CanEncode = (made-CanEncode 5 0 (0x48 ∷ 0x69 ∷ []) Error.none (omega arith) (omega arith)).0

decode-encode_example :
    ((encode network hi (7 ∷ [])).1 ≡ ok tt)
    × ((w : Bytes) × ((encode network hi (7 ∷ [])).0 ≡ (7 ∷ []) ++ w)
        × (decode network fresh (w ++ (9 ∷ [])) ≡ ok (fresh, 9 ∷ [], some hi)))
decode-encode_example = decode-encode network network-IsBuf hi (7 ∷ []) (9 ∷ []) hi-CanEncode

-- Three bytes of a header are too few.
abbrev cold : Bytes
cold = 0 ∷ 0 ∷ 2 ∷ []

decode-append_example :
    (◌≡◌ {A = Option Frame} none none
      → decode network fresh (cold ++ (0x10 ∷ [])) ≡ decode network fresh (cold ++ (0x10 ∷ [])))
    × ((f : Frame)
        → none ≡ some f
        → decode network fresh (cold ++ (0x10 ∷ [])) ≡ ok (fresh, cold ++ (0x10 ∷ []), some f))
unfolding decode
decode-append_example = decode-append network fresh fresh cold cold (0x10 ∷ []) none refl

decode_total_example :
    (c' : FrameCodec) × (b' : Bytes) × (o : Option Frame) × (decode network fresh
        (0 ∷ 0 ∷ 0 ∷ 0xF0 ∷ 0 ∷ 0 ∷ 0 ∷ 0 ∷ [])
      ≡ ok (c', b', o))
    × Answers c' b' o
decode_total_example =
    decode_total network network-IsBuf fresh (0 ∷ 0 ∷ 0 ∷ 0xF0 ∷ 0 ∷ 0 ∷ 0 ∷ 0 ∷ []) tt

-- "invalid frame", the message of the GOAWAY that the session sends.
abbrev invalid_frame : Bytes
invalid_frame =
    0x69 ∷ 0x6E ∷ 0x76 ∷ 0x61 ∷ 0x6C ∷ 0x69 ∷ 0x64 ∷ 0x20 ∷ 0x66 ∷ 0x72 ∷ 0x61 ∷ 0x6D ∷ 0x65 ∷ []

encode-goaway_example :
    (8 ≤ length invalid_frame
      → (w : Bytes) × (encode network (goaway 3 Error.protocol invalid_frame) [] ≡ ([] ++ w, ok tt))
        × (decode network fresh w
            ≡ ok (
              fresh,
              drop (length invalid_frame - 8) invalid_frame,
              some (goaway_read 3 Error.protocol invalid_frame),
            )))
    × (length invalid_frame < 8
        → encode network (goaway 3 Error.protocol invalid_frame) []
          ≡ ([], err (InvalidHeader.min_length 8 (length invalid_frame))))
encode-goaway_example =
    encode-goaway network network-IsBuf 3 Error.protocol invalid_frame [] (omega arith)
      (omega arith)
