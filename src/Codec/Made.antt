-- ===== src/Codec/Made.antt =====
-- The frames that the program makes itself, by the constructors of muxado/src/frame.rs, and how
-- they fare in the codec.
use ngrok_rs.Common.{
  ℕ, ◌-◌, ◌<◌, ◌≤◌, ◌≡◌, refl, sym, ap, ◌∙◌, arith, ◌++◌, [], append_assoc, length, take, drop,
  length-take, take_all, take-append-drop, min, some, ok, err,
}
use ngrok_rs.Constrained.{clamp}
use ngrok_rs.Errors.{Error, InvalidHeader, stream_id_max, wndinc_max, length_max, code_from_error}
use ngrok_rs.Frame.{
  Bytes, HeaderType, Body, Frame, default_header, frame_from, fin, syn, with_stream_id, rst_frame,
  goaway,
}
use ngrok_rs.Codec.Buffers.{BufOps, IsBuf}
use ngrok_rs.Codec.RoundTrip.{CanEncode, wire, encode-wire, decode-wire}
use ngrok_rs.Codec.{fresh, validate_header, encode_header, encode_body, encode, decode}

-- The ids that a stream may have.
abbrev pub IsStreamId : ℕ → Type 0
IsStreamId id = (0 < id) × (id ≤ stream_id_max)

abbrev pub data_frame : ℕ → Bytes → Frame
data_frame id bs = with_stream_id id (frame_from (Body.data bs))

-- The frames that a stream sends, data (plain, with FIN or with SYN) and window increments, and
-- the resets, can be encoded under every stream's id. A data frame carries all the bytes if they
-- are at most the longest length of a frame, and otherwise as many of the first ones.
pub made-CanEncode :
    (id inc : ℕ) (bs : Bytes) (e : Error)
    → IsStreamId id
    → inc ≤ wndinc_max
    → CanEncode (data_frame id bs)
      × CanEncode (fin (data_frame id bs))
      × CanEncode (syn (data_frame id bs))
      × CanEncode (with_stream_id id (frame_from (Body.wnd_inc inc)))
      × CanEncode (rst_frame id e)
      × ((data_frame id bs).body ≡ Body.data (take (min length_max (length bs)) bs))
unfolding frame_from fin syn with_stream_id rst_frame validate_header clamp
made-CanEncode id inc bs e h hi = (
  record { valid = ground arith; bounds = ground (arith, cut); fits = ground (arith, cut) },
  record { valid = ground arith; bounds = ground (arith, cut); fits = ground (arith, cut) },
  record { valid = ground arith; bounds = ground (arith, cut); fits = ground (arith, cut) },
  record { valid = ground arith; bounds = ground arith; fits = hi },
  record { valid = ground arith; bounds = ground arith; fits = tt },
  refl,
)
  where
    cut : length (take (min length_max (length bs)) bs) ≡ min length_max (length bs)
    cut = length-take (min length_max (length bs)) bs ∙ omega arith

-- What the reader gets of a GOAWAY: the message without its last eight bytes.
abbrev pub goaway_read : ℕ → Error → Bytes → Frame
goaway_read last e message = record {
  header = record default_header { length = length message; typ = HeaderType.go_away };
  body = Body.go_away last e (take (length message - 8) message);
}

module _ (lib : BufOps) (laws : IsBuf lib) where
  goaway_read-CanEncode :
      (last : ℕ) (e : Error) (message : Bytes)
      → last ≤ stream_id_max
      → 8 ≤ length message
      → length message ≤ length_max
      → CanEncode (goaway_read last e message)
  unfolding validate_header
  goaway_read-CanEncode last e message hl lo hi = record {
    valid = ground arith;
    bounds = ground arith;
    fits = (hl, omega (arith, length-take (length message - 8) message));
  }

  goaway_fields :
      (last : ℕ) (e : Error) (message : Bytes)
      → length message ≤ length_max
      → goaway last e message ≡ record {
        header = record default_header { length = length message; typ = HeaderType.go_away };
        body = Body.go_away last e message;
      }
  unfolding goaway
  goaway_fields last e message hi = ground (arith, take_all (length message) message)

  wire-goaway :
      (last : ℕ) (e : Error) (message : Bytes)
      → 8 ≤ length message
      → length message ≤ length_max
      → wire lib laws (goaway last e message)
        ≡ wire lib laws (goaway_read last e message) ++ drop (length message - 8) message
  unfolding encode_body
  wire-goaway last e message lo hi =
      ap (wire lib laws) (goaway_fields last e message hi)
      ∙ ap (λ m. head ++ (words ++ m)) (sym (take-append-drop k message))
      ∙ ap (λ m. head ++ m) (sym (append_assoc words (take k message) (drop k message)))
      ∙ sym (append_assoc head (words ++ take k message) (drop k message))
    where
      k : ℕ
      k = length message - 8

      head : Bytes
      head = encode_header lib (goaway_read last e message).header []

      words : Bytes
      words = ([] ++ lib.put_u32 last) ++ lib.put_u32 (code_from_error e)

  -- A GOAWAY frame is not read back. Its header says how long the message is, and not the eight
  -- bytes of the two numbers before it. So with a message of at least eight bytes, the peer reads
  -- the message without its last eight bytes and takes these for the start of the next frame; and
  -- with a shorter one the frame is not sent at all, and the codec reports an invalid header.
  pub encode-goaway :
      (last : ℕ) (e : Error) (message buf : Bytes)
      → last ≤ stream_id_max
      → length message ≤ length_max
      → (8 ≤ length message
          → (w : Bytes) × (encode lib (goaway last e message) buf ≡ (buf ++ w, ok tt))
            × (decode lib fresh w
                ≡ ok (fresh, drop (length message - 8) message, some (goaway_read last e message))))
        × (length message < 8
            → encode lib (goaway last e message) buf
              ≡ (buf, err (InvalidHeader.min_length 8 (length message))))
  encode-goaway last e message buf hl hi = (
    λ lo. (
      wire lib laws (goaway last e message),
      encode-wire lib laws (goaway last e message) buf (valid lo),
      ap (decode lib fresh) (wire-goaway last e message lo hi)
          ∙ decode-wire lib laws (goaway_read last e message) _
              (goaway_read-CanEncode last e message hl lo hi),
    ),
    λ short. refused short,
  )
    where
      valid : 8 ≤ length message → validate_header (goaway last e message).header ≡ ok tt
      valid lo =
          ap (λ f. validate_header (f.header)) (goaway_fields last e message hi)
          ∙ (goaway_read-CanEncode last e message hl lo hi).valid

      refused :
          length message < 8
          → encode lib (goaway last e message) buf
            ≡ (buf, err (InvalidHeader.min_length 8 (length message)))
      refused short =
          rw (goaway_fields last e message hi) (unfold encode validate_header in ground arith)
