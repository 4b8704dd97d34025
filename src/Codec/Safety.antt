-- ===== src/Codec/Safety.antt =====
-- What the decoder does with any bytes, well formed or not.
use ngrok_rs.Common.{
  ℕ, ◌<◌, ◌≤◌, ◌≡◌, refl, arith, inl, inr, ◌⊎◌, length, take, drop, length-take, length-drop, ltb,
  Bool-cases, Result-cases, Option, none, some, ok, err,
}
use mathlib.Core.Path.{subst}
use mathlib.Core.Bool.{false}
use ngrok_rs.Constrained.{mask}
use ngrok_rs.Constrained.Bounds.{mask_low_bits}
use ngrok_rs.Errors.{
  InvalidHeader, stream_id_range, wnd_inc_range, error_code_range, error_from_code,
}
use ngrok_rs.Frame.{Bytes, HeaderType, Header, Body, Frame}
use ngrok_rs.Codec.Buffers.{BufOps, IsBuf}
use ngrok_rs.Codec.Headers.{InBounds, header_of, decode_header_words}
use ngrok_rs.Codec.RoundTrip.{Fits, CanEncode}
use ngrok_rs.Codec.{
  FrameCodec, fresh, validate_typ, validate_header, decode_header, decode_body, decode_frame,
  decode_sized, decode,
}

-- A header that the decoder keeps is in range.
abbrev pub HeaderOk : Option Header → Type 0
HeaderOk none = Unit {0}
HeaderOk (some h) = InBounds h

-- A frame as it comes out of the decoder: its header is in range, and either the frame could be
-- encoded again, or its header is invalid and the body holds the reason and all the bytes.
abbrev pub IsDecoded : Frame → Type 0
IsDecoded f =
    CanEncode f
    ⊎ ((e : InvalidHeader) × (bs : Bytes) × (validate_header f.header ≡ err e)
        × (f.body ≡ Body.invalid e bs)
        × (length bs ≡ f.header.length)
        × InBounds f.header)

module _ (lib : BufOps) (laws : IsBuf lib) where
  decode_body_total :
      (t : HeaderType) (h : Header) (bs : Bytes)
      → validate_typ t h ≡ ok tt
      → length bs ≡ h.length
      → (b : Body) × (decode_body lib t bs ≡ ok b) × Fits t h.length b
  unfolding validate_typ decode_body
  decode_body_total HeaderType.rst h bs v len =
      let (n, hn, e) = laws.four bs (ground arith) in
      (Body.rst (error_from_code (mask error_code_range n)), rw e, tt)
  decode_body_total HeaderType.data h bs v len = (Body.data bs, refl, len)
  decode_body_total HeaderType.wnd_inc h bs v len =
      let (n, hn, e) = laws.four bs (ground arith) in
      (Body.wnd_inc (mask wnd_inc_range n), rw e, omega (arith, mask_low_bits 31 n))
  decode_body_total HeaderType.go_away h bs v len =
      let eight : 8 ≤ length bs = ground arith in
      let (n, hn, e) = laws.four bs (omega arith) in
      let (m, hm, e') = laws.four (drop 4 bs) (omega (arith, length-drop 4 bs)) in
      (
        Body.go_away (mask stream_id_range n) (error_from_code (mask error_code_range m))
            (drop 4 (drop 4 bs)),
        rw (e, e'),
        (
          omega (arith, mask_low_bits 31 n),
          omega (arith, length-drop 4 bs, length-drop 4 (drop 4 bs)),
        ),
      )
  decode_body_total (HeaderType.invalid t) h bs v len = absurd (ground arith)

  decode_header_total :
      (bs : Bytes) → length bs ≡ 8 → (h : Header) × (decode_header lib bs ≡ ok h) × InBounds h
  decode_header_total bs len =
      let (n, hn, e) = laws.four bs (omega arith) in
      let (id, hid, e') = laws.four (drop 4 bs) (omega (arith, length-drop 4 bs)) in
      (
        header_of n id,
        decode_header_words lib bs (drop 4 bs) (drop 4 (drop 4 bs)) n id hn e e',
        record { length_fits = omega arith; flags_fit = omega arith; stream_id_fits = omega arith },
      )

  decode_frame_total :
      (h : Header) (bs : Bytes)
      → InBounds h
      → length bs ≡ h.length
      → (f : Frame) × (decode_frame lib h bs ≡ ok f) × (f.header ≡ h) × IsDecoded f
  unfolding decode_frame validate_header
  decode_frame_total h bs bounds len = elim (Result-cases (validate_header h)) [
    | inr (e, q) ↦ (
      record { header = h; body = Body.invalid e bs },
      rw (q, decode_frame),
      refl,
      inr (e, bs, q, refl, len, bounds),
    )
    | inl (_, q) ↦
        let (b, d, fits) = decode_body_total h.typ h bs q len in
        (
          record { header = h; body = b },
          rw (q, decode_frame, d),
          refl,
          inl (record { valid = q; bounds = bounds; fits = fits }),
        )
  ]

same_frame : (f g : Frame) → some f ≡ some g → f ≡ g
same_frame f g e = cc

-- How many bytes a decoder that waits is waiting for.
abbrev pub wanted : Option Header → ℕ
wanted none = 8
wanted (some h) = h.length

-- What a call of `decode` guarantees: the header that is kept is in range; a frame is one as
-- described above, and the decoder is then fresh; and no frame means that bytes are missing.
pub record Answers (c' : FrameCodec) (b' : Bytes) (o : Option Frame) : Type 0 where
  pub keeps : HeaderOk c'.input_header
  pub found : (f : Frame) → o ≡ some f → IsDecoded f × (c' ≡ fresh)
  pub waits : o ≡ none → length b' < wanted c'.input_header

module _ (lib : BufOps) (laws : IsBuf lib) where
  decode_sized_total :
      (h : Header) (b : Bytes)
      → InBounds h
      → (c' : FrameCodec) × (b' : Bytes) × (o : Option Frame) × (decode_sized lib h b
          ≡ ok (c', b', o))
        × Answers c' b' o
  unfolding decode_sized
  decode_sized_total h b bounds = elim (Bool-cases (ltb (length b) h.length)) [
    | inl short ↦ (
      record { input_header = some h },
      b,
      none,
      rw short,
      record { keeps = bounds; found = λ f e. cc; waits = λ e. ground arith },
    )
    | inr long ↦
        let (f, d, _, decoded) =
          decode_frame_total lib laws h (take h.length b) bounds
            (omega (arith, length-take h.length b, enough h b long)) in
        (
          fresh,
          drop h.length b,
          some f,
          rw (long, d),
          record {
            keeps = tt;
            found = λ g e. (subst IsDecoded (same_frame f g e) decoded, refl);
            waits = λ e. cc;
          },
        )
  ]
    where
      enough : (g : Header) (bs : Bytes) → ltb (length bs) g.length ≡ false → g.length ≤ length bs
      enough g bs q = ground arith

  decode_from :
      (o : Option Header) (b : Bytes)
      → HeaderOk o
      → (c' : FrameCodec) × (b' : Bytes) × (r : Option Frame) × (decode lib
            (record { input_header = o })
            b
          ≡ ok (c', b', r))
        × Answers c' b' r
  unfolding decode
  decode_from (some h) b known = decode_sized_total h b known
  decode_from none b known = elim (Bool-cases (ltb (length b) 8)) [
    | inl short ↦ (
      fresh,
      b,
      none,
      rw short,
      record { keeps = tt; found = λ f e. cc; waits = λ e. ground arith },
    )
    | inr long ↦
        let (h, d, bounds) =
          decode_header_total lib laws (take 8 b) (omega (arith, length-take 8 b, enough b long)) in
        let (c', b', o, e, answers) = decode_sized_total h (drop 8 b) bounds in
        (c', b', o, rw (long, d) e, answers)
  ]
    where
      enough : (bs : Bytes) → ltb (length bs) 8 ≡ false → 8 ≤ length bs
      enough bs q = ground arith

  -- Whatever bytes arrive, `decode` does not panic. The header that it keeps is in range; a frame
  -- that it returns can be encoded again or carries its whole body with the reason why its header
  -- is invalid, and leaves the decoder fresh; and it returns no frame only while it has fewer
  -- bytes than it waits for.
  pub decode_total :
      (c : FrameCodec) (b : Bytes)
      → HeaderOk c.input_header
      → (c' : FrameCodec) × (b' : Bytes) × (o : Option Frame) × (decode lib c b ≡ ok (c', b', o))
        × Answers c' b' o
  decode_total c b known = decode_from c.input_header b known
