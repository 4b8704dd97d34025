-- ===== src/Codec/Chunks.antt =====
-- The decoder of muxado/src/codec.rs and the pieces in which the connection's bytes come.
use ngrok_rs.Common.{
  ◌≤◌, ◌≡◌, ap, ◌∙◌, arith, ◌++◌, inl, inr, length, length-append, take, drop, take-append_le,
  drop-append_le, ltb, Bool-cases, Result-cases, Option, none, some, ok,
}
use ngrok_rs.Frame.{Bytes, Header, Frame}
use ngrok_rs.Codec.Buffers.{BufOps}
use ngrok_rs.Codec.{FrameCodec, decode_header, decode_frame, decode_sized, decode}

abbrev holding : Header → FrameCodec
holding h = record { input_header = some h }

module _ (lib : BufOps) where
  decode_sized_wait :
      (h : Header) (b more : Bytes) (c' : FrameCodec) (b' : Bytes)
      → decode_sized lib h b ≡ ok (c', b', none)
      → (c' ≡ holding h) × (b' ≡ b)
  unfolding decode_sized
  decode_sized_wait h b more c' b' e = elim (Bool-cases (ltb (length b) h.length)) [
    | inl short ↦ ground (arith, short)
    | inr long ↦ elim (Result-cases (decode_frame lib h (take h.length b))) [
      | inl (f, q) ↦ ground (arith, long, q)
      | inr (p, q) ↦ ground (arith, long, q)
    ]
  ]

  decode_sized_found :
      (h : Header) (b more : Bytes) (c' : FrameCodec) (b' : Bytes) (f : Frame)
      → decode_sized lib h b ≡ ok (c', b', some f)
      → decode_sized lib h (b ++ more) ≡ ok (c', b' ++ more, some f)
  unfolding decode_sized
  decode_sized_found h b more c' b' f e = elim (Bool-cases (ltb (length b) h.length)) [
    | inl short ↦ absurd (ground (arith, short))
    | inr long ↦ ground (
      arith,
      long,
      length-append b more,
      take-append_le h.length b more (ground arith),
      drop-append_le h.length b more (ground arith),
      Result-cases (decode_frame lib h (take h.length b)),
    )
  ]

  -- Past the header the two reads agree. `cut` is what eight bytes at hand mean.
  header_cut :
      (b more : Bytes)
      → 8 ≤ length b
      → (take 8 (b ++ more) ≡ take 8 b) × (drop 8 (b ++ more) ≡ drop 8 b ++ more)
  header_cut b more h = (take-append_le 8 b more h, drop-append_le 8 b more h)

  decode_wait :
      (o : Option Header) (b more : Bytes) (c' : FrameCodec) (b' : Bytes)
      → decode lib (record { input_header = o }) b ≡ ok (c', b', none)
      → decode lib c' (b' ++ more) ≡ decode lib (record { input_header = o }) (b ++ more)
  unfolding decode
  decode_wait (some h) b more c' b' e = ground (arith, decode_sized_wait h b more c' b')
  decode_wait none b more c' b' e = elim (Bool-cases (ltb (length b) 8)) [
    | inl short ↦ ground (arith, short)
    | inr long ↦ elim (Result-cases (decode_header lib (take 8 b))) [
      | inl (h, q) ↦ ground (
        arith,
        long,
        q,
        length-append b more,
        header_cut b more (ground arith),
        decode_sized_wait h (drop 8 b) more c' b',
      )
      | inr (p, q) ↦ ground (arith, long, q)
    ]
  ]

  decode_found :
      (o : Option Header) (b more : Bytes) (c' : FrameCodec) (b' : Bytes) (f : Frame)
      → decode lib (record { input_header = o }) b ≡ ok (c', b', some f)
      → decode lib (record { input_header = o }) (b ++ more) ≡ ok (c', b' ++ more, some f)
  unfolding decode
  decode_found (some h) b more c' b' f e = decode_sized_found h b more c' b' f e
  decode_found none b more c' b' f e = elim (Bool-cases (ltb (length b) 8)) [
    | inl short ↦ absurd (ground (arith, short))
    | inr long ↦ elim (Result-cases (decode_header lib (take 8 b))) [
      | inl (h, q) ↦ ground (
        arith,
        long,
        q,
        length-append b more,
        header_cut b more (ground arith),
        decode_sized_found h (drop 8 b) more c' b' f,
      )
      | inr (p, q) ↦ ground (arith, long, q)
    ]
  ]

  -- Frames do not depend on how the bytes arrive. A decoder that waits can be fed more bytes and
  -- answers as one that has all of them from the start; one that has found a frame finds the same
  -- frame with more bytes behind, and leaves these behind what it leaves.
  pub decode-append :
      (c c' : FrameCodec) (b b' more : Bytes) (o : Option Frame)
      → decode lib c b ≡ ok (c', b', o)
      → ((o ≡ none) → decode lib c' (b' ++ more) ≡ decode lib c (b ++ more))
        × ((f : Frame) → o ≡ some f → decode lib c (b ++ more) ≡ ok (c', b' ++ more, some f))
  decode-append c c' b b' more o e = (
    λ n. decode_wait c.input_header b more c' b' (e ∙ ap (λ x. ok (c', b', x)) n),
    λ f n. decode_found c.input_header b more c' b' f (e ∙ ap (λ x. ok (c', b', x)) n),
  )
