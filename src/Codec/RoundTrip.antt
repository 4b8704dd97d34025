-- ===== src/Codec/RoundTrip.antt =====
-- The encoder of muxado/src/codec.rs against its decoder.
use ngrok_rs.Common.{
  ℕ, ◌+◌, ◌^◌, ◌<◌, ◌≤◌, ◌≡◌, refl, sym, ap, ◌∙◌, arith, ◌++◌, [], append-nil, append_assoc, length,
  length-append, take, drop, take-append_length, drop-append_length, some, ok,
}
use ngrok_rs.Constrained.{mask}
use ngrok_rs.Constrained.Bounds.{mask_low_bits}
use ngrok_rs.Errors.{stream_id_max, wndinc_max, code_from_error, error_code_range}
use ngrok_rs.Errors.Codes.{read_back}
use ngrok_rs.Frame.{Bytes, HeaderType, Header, Body, Frame}
use ngrok_rs.Codec.Buffers.{BufOps, IsBuf}
use ngrok_rs.Codec.Fields.{IsKnown}
use ngrok_rs.Codec.Headers.{InBounds, decode_header-encode_header}
use ngrok_rs.Codec.{
  fresh, validate_typ, validate_header, encode_header, encode_body, encode, decode_body,
  decode_frame, decode_sized, decode,
}

-- The body is of the header's type, its numbers are in the ranges of their types, and it takes
-- as many bytes as the header says.
abbrev pub Fits : HeaderType → ℕ → Body → Type 0
Fits HeaderType.rst n (Body.rst e) = Unit {0}
Fits HeaderType.data n (Body.data bs) = length bs ≡ n
Fits HeaderType.wnd_inc n (Body.wnd_inc inc) = inc ≤ wndinc_max
Fits HeaderType.go_away n (Body.go_away last e message) =
    (last ≤ stream_id_max) × (8 + length message ≡ n)
Fits _ n b = ⊥

pub record CanEncode (f : Frame) : Type 0 where
  pub valid : validate_header f.header ≡ ok tt
  pub bounds : InBounds f.header
  pub fits : Fits f.header.typ f.header.length f.body

pub validate_header-IsKnown : (h : Header) → validate_header h ≡ ok tt → IsKnown h.typ
unfolding validate_header
validate_header-IsKnown h e = go h.typ refl
  where
    go : (t : HeaderType) → h.typ ≡ t → IsKnown t
    go HeaderType.rst q = tt
    go HeaderType.data q = tt
    go HeaderType.wnd_inc q = tt
    go HeaderType.go_away q = tt
    go (HeaderType.invalid t) q = ground arith

mask_code : (c : ℕ) → c < 2 ^ 32 → mask error_code_range c ≡ c
mask_code c h = omega (arith, mask_low_bits 32 c)

module _ (lib : BufOps) (laws : IsBuf lib) where
  encode_header-append :
      (h : Header) (buf : Bytes) → encode_header lib h buf ≡ buf ++ encode_header lib h []
  unfolding encode_header
  encode_header-append h buf = append_assoc buf _ _

  encode_body-append :
      (b : Body) (buf : Bytes) → encode_body lib b buf ≡ buf ++ encode_body lib b []
  unfolding encode_body
  encode_body-append (Body.rst e) buf = refl
  encode_body-append (Body.data bs) buf = refl
  encode_body-append (Body.wnd_inc inc) buf = refl
  encode_body-append (Body.go_away last e message) buf = simp append_assoc
  encode_body-append (Body.invalid e body) buf = refl

  length-encode_header : (h : Header) → length (encode_header lib h []) ≡ 8
  unfolding encode_header
  length-encode_header h = length-append (lib.put_u32 _) (lib.put_u32 _) ∙ omega (arith, laws.width)

  length-encode_body :
      (t : HeaderType) (h : Header) (b : Body)
      → validate_typ t h ≡ ok tt
      → Fits t h.length b
      → length (encode_body lib b []) ≡ h.length
  unfolding validate_typ encode_body
  length-encode_body HeaderType.rst h (Body.rst e) v fits =
      ground (arith, laws.width (code_from_error e))
  length-encode_body HeaderType.data h (Body.data bs) v fits = fits
  length-encode_body HeaderType.wnd_inc h (Body.wnd_inc inc) v fits = ground (arith, laws.width inc)
  length-encode_body HeaderType.go_away h (Body.go_away last e message) v fits =
      length-append (lib.put_u32 last ++ lib.put_u32 (code_from_error e)) message
      ∙ omega (
        arith,
        length-append (lib.put_u32 last) (lib.put_u32 (code_from_error e)),
        laws.width last,
        laws.width (code_from_error e),
      )
  length-encode_body _ h b v fits = absurd fits

  get-put_last : (n : ℕ) → n < 2 ^ 32 → lib.get_u32 (lib.put_u32 n) ≡ ok (n, [])
  get-put_last n h = ap lib.get_u32 (sym (append-nil _)) ∙ laws.get-put n [] h

  decode_body-encode_body :
      (t : HeaderType) (n : ℕ) (b : Body)
      → Fits t n b
      → decode_body lib t (encode_body lib b []) ≡ ok b
  unfolding decode_body encode_body
  decode_body-encode_body HeaderType.rst n (Body.rst e) fits =
      ground (arith, get-put_last (code_from_error e), mask_code (code_from_error e), read_back e)
  decode_body-encode_body HeaderType.data n (Body.data bs) fits = refl
  decode_body-encode_body HeaderType.wnd_inc n (Body.wnd_inc inc) fits =
      ground (arith, get-put_last inc, mask_low_bits 31 inc)
  decode_body-encode_body HeaderType.go_away n (Body.go_away last e message) fits = ground (
    arith,
    append_assoc (lib.put_u32 last) (lib.put_u32 (code_from_error e)) message,
    laws.get-put last (lib.put_u32 (code_from_error e) ++ message),
    laws.get-put (code_from_error e) message,
    mask_code (code_from_error e),
    read_back e,
    mask_low_bits 31 last,
  )
  decode_body-encode_body _ n b fits = absurd fits

  -- The bytes that `encode` writes for a frame.
  abbrev pub wire : Frame → Bytes
  wire f = encode_header lib f.header [] ++ encode_body lib f.body []

  pub encode-wire :
      (f : Frame) (buf : Bytes)
      → validate_header f.header ≡ ok tt
      → encode lib f buf ≡ (buf ++ wire f, ok tt)
  unfolding encode
  encode-wire f buf v = rw (v, encode) (ap (λ b. (b, ok tt)) bytes)
    where
      bytes : encode_body lib f.body (encode_header lib f.header buf) ≡ buf ++ wire f
      bytes =
          encode_body-append f.body (encode_header lib f.header buf)
          ∙ ap (λ b. b ++ encode_body lib f.body []) (encode_header-append f.header buf)
          ∙ append_assoc buf (encode_header lib f.header []) (encode_body lib f.body [])

  -- A decoder with the header of a frame takes the frame's body off the buffer.
  decode_sized-encode_body :
      (f : Frame) (rest : Bytes)
      → CanEncode f
      → decode_sized lib f.header (encode_body lib f.body [] ++ rest) ≡ ok (fresh, rest, some f)
  unfolding decode_sized decode_frame validate_header
  decode_sized-encode_body f rest c = ground (
    arith,
    c.valid,
    cut,
    length-append (encode_body lib f.body []) rest,
    ap (λ n. take n (encode_body lib f.body [] ++ rest)) cut,
    ap (λ n. drop n (encode_body lib f.body [] ++ rest)) cut,
    take-append_length (encode_body lib f.body []) rest,
    drop-append_length (encode_body lib f.body []) rest,
    decode_body-encode_body f.header.typ f.header.length f.body c.fits,
  )
    where
      cut : length (encode_body lib f.body []) ≡ f.header.length
      cut = length-encode_body f.header.typ f.header f.body c.valid c.fits

  pub decode-wire :
      (f : Frame) (rest : Bytes)
      → CanEncode f
      → decode lib fresh (wire f ++ rest) ≡ ok (fresh, rest, some f)
  unfolding decode
  decode-wire f rest c = ground (
    arith,
    append_assoc head (encode_body lib f.body []) rest,
    length-append head (encode_body lib f.body [] ++ rest),
    eight,
    ap (λ n. take n (head ++ (encode_body lib f.body [] ++ rest))) eight,
    ap (λ n. drop n (head ++ (encode_body lib f.body [] ++ rest))) eight,
    take-append_length head (encode_body lib f.body [] ++ rest),
    drop-append_length head (encode_body lib f.body [] ++ rest),
    decode_header-encode_header lib f.header laws c.bounds
        (validate_header-IsKnown f.header c.valid),
    decode_sized-encode_body f rest c,
  )
    where
      head : Bytes
      head = encode_header lib f.header []

      eight : length head ≡ 8
      eight = length-encode_header f.header

  -- A frame whose header is valid, whose fields are in range and whose body fits its header is
  -- encoded without an error behind what the buffer holds, and a fresh decoder reads the same
  -- frame from the bytes written, whatever follows them, and leaves what follows.
  pub decode-encode :
      (f : Frame) (buf rest : Bytes)
      → CanEncode f
      → ((encode lib f buf).1 ≡ ok tt)
        × ((w : Bytes) × ((encode lib f buf).0 ≡ buf ++ w)
            × (decode lib fresh (w ++ rest) ≡ ok (fresh, rest, some f)))
  decode-encode f buf rest c =
      let e = encode-wire f buf c.valid in
      (ap (λ p. p.1) e, (wire f, ap (λ p. p.0) e, decode-wire f rest c))
