-- ===== src/Codec/Headers.antt =====
-- `decode_header` and `validate_header` on any header.
use ngrok_rs.Common.{
  ℕ, ◌+◌, ◌*◌, ◌/◌, ◌%◌, ◌^◌, ◌<◌, ◌≤◌, ◌≡◌, sym, ap, ◌∙◌, arith, bit_and, [], append-nil, ok,
}
use ngrok_rs.Constrained.Bounds.{mask_low_bits}
use ngrok_rs.Errors.{stream_id_max, length_max}
use ngrok_rs.Frame.{Bytes, Header, u8_from, header_type_from}
use ngrok_rs.Codec.Buffers.{BufOps, IsBuf}
use ngrok_rs.Codec.Fields.{
  IsKnown, high_nibble, low_nibble, high_word, truncated_flags, type_nibble,
  pack_length_type_flags_sum,
}
use ngrok_rs.Codec.{decode_header, encode_header, pack_length_type_flags}

-- The fields are in the ranges of their types.
pub record InBounds (h : Header) : Type 0 where
  pub length_fits : h.length ≤ length_max
  pub flags_fit : h.flags < 4
  pub stream_id_fits : h.stream_id ≤ stream_id_max

-- The header that the two words of eight bytes hold.
abbrev pub header_of : ℕ → ℕ → Header
header_of n id = record {
  length = n / 256;
  typ = header_type_from (n % 256 / 16);
  flags = n % 4;
  stream_id = id % 2 ^ 31;
}

module _ (lib : BufOps) where
  pub decode_header_words :
      (bs bs' rest : Bytes) (n id : ℕ)
      → n < 2 ^ 32
      → lib.get_u32 bs ≡ ok (n, bs')
      → lib.get_u32 bs' ≡ ok (id, rest)
      → decode_header lib bs ≡ ok (header_of n id)
  unfolding decode_header
  decode_header_words bs bs' rest n id hn e e' = ground (
    arith,
    word,
    nibble,
    low_nibble (n % 256),
    truncated_flags (bit_and (n % 256) 0x0F),
    mask_low_bits 31 id,
  )
    where
      word : bit_and n 0xFFFFFF00 ≡ n / 256 * 256
      word =
          ap (λ (x : ℕ). bit_and x 0xFFFFFF00) (omega arith)
          ∙ high_word (n / 256) (n % 256) (omega arith) (omega arith)

      nibble : bit_and (n % 256) 0xF0 ≡ n % 256 / 16 * 16
      nibble =
          ap (λ (x : ℕ). bit_and x 0xF0) (omega arith)
          ∙ high_nibble (n % 256 / 16) (n % 16) (omega arith) (omega arith)

  -- What `encode_header` writes, `decode_header` reads back.
  pub decode_header-encode_header :
      (h : Header)
      → IsBuf lib
      → InBounds h
      → IsKnown h.typ
      → decode_header lib (encode_header lib h []) ≡ ok h
  unfolding encode_header
  decode_header-encode_header h laws b known =
      decode_header_words _ (lib.put_u32 h.stream_id) [] n h.stream_id small
        (laws.get-put n (lib.put_u32 h.stream_id) small)
        (ap lib.get_u32 (sym (append-nil _))
          ∙ laws.get-put h.stream_id [] (omega (arith, b.stream_id_fits)))
      ∙ ap ok fields
    where
      n : ℕ
      n = pack_length_type_flags h

      sum : n ≡ h.length * 256 + (u8_from h.typ * 16 + h.flags)
      sum =
          pack_length_type_flags_sum h (omega (arith, b.length_fits))
            (omega (arith, type_nibble h.typ known)) (omega (arith, b.flags_fit))

      small : n < 2 ^ 32
      small = omega (arith, sum, b.length_fits, b.flags_fit, type_nibble h.typ known)

      nibble : n % 256 / 16 ≡ u8_from h.typ
      nibble = omega (arith, sum, b.flags_fit, type_nibble h.typ known)

      fields : header_of n h.stream_id ≡ h
      fields = ground (
        arith,
        sum,
        b.length_fits,
        b.flags_fit,
        b.stream_id_fits,
        type_nibble h.typ known,
        ap header_type_from nibble,
      )
