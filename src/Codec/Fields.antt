-- ===== src/Codec/Fields.antt =====
-- The bit fields of the eight bytes of a header, as arithmetic.
use ngrok_rs.Common.{ℕ, ◌+◌, ◌*◌, ◌%◌, ◌^◌, ◌<◌, ◌≡◌, refl, ap, ◌∙◌, arith, bit_and, bit_or}
use ngrok_rs.Common.Bits.{bit_and-high_mask, bit_or_fields, bit_and-low_mask}
use ngrok_rs.Frame.{HeaderType, Header, u8_from, header_type_from}
use ngrok_rs.Codec.{from_bits_truncate, pack_type_flags, pack_length_type_flags}

-- A type that the protocol names.
abbrev pub IsKnown : HeaderType → Type 0
IsKnown (HeaderType.invalid t) = ⊥
IsKnown _ = Unit {0}

-- The upper nibble of a byte, and its place in the byte.
pub high_nibble : (t r : ℕ) → t < 16 → r < 16 → bit_and (t * 16 + r) 0xF0 ≡ t * 16
high_nibble t r ht hr = bit_and-high_mask 4 4 t r ht hr

pub low_nibble : (b : ℕ) → bit_and b 0x0F ≡ b % 16
low_nibble b = bit_and-low_mask 4 b

pub high_word : (q r : ℕ) → q < 2 ^ 24 → r < 256 → bit_and (q * 256 + r) 0xFFFFFF00 ≡ q * 256
high_word q r hq hr = bit_and-high_mask 24 8 q r hq hr

pub truncated_flags : (b : ℕ) → from_bits_truncate b ≡ b % 4
unfolding from_bits_truncate
truncated_flags b = bit_and-low_mask 2 b

-- A known type fits its nibble, and the nibble is read back as the type.
pub nibble_type : (n : ℕ) → u8_from (header_type_from n) ≡ n
unfolding u8_from header_type_from
nibble_type n = ground arith

pub type_nibble :
    (t : HeaderType) → IsKnown t → (header_type_from (u8_from t) ≡ t) × (u8_from t < 4)
unfolding u8_from header_type_from
type_nibble HeaderType.rst h = (refl, omega arith)
type_nibble HeaderType.data h = (refl, omega arith)
type_nibble HeaderType.wnd_inc h = (refl, omega arith)
type_nibble HeaderType.go_away h = (refl, omega arith)
type_nibble (HeaderType.invalid t) h = absurd h

pub pack_type_flags_sum :
    (h : Header)
    → u8_from h.typ < 16
    → h.flags < 16
    → pack_type_flags h ≡ u8_from h.typ * 16 + h.flags
unfolding pack_type_flags
pack_type_flags_sum h ht hf =
    ap (λ (x : ℕ). bit_or x (bit_and h.flags 0x0F)) nibble
    ∙ bit_or_fields 4 (u8_from h.typ) (bit_and h.flags 0x0F) (omega (arith, low_nibble h.flags))
    ∙ omega (arith, low_nibble h.flags)
  where
    nibble : bit_and (u8_from h.typ * 16 % 2 ^ 8) 0xF0 ≡ u8_from h.typ * 16 + 0
    nibble =
        ap (λ (x : ℕ). bit_and x 0xF0) (omega arith)
        ∙ high_nibble (u8_from h.typ) 0 ht (omega arith)
        ∙ omega arith

pub pack_length_type_flags_sum :
    (h : Header)
    → h.length < 2 ^ 24
    → u8_from h.typ < 16
    → h.flags < 16
    → pack_length_type_flags h ≡ h.length * 256 + (u8_from h.typ * 16 + h.flags)
unfolding pack_length_type_flags
pack_length_type_flags_sum h hl ht hf =
    ap (λ (x : ℕ). bit_or x (pack_type_flags h)) word
    ∙ bit_or_fields 8 h.length (pack_type_flags h) (omega (arith, pack_type_flags_sum h ht hf))
    ∙ omega (arith, pack_type_flags_sum h ht hf)
  where
    word : bit_and (h.length * 2 ^ 8 % 2 ^ 32) 0xFFFFFF00 ≡ h.length * 2 ^ 8 + 0
    word =
        ap (λ (x : ℕ). bit_and x 0xFFFFFF00) (omega arith)
        ∙ high_word h.length 0 hl (omega arith)
        ∙ omega arith
