-- ===== src/Frame/Lengths.antt =====
-- The headers that the constructors of muxado/src/frame.rs make, and the flags.
use ngrok_rs.Common.{
  ℕ, ◌<◌, ◌≤◌, ◌≡◌, ◌⊎◌, refl, ◌∙◌, arith, bit_and, bit_or, ◌==◌, true, List, take_all, length,
  take, length-take, min,
}
use ngrok_rs.Errors.{length_max}
use ngrok_rs.Frame.{Body, Frame, header_type, body_len, frame_from, is_fin, is_syn, fin, syn}

length_cut :
    (bs : List ℕ) → length (take (min length_max (length bs)) bs) ≡ min length_max (length bs)
length_cut bs = length-take (min length_max (length bs)) bs ∙ omega arith

-- A frame made of a body has the body's type and its exact length, after the body is cut to the
-- longest length that a header can hold; it is on stream 0 with no flags.
pub frame_from_header :
    (b : Body)
    → ((frame_from b).header.length ≡ body_len (frame_from b).body)
      × ((frame_from b).header.length ≤ length_max)
      × ((frame_from b).header.typ ≡ header_type (frame_from b).body)
      × ((frame_from b).header.flags ≡ 0)
      × ((frame_from b).header.stream_id ≡ 0)
      × (body_len b ≤ length_max → (frame_from b).body ≡ b)
unfolding frame_from
frame_from_header (Body.data bs) = (
  ground (arith, length_cut bs),
  ground (arith, length_cut bs),
  refl,
  refl,
  refl,
  λ h. ground (arith, take_all (min length_max (length bs)) bs),
)
frame_from_header (Body.invalid e bs) = (
  ground (arith, length_cut bs),
  ground (arith, length_cut bs),
  refl,
  refl,
  refl,
  λ h. ground (arith, take_all (min length_max (length bs)) bs),
)
frame_from_header (Body.rst e) = (refl, omega arith, refl, refl, refl, λ h. refl)
frame_from_header (Body.wnd_inc n) = (refl, omega arith, refl, refl, refl, λ h. refl)
frame_from_header (Body.go_away last e m) = (refl, omega arith, refl, refl, refl, λ h. refl)

two_bits : (n : ℕ) → n < 4 → (n ≡ 0) ⊎ ((n ≡ 1) ⊎ ((n ≡ 2) ⊎ (n ≡ 3)))
two_bits n h = omega arith

fin_bits :
    (n : ℕ)
    → n < 4
    → ((bit_and (bit_or n 1) 1 == 1) ≡ true)
      × ((bit_and (bit_or n 1) 2 == 2) ≡ (bit_and n 2 == 2))
      × (bit_or n 1 < 4)
fin_bits n h = ground (arith, two_bits n h)

syn_bits :
    (n : ℕ)
    → n < 4
    → ((bit_and (bit_or n 2) 2 == 2) ≡ true)
      × ((bit_and (bit_or n 2) 1 == 1) ≡ (bit_and n 1 == 1))
      × (bit_or n 2 < 4)
syn_bits n h = ground (arith, two_bits n h)

-- On a frame whose flags are the two that the protocol has, `fin` sets the FIN flag and `syn` the
-- SYN flag; each leaves the other flag, the body, the type, the length and the stream as they are.
pub fin-syn_flags :
    (f : Frame)
    → f.header.flags < 4
    → (is_fin (fin f) ≡ true)
      × (is_syn (fin f) ≡ is_syn f)
      × (is_syn (syn f) ≡ true)
      × (is_fin (syn f) ≡ is_fin f)
      × (fin f
          ≡ record { header = record (f.header) { flags = (fin f).header.flags }; body = f.body })
      × (syn f
          ≡ record { header = record (f.header) { flags = (syn f).header.flags }; body = f.body })
unfolding is_fin is_syn fin syn
fin-syn_flags f h =
    let (a, b, _) = fin_bits f.header.flags h in
    let (c, d, _) = syn_bits f.header.flags h in (a, b, c, d, refl, refl)
