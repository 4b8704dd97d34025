-- ===== src/Constrained/Bounds.antt =====
-- The bounds of `clamp`, `mask` and `try_from` of constrained.rs.
use ngrok_rs.Common.{ℕ, ◌+◌, ◌-◌, ◌%◌, ◌^◌, ◌≤◌, ◌≡◌, ◌↔◌, inl, inr, arith, ok, err, Bool-cases}
use ngrok_rs.Common.Bits.{low_mask, bit_and-low_mask}
use ngrok_rs.Constrained.{Range, contains, clamp, mask, try_from}
use native.Mathlib.Nat.{one-le-pow, mod-eq_of_lt}

abbrev pub InRange : Range → ℕ → Type 0
InRange r v = (r.start ≤ v) × (v ≤ r.end)

abbrev pub distance : ℕ → ℕ → ℕ
distance a b = (a - b) + (b - a)

-- On a range that is not empty, clamping gives the number of the range that is nearest to the
-- argument: it lies in the range, no other number of the range is nearer, and a number of the
-- range is kept.
pub clamp_nearest :
    (r : Range) (v w : ℕ)
    → r.start ≤ r.end
    → InRange r w
    → InRange r (clamp r v)
      × (distance v (clamp r v) ≤ distance v w)
      × (InRange r v → clamp r v ≡ v)
unfolding clamp
clamp_nearest r v w h k = (ground arith, ground arith, λ i. ground arith)

-- On the range from 0 to k ones, masking is the remainder by 2 ^ k, so it keeps the low k bits.
pub mask_low_bits : (k v : ℕ) → mask (record { start = 0; end = low_mask k }) v ≡ v % 2 ^ k
unfolding mask
mask_low_bits k v =
    grind (arith, bit_and-low_mask k v, one-le-pow k 2, mod-eq_of_lt {n = v} {m = 2 ^ k})

-- `try_from` accepts a number exactly when it lies in the range, returns it unchanged, and
-- reports any other number with the range.
pub try_from_iff :
    (r : Range) (v w : ℕ)
    → ((try_from r v ≡ ok w) ↔ (InRange r v × (w ≡ v)))
      × ((try_from r v ≡ err (record { got = v; expected = r })) ↔ (¬ InRange r v))
unfolding try_from
try_from_iff r v w = (
  (λ e. ground arith, λ p. ground arith),
  (
    λ e i. ground arith,
    λ n. elim (Bool-cases (contains r v)) [
      | inl inside ↦ absurd (n (ground arith))
      | inr outside ↦ rw (outside, try_from)
    ],
  ),
)
