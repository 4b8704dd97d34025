-- ===== src/Common/Bits.antt =====
-- Masks and shifts as arithmetic, from the digits that the native operations stand for.
use Prim.Native.Nat.{
  ℕ, zero, suc, ◌+◌, ◌-◌, ◌*◌, ◌/◌, ◌%◌, ◌^◌, ◌≤◌, ◌<◌, min, max, bit_and, bit_or, digits,
  bit_and-bitwise, bit_or-bitwise,
}
use mathlib.Core.Path.{◌≡◌, refl, sym, ap, ◌∙◌}
use native.Mathlib.Nat.{pow-suc, one-le-pow}
use native.Mathlib.Omega.{arith}

-- Once the fuel covers the left operand, its amount does not matter.
module _ (end : ℕ → ℕ) (digit : ℕ → ℕ → ℕ) where
  digits_enough : (n m a b : ℕ) → a ≤ n → a ≤ m → digits end digit n a b ≡ digits end digit m a b
  digits_enough zero zero a b p q = refl
  digits_enough zero (suc m) zero b p q = refl
  digits_enough zero (suc m) (suc a) b p q = absurd (omega arith)
  digits_enough (suc n) zero zero b p q = refl
  digits_enough (suc n) zero (suc a) b p q = absurd (omega arith)
  digits_enough (suc n) (suc m) zero b p q = refl
  digits_enough (suc n) (suc m) (suc a) b p q =
      omega (arith, digits_enough n m (suc a / 2) (b / 2) (omega arith) (omega arith))

-- `&` and `|` by their lowest digit.
pub bit_and_halves : (a b : ℕ) → bit_and a b ≡ bit_and (a / 2) (b / 2) * 2 + min (a % 2) (b % 2)
bit_and_halves zero b = omega (arith, bit_and-bitwise 0 b, bit_and-bitwise 0 (b / 2))
bit_and_halves (suc a) b = omega (
  arith,
  bit_and-bitwise (suc a) b,
  bit_and-bitwise (suc a / 2) (b / 2),
  digits_enough (λ y. zero) min a (suc a / 2) (suc a / 2) (b / 2) (omega arith) (omega arith),
)

pub bit_or_halves : (a b : ℕ) → bit_or a b ≡ bit_or (a / 2) (b / 2) * 2 + max (a % 2) (b % 2)
bit_or_halves zero b = omega (arith, bit_or-bitwise 0 b, bit_or-bitwise 0 (b / 2))
bit_or_halves (suc a) b = omega (
  arith,
  bit_or-bitwise (suc a) b,
  bit_or-bitwise (suc a / 2) (b / 2),
  digits_enough (λ y. y) max a (suc a / 2) (suc a / 2) (b / 2) (omega arith) (omega arith),
)

bit_and-zero_below : (n a : ℕ) → a ≤ n → bit_and a 0 ≡ 0
bit_and-zero_below n zero h = refl
bit_and-zero_below zero (suc a) h = absurd (omega arith)
bit_and-zero_below (suc n) (suc a) h =
    omega (arith, bit_and_halves (suc a) 0, bit_and-zero_below n (suc a / 2) (omega arith))

-- The mask of `k` ones.
abbrev pub low_mask : ℕ → ℕ
low_mask k = 2 ^ k - 1

pub bit_and-ones : (k r : ℕ) → r < 2 ^ k → bit_and r (low_mask k) ≡ r
bit_and-ones zero r h = omega (arith, bit_and-zero_below r r (omega arith))
bit_and-ones (suc k) r h = omega (
  arith,
  bit_and_halves r (low_mask (suc k)),
  bit_and-ones k (r / 2) (omega (arith, pow-suc 2 k)),
  ap (λ (t : ℕ). bit_and (r / 2) t) (mask_half k),
  pow-suc 2 k,
  one-le-pow k 2,
)
  where
    mask_half : (j : ℕ) → low_mask (suc j) / 2 ≡ low_mask j
    mask_half j = omega (arith, pow-suc 2 j, one-le-pow j 2)

double_field : (q k : ℕ) → q * 2 ^ suc k ≡ 2 * (q * 2 ^ k)
double_field q k = omega (arith, ap (λ (t : ℕ). q * t) (pow-suc 2 k))

half_field : (q k r : ℕ) → (q * 2 ^ suc k + r) / 2 ≡ q * 2 ^ k + r / 2
half_field q k r = omega (arith, double_field q k)

-- `&` and `|` act on the digits below `k` and on those above it apart.
pub bit_and_split :
    (k q r m s : ℕ)
    → r < 2 ^ k
    → s < 2 ^ k
    → bit_and (q * 2 ^ k + r) (m * 2 ^ k + s) ≡ bit_and q m * 2 ^ k + bit_and r s
bit_and_split zero q r m s hr hs = ground arith
bit_and_split (suc k) q r m s hr hs = omega (
  arith,
  bit_and_halves (q * 2 ^ suc k + r) (m * 2 ^ suc k + s),
  bit_and_halves r s,
  ap (λ (t : ℕ). bit_and t ((m * 2 ^ suc k + s) / 2)) (half_field q k r),
  ap (λ (t : ℕ). bit_and (q * 2 ^ k + r / 2) t) (half_field m k s),
  bit_and_split k q (r / 2) m (s / 2) (omega (arith, pow-suc 2 k)) (omega (arith, pow-suc 2 k)),
  double_field q k,
  double_field m k,
  double_field (bit_and q m) k,
)

pub bit_or_split :
    (k q r m s : ℕ)
    → r < 2 ^ k
    → s < 2 ^ k
    → bit_or (q * 2 ^ k + r) (m * 2 ^ k + s) ≡ bit_or q m * 2 ^ k + bit_or r s
bit_or_split zero q r m s hr hs = ground arith
bit_or_split (suc k) q r m s hr hs = omega (
  arith,
  bit_or_halves (q * 2 ^ suc k + r) (m * 2 ^ suc k + s),
  bit_or_halves r s,
  ap (λ (t : ℕ). bit_or t ((m * 2 ^ suc k + s) / 2)) (half_field q k r),
  ap (λ (t : ℕ). bit_or (q * 2 ^ k + r / 2) t) (half_field m k s),
  bit_or_split k q (r / 2) m (s / 2) (omega (arith, pow-suc 2 k)) (omega (arith, pow-suc 2 k)),
  double_field q k,
  double_field m k,
  double_field (bit_or q m) k,
)

-- A mask of `k` ones at the low end keeps the remainder by `2 ^ k`.
pub bit_and-low_mask : (k a : ℕ) → bit_and a (low_mask k) ≡ a % 2 ^ k
bit_and-low_mask k a =
    ap (λ (t : ℕ). bit_and t (low_mask k)) (sym (fields a))
    ∙ omega (
      arith,
      bit_and_split k (a / 2 ^ k) (a % 2 ^ k) 0 (low_mask k) (low k)
          (omega (arith, one-le-pow k 2)),
      bit_and-zero_below (a / 2 ^ k) (a / 2 ^ k) (omega arith),
      bit_and-ones k (a % 2 ^ k) (low k),
      ap (λ (t : ℕ). bit_and (a / 2 ^ k * 2 ^ k + a % 2 ^ k) t) (zero_field (low_mask k)),
      ap (λ (t : ℕ). t * 2 ^ k) (bit_and-zero_below (a / 2 ^ k) (a / 2 ^ k) (omega arith)),
    )
  where
    fields : (b : ℕ) → b / 2 ^ k * 2 ^ k + b % 2 ^ k ≡ b
    fields b = grind (arith, one-le-pow k 2)

    low : (j : ℕ) → a % 2 ^ j < 2 ^ j
    low j = grind (arith, one-le-pow j 2)

    zero_field : (b : ℕ) → 0 * 2 ^ k + b ≡ b
    zero_field b = omega arith

pub bit_or-zero : (a : ℕ) → bit_or a 0 ≡ a
bit_or-zero a = go a a (omega arith)
  where
    go : (n b : ℕ) → b ≤ n → bit_or b 0 ≡ b
    go n zero h = omega (arith, bit_or-bitwise 0 0)
    go zero (suc b) h = absurd (omega arith)
    go (suc n) (suc b) h = omega (arith, bit_or_halves (suc b) 0, go n (suc b / 2) (omega arith))

pub zero-bit_or : (b : ℕ) → bit_or 0 b ≡ b
zero-bit_or b = omega (arith, bit_or-bitwise 0 b)

-- A mask of ones above the `k` low bits, on a number of `w + k` bits, clears the `k` low bits.
pub bit_and-high_mask :
    (w k q r : ℕ)
    → q < 2 ^ w
    → r < 2 ^ k
    → bit_and (q * 2 ^ k + r) (low_mask w * 2 ^ k + 0) ≡ q * 2 ^ k
bit_and-high_mask w k q r hq hr = omega (
  arith,
  bit_and_split k q r (low_mask w) 0 hr (one-le-pow k 2 (omega arith)),
  bit_and-zero_below r r (omega arith),
  ap (λ (t : ℕ). t * 2 ^ k) (bit_and-ones w q hq),
)

-- Fields that do not overlap add up.
pub bit_or_fields : (k q r : ℕ) → r < 2 ^ k → bit_or (q * 2 ^ k + 0) r ≡ q * 2 ^ k + r
bit_or_fields k q r hr = omega (
  arith,
  ap (λ (t : ℕ). bit_or (q * 2 ^ k + 0) t) (zero_field r),
  bit_or_split k q 0 0 r (one-le-pow k 2 (omega arith)) hr,
  ap (λ (t : ℕ). t * 2 ^ k) (bit_or-zero q),
  zero-bit_or r,
)
  where
    zero_field : (b : ℕ) → b ≡ 0 * 2 ^ k + b
    zero_field b = omega arith
