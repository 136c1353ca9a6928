-- ===== src/Prelude/Bits/Digits.antt =====
-- Single bits of a word: setting bit `k` by `|` and testing it by `&`.
use Prim.Native.Nat.{ℕ, zero, suc, ◌*◌, ◌/◌, ◌%◌, ◌^◌, ◌≤◌, ◌<◌, max, bit_or, bit_and}
use mathlib.Core.Path.{◌≡◌, refl, ap, ◌∙◌}
use mathlib.Core.Bool.{Bool, false, ◌||◌, not}
use mathlib.Core.Logic.{◌⊎◌, inl, inr}
use native.Mathlib.Nat.{pow-suc}
use native.Mathlib.Omega.{arith}
use littlefs2_pure.Prelude.Tests.{◌==◌, if◌then◌else◌}
use littlefs2_pure.Prelude.Bits.Step.{bit_or_step, bit_and_low}

-- Bit `k` of a word.
pub digit : ℕ → ℕ → ℕ
digit n zero = n % 2
digit n (suc k) = digit (n / 2) k

pub digit-lt : (k n : ℕ) → digit n k < 2
unfolding digit
digit-lt zero n = omega arith
digit-lt (suc k) n = digit-lt k (n / 2)

bit_or_half : (a b : ℕ) → bit_or a b / 2 ≡ bit_or (a / 2) (b / 2)
bit_or_half a b = omega (arith, bit_or_step a b)

pub digit-bit_or : (k a b : ℕ) → digit (bit_or a b) k ≡ max (digit a k) (digit b k)
unfolding digit
digit-bit_or zero a b = omega (arith, bit_or_step a b)
digit-bit_or (suc k) a b = rw (bit_or_half a b) (digit-bit_or k (a / 2) (b / 2))

half_pow : (k : ℕ) → 2 ^ suc k / 2 ≡ 2 ^ k
half_pow k = omega (arith, pow-suc 2 k)

pub digit-zero : (k : ℕ) → digit 0 k ≡ 0
unfolding digit
digit-zero zero = refl
digit-zero (suc k) = digit-zero k

-- A power of two has one bit.
pub digit-pow : (k j : ℕ) → digit (2 ^ k) j ≡ (if k == j then 1 else 0)
unfolding digit
digit-pow zero zero = refl
digit-pow zero (suc j) = digit-zero j ∙ ground arith
digit-pow (suc k) zero = ground (arith, pow-suc 2 k)
digit-pow (suc k) (suc j) = rw (half_pow k) (digit-pow k j ∙ ground arith)

no_common : (bound a : ℕ) → a ≤ bound → bit_and a 0 ≡ 0
no_common bound zero h = omega (arith, bit_and_low 0 0)
no_common zero (suc a) h = absurd (omega arith)
no_common (suc bound) (suc a) h =
    omega (arith, bit_and_low (suc a) 0, no_common bound (suc a / 2) (omega arith))

-- The mask of bit `k` keeps that bit alone.
pub bit_and-pow : (k a : ℕ) → bit_and a (2 ^ k) ≡ digit a k * 2 ^ k
unfolding digit
bit_and-pow zero a = omega (arith, bit_and_low a 1, no_common (a / 2) (a / 2) (omega arith))
bit_and-pow (suc k) a =
    let low : bit_and (a / 2) (2 ^ suc k / 2) ≡ digit (a / 2) k * 2 ^ k =
      ap (λ (m : ℕ). bit_and (a / 2) m) (half_pow k) ∙ bit_and-pow k (a / 2) in
    let twice : digit (a / 2) k * 2 ^ suc k ≡ digit (a / 2) k * (2 ^ k * 2) =
      ap (λ (m : ℕ). digit (a / 2) k * m) (pow-suc 2 k) in
    omega (arith, bit_and_low a (2 ^ suc k), pow-suc 2 k)

zero_or_one : (d : ℕ) → d < 2 → (d ≡ 0) ⊎ (d ≡ 1)
zero_or_one zero h = inl refl
zero_or_one (suc zero) h = inr refl
zero_or_one (suc (suc d)) h = absurd (omega arith)

-- The test `a & (1 << k) != 0`.
unfoldable pub has_bit : ℕ → ℕ → Bool
has_bit a k = not (bit_and a (2 ^ k) == 0)

one_le_pow : (k : ℕ) → 1 ≤ 2 ^ k
one_le_pow zero = omega arith
one_le_pow (suc k) = omega (arith, pow-suc 2 k, one_le_pow k)

pub has_bit-digit : (a k : ℕ) → has_bit a k ≡ (digit a k == 1)
unfolding has_bit
has_bit-digit a k = elim (zero_or_one (digit a k) (digit-lt k a)) [
  | inl e ↦ rw (bit_and-pow k a, e) (ground arith)
  | inr e ↦ rw (bit_and-pow k a, e) (ground (arith, one_le_pow k))
]

-- After `a |= 1 << k` bit `k` is set and the others are as before.
pub has_bit-bit_or : (a k j : ℕ) → has_bit (bit_or a (2 ^ k)) j ≡ ((k == j) || has_bit a j)
has_bit-bit_or a k j =
    rw
      (
        has_bit-digit (bit_or a (2 ^ k)) j,
        has_bit-digit a j,
        digit-bit_or j a (2 ^ k),
        digit-pow k j,
      )
      (ground (arith, digit-lt j a))

pub has_bit-zero : (k : ℕ) → has_bit 0 k ≡ false
has_bit-zero k = rw (has_bit-digit 0 k, digit-zero k) refl
