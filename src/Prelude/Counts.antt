-- ===== src/Prelude/Counts.antt =====
-- `u32::trailing_zeros`, `u32::count_ones` and `u32::ilog2`, by recursion on the digits of a word
-- of the given width, and the law that ties the first two on neighbouring numbers.
use Prim.Native.Nat.{ℕ, zero, suc, ◌+◌, ◌/◌, ◌%◌, ◌^◌, ◌≤◌, ◌<◌}
use mathlib.Core.Path.{◌≡◌, refl}
use mathlib.Core.Logic.{◌⊎◌, inl, inr}
use native.Mathlib.Nat.{pow-suc}
use native.Mathlib.Omega.{arith}
use littlefs2_pure.Prelude.Tests.{ltb, ◌==◌, if◌then◌else◌}

unfoldable pub low_zeros : ℕ → ℕ → ℕ
low_zeros zero n = 0
low_zeros (suc w) n = let rest = low_zeros w (n / 2) in if n % 2 == 0 then suc rest else 0

unfoldable pub ones : ℕ → ℕ → ℕ
ones zero n = 0
ones (suc w) n = n % 2 + ones w (n / 2)

unfoldable pub log2 : ℕ → ℕ → ℕ
log2 zero n = 0
log2 (suc w) n = let rest = log2 w (n / 2) in if ltb n 2 then 0 else suc rest

unfoldable pub trailing_zeros : ℕ → ℕ
unfolding low_zeros
trailing_zeros n = low_zeros 32 n

unfoldable pub count_ones : ℕ → ℕ
unfolding ones
count_ones n = ones 32 n

unfoldable pub ilog2 : ℕ → ℕ
unfolding log2
ilog2 n = log2 31 n

below_two : (r : ℕ) → r < 2 → (r ≡ 0) ⊎ (r ≡ 1)
below_two zero h = inl refl
below_two (suc zero) h = inr refl
below_two (suc (suc r)) h = absurd (omega arith)

next_parity :
    (n : ℕ)
    → ((n % 2 ≡ 0) × (suc n % 2 ≡ 1) × (suc n / 2 ≡ n / 2))
      ⊎ ((n % 2 ≡ 1) × (suc n % 2 ≡ 0) × (suc n / 2 ≡ suc (n / 2)))
next_parity n = elim (below_two (n % 2) (omega arith)) [
  | inl e ↦ inl (e, omega arith, omega arith)
  | inr e ↦ inr (e, omega arith, omega arith)
]

carry : (w n : ℕ) → suc n < 2 ^ w → ones w (suc n) + low_zeros w (suc n) ≡ suc (ones w n)
unfolding ones low_zeros
carry zero n h = absurd (omega arith)
carry (suc w) n h = elim (next_parity n) [
  | inl (e, o, k) ↦ rw (e, o, k) (omega arith)
  | inr (e, o, k) ↦ rw (e, o, k) (omega (arith, carry w (n / 2) (omega (arith, pow-suc 2 w))))
]

-- Adding one clears the trailing ones of a number and sets the next digit.
pub count_ones-suc :
    (n : ℕ) → suc n < 2 ^ 32 → count_ones (suc n) + trailing_zeros (suc n) ≡ suc (count_ones n)
unfolding count_ones trailing_zeros
count_ones-suc n h = carry 32 n h

ones_le : (w k n : ℕ) → n < 2 ^ k → ones w n ≤ k
unfolding ones
ones_le zero k n h = omega arith
ones_le (suc w) zero n h = omega (arith, ones_le w 0 (n / 2) (omega arith))
ones_le (suc w) (suc k) n h =
    omega (arith, pow-suc 2 k, ones_le w k (n / 2) (omega (arith, pow-suc 2 k)))

-- A number below 2 ^ k has at most k ones.
pub count_ones_le : (k n : ℕ) → n < 2 ^ k → count_ones n ≤ k
unfolding count_ones
count_ones_le k n h = ones_le 32 k n h

-- The largest power of two that is not above a positive number.
log2_le : (w n : ℕ) → 0 < n → 2 ^ log2 w n ≤ n
unfolding log2
log2_le zero n h = omega arith
log2_le (suc w) n h = ground (arith, pow-suc 2 (log2 w (n / 2)), log2_le w (n / 2))

pub ilog2_le : (n : ℕ) → 0 < n → 2 ^ ilog2 n ≤ n
unfolding ilog2
ilog2_le n h = log2_le 31 n h
