-- ===== src/Prelude/Bits.antt =====
-- The laws of exclusive or at every width, from the digit recursion, and `|` of disjoint fields
-- as a sum.
mod Step
pub mod Digits
use Step.{bit_xor_step, bit_or_step}
use mathlib.Core.Path.{◌≡◌, refl, ap, sym, ◌∙◌}
use mathlib.Core.WellFounded
use Prim.Native.Nat.{ℕ, zero, suc, ◌+◌, ◌-◌, ◌*◌, ◌/◌, ◌%◌, ◌^◌, ◌≤◌, ◌<◌, bit_xor, bit_or}
use native.Mathlib.Nat.{pow-suc, div-div-eq-div-mul}
use native.Mathlib.Omega.{arith}
use littlefs2_pure.Prelude.Order.{lt_wf}

-- Induction from `n / 2` to `n`.
half_induction {ℓ} : (P : ℕ → Type ℓ) → P 0 → ((n : ℕ) → 0 < n → P (n / 2) → P n) → (n : ℕ) → P n
half_induction P base step n = WellFounded.induction lt_wf {C = P} n go
  where
    go : (m : ℕ) → ((k : ℕ) → k < m → P k) → P m
    go zero ih = base
    go (suc m) ih = step (suc m) (omega arith) (ih (suc m / 2) (omega arith))

eq_of_halves : (a b : ℕ) → a / 2 ≡ b / 2 → a % 2 ≡ b % 2 → a ≡ b
eq_of_halves a b p q = omega arith

xor_congr : (a b c d : ℕ) → a ≡ c → b ≡ d → bit_xor a b ≡ bit_xor c d
xor_congr a b c d p q = cc

pub bit_xor_half : (a b : ℕ) → bit_xor a b / 2 ≡ bit_xor (a / 2) (b / 2)
bit_xor_half a b = omega (arith, bit_xor_step a b)

pub bit_xor_parity : (a b : ℕ) → bit_xor a b % 2 ≡ (a + b) % 2
bit_xor_parity a b = omega (arith, bit_xor_step a b)

pub zero-bit_xor : (b : ℕ) → bit_xor 0 b ≡ b
zero-bit_xor b =
    half_induction (λ n. bit_xor 0 n ≡ n) refl
      (λ n h ih.
        eq_of_halves (bit_xor 0 n) n (bit_xor_half 0 n ∙ ih) (bit_xor_parity 0 n ∙ omega arith))
      b

pub bit_xor-zero : (a : ℕ) → bit_xor a 0 ≡ a
bit_xor-zero a =
    half_induction (λ n. bit_xor n 0 ≡ n) refl
      (λ n h ih.
        eq_of_halves (bit_xor n 0) n (bit_xor_half n 0 ∙ ih) (bit_xor_parity n 0 ∙ omega arith))
      a

pub bit_xor_self : (a : ℕ) → bit_xor a a ≡ 0
bit_xor_self a =
    half_induction (λ n. bit_xor n n ≡ 0) refl
      (λ n h ih.
        eq_of_halves (bit_xor n n) 0 (bit_xor_half n n ∙ ih) (bit_xor_parity n n ∙ omega arith))
      a

pub bit_xor_comm : (a b : ℕ) → bit_xor a b ≡ bit_xor b a
bit_xor_comm a =
    half_induction (λ n. (b : ℕ) → bit_xor n b ≡ bit_xor b n)
      (λ b. zero-bit_xor b ∙ sym (bit_xor-zero b))
      (λ n h ih b.
        eq_of_halves (bit_xor n b) (bit_xor b n)
          (bit_xor_half n b ∙ ih (b / 2) ∙ sym (bit_xor_half b n))
          (bit_xor_parity n b ∙ omega (arith, bit_xor_parity b n)))
      a

pub bit_xor_assoc : (a b c : ℕ) → bit_xor (bit_xor a b) c ≡ bit_xor a (bit_xor b c)
bit_xor_assoc a =
    half_induction (λ n. (b c : ℕ) → bit_xor (bit_xor n b) c ≡ bit_xor n (bit_xor b c))
      (λ b c. ap (λ (t : ℕ). bit_xor t c) (zero-bit_xor b) ∙ sym (zero-bit_xor (bit_xor b c)))
      (λ n h ih b c.
        eq_of_halves (bit_xor (bit_xor n b) c) (bit_xor n (bit_xor b c))
          (bit_xor_half (bit_xor n b) c
            ∙ ap (λ (t : ℕ). bit_xor t (c / 2)) (bit_xor_half n b)
            ∙ ih (b / 2) (c / 2)
            ∙ ap (λ (t : ℕ). bit_xor (n / 2) t) (sym (bit_xor_half b c))
            ∙ sym (bit_xor_half n (bit_xor b c)))
          (omega (
            arith,
            bit_xor_parity (bit_xor n b) c,
            bit_xor_parity n b,
            bit_xor_parity n (bit_xor b c),
            bit_xor_parity b c,
          )))
      a

-- The second exclusive or by the same word undoes the first.
pub bit_xor_cancel : (a b : ℕ) → bit_xor (bit_xor a b) b ≡ a
bit_xor_cancel a b =
    bit_xor_assoc a b b ∙ ap (λ (t : ℕ). bit_xor a t) (bit_xor_self b) ∙ bit_xor-zero a

pub bit_xor-lt : (k a b : ℕ) → a < 2 ^ k → b < 2 ^ k → bit_xor a b < 2 ^ k
bit_xor-lt zero a b p q =
    let ea : a ≡ 0 = omega arith in let eb : b ≡ 0 = omega arith in rw (ea, eb) (omega arith)
bit_xor-lt (suc k) a b p q = omega (
  arith,
  bit_xor_half a b,
  pow-suc 2 k,
  bit_xor-lt k (a / 2) (b / 2) (omega (arith, pow-suc 2 k)) (omega (arith, pow-suc 2 k)),
)

pub bit_xor_shift4 : (a b : ℕ) → bit_xor a b / 2 ^ 4 ≡ bit_xor (a / 2 ^ 4) (b / 2 ^ 4)
bit_xor_shift4 a b =
    omega arith
    ∙ ap (λ (t : ℕ). t / 2 / 2 / 2) (bit_xor_half a b)
    ∙ ap (λ (t : ℕ). t / 2 / 2) (bit_xor_half (a / 2) (b / 2))
    ∙ ap (λ (t : ℕ). t / 2) (bit_xor_half (a / 2 / 2) (b / 2 / 2))
    ∙ bit_xor_half (a / 2 / 2 / 2) (b / 2 / 2 / 2)
    ∙ xor_congr (a / 2 / 2 / 2 / 2) (b / 2 / 2 / 2 / 2) (a / 2 ^ 4) (b / 2 ^ 4) (omega arith)
        (omega arith)

-- Adding is exclusive or where the low digits are free.
pub bit_xor_fields : (h l : ℕ) → l < 16 → bit_xor (h * 16) l ≡ h * 16 + l
bit_xor_fields h l p = omega (
  arith,
  bit_xor_step (h * 16) l,
  bit_xor_step (h * 8) (l / 2),
  bit_xor_step (h * 4) (l / 4),
  bit_xor_step (h * 2) (l / 8),
  xor_congr (h * 16 / 2) (l / 2) (h * 8) (l / 2) (omega arith) refl,
  xor_congr (h * 8 / 2) (l / 2 / 2) (h * 4) (l / 4) (omega arith) (omega arith),
  xor_congr (h * 4 / 2) (l / 4 / 2) (h * 2) (l / 8) (omega arith) (omega arith),
  xor_congr (h * 2 / 2) (l / 8 / 2) h 0 (omega arith) (omega arith),
  bit_xor-zero h,
)

bit_or-zero : (a : ℕ) → bit_or a 0 ≡ a
bit_or-zero a =
    half_induction (λ n. bit_or n 0 ≡ n) refl (λ n h ih. omega (arith, bit_or_step n 0, ih)) a

twice_shifted : (high width : ℕ) → high * 2 ^ suc width ≡ high * 2 ^ width + high * 2 ^ width
twice_shifted high width =
    ap (λ (power : ℕ). high * power) {y = 2 ^ width + 2 ^ width} (omega (arith, pow-suc 2 width))
    ∙ omega arith

-- A field of `width` digits and a number shifted past it have no digit in common.
pub bit_or_fields :
    (width high low : ℕ) → low < 2 ^ width → bit_or (high * 2 ^ width) low ≡ high * 2 ^ width + low
bit_or_fields zero high low small = ground (arith, bit_or-zero high)
bit_or_fields (suc width) high low small =
    let rest = bit_or_fields width high (low / 2) (omega (arith, pow-suc 2 width)) in
    ground (arith, rest, twice_shifted high width, bit_or_step (high * 2 ^ suc width) low)

halve_shift : (k n : ℕ) → n / 2 ^ suc k ≡ n / 2 / 2 ^ k
halve_shift k n =
    ap (λ (t : ℕ). n / t) (pow-suc 2 k ∙ omega arith) ∙ sym (div-div-eq-div-mul n 2 (2 ^ k))

-- A shift to the right goes under exclusive or.
pub bit_xor_shift : (k a b : ℕ) → bit_xor a b / 2 ^ k ≡ bit_xor (a / 2 ^ k) (b / 2 ^ k)
bit_xor_shift zero a b =
    omega (arith, xor_congr (a / 2 ^ zero) (b / 2 ^ zero) a b (omega arith) (omega arith))
bit_xor_shift (suc k) a b =
    halve_shift k (bit_xor a b)
    ∙ ap (λ (t : ℕ). t / 2 ^ k) (bit_xor_half a b)
    ∙ bit_xor_shift k (a / 2) (b / 2)
    ∙ xor_congr (a / 2 / 2 ^ k) (b / 2 / 2 ^ k) (a / 2 ^ suc k) (b / 2 ^ suc k)
        (sym (halve_shift k a)) (sym (halve_shift k b))
