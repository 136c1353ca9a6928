-- ===== src/Prelude/Bits/Step.antt =====
-- One digit of `^` and of `|`: the value of the operation on two numbers from its value on their
-- halves. The library defines both by recursion on an amount of fuel, of which any more than the
-- first number is not used.
use Prim.Native.Nat.{
  ℕ, zero, suc, ◌+◌, ◌-◌, ◌*◌, ◌/◌, ◌%◌, ◌≤◌, ◌<◌, max, bit_xor, bit_or, digits, bitwise, differ,
  bit_xor-bitwise, bit_or-bitwise, bit_and, bit_and-bitwise, min,
}
use mathlib.Core.Path.{◌≡◌, refl, sym, ap, ◌∙◌}
use native.Mathlib.Nat.{le_refl}
use native.Mathlib.Omega.{arith}

module _ (rest : ℕ → ℕ) (digit : ℕ → ℕ → ℕ) where
  rest_at_zero : (fuel y : ℕ) → digits rest digit fuel zero y ≡ digits rest digit zero zero y
  rest_at_zero zero y = refl
  rest_at_zero (suc fuel) y = refl

  spare_fuel :
      (spare x y fuel : ℕ)
      → x ≤ fuel
      → digits rest digit (spare + fuel) x y ≡ digits rest digit fuel x y
  spare_fuel spare zero y fuel enough = rest_at_zero (spare + fuel) y ∙ sym (rest_at_zero fuel y)
  spare_fuel spare (suc x) y zero enough = absurd (omega arith)
  spare_fuel spare (suc x) y (suc fuel) enough =
      ap (λ (n : ℕ). digits rest digit n (suc x) y) {x = spare + suc fuel} {y = suc (spare + fuel)}
        (omega arith)
      ∙ rw (spare_fuel spare (suc x / 2) (y / 2) fuel (omega arith))

  halved_fuel :
      (x y : ℕ) → digits rest digit x (suc x / 2) y ≡ digits rest digit (suc x / 2) (suc x / 2) y
  halved_fuel x y =
      ap (λ (fuel : ℕ). digits rest digit fuel (suc x / 2) y) {x = x}
        {y = (x - suc x / 2) + suc x / 2} (omega arith)
      ∙ spare_fuel (x - suc x / 2) (suc x / 2) y (suc x / 2) (le_refl _)

  lowest_digit :
      (x y : ℕ)
      → bitwise rest digit (suc x) y
        ≡ bitwise rest digit (suc x / 2) (y / 2) * 2 + digit (suc x % 2) (y % 2)
  lowest_digit x y = omega (arith, halved_fuel x (y / 2))

differ_parity : (x y : ℕ) → x < 2 → y < 2 → differ x y ≡ (x + y) % 2
differ_parity zero zero p q = refl
differ_parity zero (suc zero) p q = refl
differ_parity (suc zero) zero p q = refl
differ_parity (suc zero) (suc zero) p q = refl
differ_parity (suc (suc x)) y p q = absurd (omega arith)
differ_parity zero (suc (suc y)) p q = absurd (omega arith)
differ_parity (suc zero) (suc (suc y)) p q = absurd (omega arith)

-- The lowest digit is 1 when exactly one of the two digits is.
pub bit_xor_step : (x y : ℕ) → bit_xor x y ≡ bit_xor (x / 2) (y / 2) * 2 + (x % 2 + y % 2) % 2
bit_xor_step zero y = simp bit_xor-bitwise (omega arith)
bit_xor_step (suc x) y =
    rw (← differ_parity (suc x % 2) (y % 2) (omega arith) (omega arith))
      (simp bit_xor-bitwise (lowest_digit (λ k. k) differ x y))

-- The lowest digit is the larger of the two.
pub bit_or_step : (x y : ℕ) → bit_or x y ≡ bit_or (x / 2) (y / 2) * 2 + max (x % 2) (y % 2)
bit_or_step zero y = simp bit_or-bitwise (omega arith)
bit_or_step (suc x) y = simp bit_or-bitwise (lowest_digit (λ k. k) max x y)

-- The lowest digit is the smaller of the two.
pub bit_and_low : (x y : ℕ) → bit_and x y ≡ bit_and (x / 2) (y / 2) * 2 + min (x % 2) (y % 2)
bit_and_low zero y = simp bit_and-bitwise (omega arith)
bit_and_low (suc x) y = simp bit_and-bitwise (lowest_digit (λ k. 0) min x y)
