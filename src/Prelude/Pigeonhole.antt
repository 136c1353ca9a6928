-- ===== src/Prelude/Pigeonhole.antt =====
-- The pigeonhole principle, on numbers below a bound.
use Prim.Native.Nat.{ℕ, zero, suc, ◌≤◌, ◌<◌}
use mathlib.Core.Path.{◌≡◌, sym, ap, ◌∙◌}
use mathlib.Core.Logic.{◌≢◌, ◌⊎◌, inl, inr}
use native.Mathlib.Omega.{arith}
use littlefs2_pure.Prelude.Tests.{◌==◌, if◌then◌else◌, Bool-cases}

find_value :
    (k : ℕ) (f : ℕ → ℕ) (v : ℕ) → ((j : ℕ) × (j < k) × (f j ≡ v)) ⊎ ((j : ℕ) → j < k → f j ≢ v)
find_value zero f v = inr (λ j lt. absurd (omega arith))
find_value (suc k) f v = elim (find_value k f v) [
  | inl (j, lt, e) ↦ inl (j, omega arith, e)
  | inr others ↦ elim (Bool-cases (f k == v)) [
    | inl hit ↦ inl (k, omega arith, ground arith)
    | inr miss ↦ inr (λ j lt e. elim (Bool-cases (j == k)) [
      | inl here ↦
          let at : j ≡ k = ground arith in
          let same : f k ≡ v = sym (ap f at) ∙ e in absurd (ground arith)
      | inr there ↦ others j (ground arith) e
    ])
  ]
]

-- Among `n + 1` numbers below `n`, two are equal.
pub pigeonhole :
    (n : ℕ) (f : ℕ → ℕ)
    → ((i : ℕ) → i ≤ n → f i < n)
    → (a : ℕ) × (b : ℕ) × (a < b) × (b ≤ n) × (f a ≡ f b)
pigeonhole zero f below = absurd (omega (arith, below 0 (omega arith)))
pigeonhole (suc m) f below = elim (find_value (suc m) f (f (suc m))) [
  | inl (j, lt, e) ↦ (j, suc m, lt, omega arith, e)
  | inr others ↦
      let g = λ (i : ℕ). if f i == m then f (suc m) else f i in
      let (a, b, lt, le, e) = pigeonhole m g (λ i l.
        ground
          (arith, others i (omega arith), below i (omega arith), below (suc m) (omega arith))) in
      (a, b, lt, omega arith, ground (arith, others a (omega arith), others b (omega arith)))
]
