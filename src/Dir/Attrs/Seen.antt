-- ===== src/Dir/Attrs/Seen.antt =====
-- The bitmap of the attributes that a walk has seen, as a set.
use littlefs2_pure.Prelude.{
  ℕ, zero, suc, ◌/◌, ◌%◌, ◌^◌, ◌<◌, bit_or, ◌≡◌, refl, inl, inr, false, ◌||◌, Bool-cases, List,
  ◌==◌, ==_iff, length, get_or, get_or-set, get_or-set_other, length-set, replicate, arith,
}
use littlefs2_pure.Prelude.Bits.Digits.{has_bit-bit_or, has_bit-zero}
use littlefs2_pure.Prelude.Words.{◌<<<◌}
use littlefs2_pure.Dir.Attrs.{is_seen, see}

pub is_seen-see :
    (seen : List ℕ) (a c : ℕ)
    → length seen ≡ 8
    → a < 256
    → is_seen (see seen a) c ≡ ((a == c) || is_seen seen c)
unfolding is_seen see
is_seen-see seen a c w h =
    let word = bit_or (get_or seen (a / 32) 0) (1 <<< (a % 32)) in
    let one : 1 <<< (a % 32) ≡ 2 ^ (a % 32) = omega arith in
    elim (Bool-cases (a / 32 == c / 32)) [
      | inl same ↦
          let at : a / 32 ≡ c / 32 = (==_iff (a / 32) (c / 32)).0 same in
          let bits_same : (a % 32 == c % 32) ≡ (a == c) = ground arith in
          rw
            (
              ← at,
              get_or-set seen (a / 32) word 0 (omega (arith, w)),
              one,
              has_bit-bit_or (get_or seen (a / 32) 0) (a % 32) (c % 32),
              bits_same,
            )
            refl
      | inr far ↦
          let other : (a == c) ≡ false = ground arith in
          rw (get_or-set_other seen (a / 32) (c / 32) word 0 (λ q. absurd (ground arith)), other)
            refl
    ]

pub length-see : (seen : List ℕ) (a : ℕ) → length (see seen a) ≡ length seen
unfolding see
length-see seen a = length-set seen (a / 32) (bit_or (get_or seen (a / 32) 0) (1 <<< (a % 32)))

zeros : (n i : ℕ) → ◌≡◌ {A = ℕ} (get_or (replicate n 0) i 0) 0
zeros zero i = refl
zeros (suc n) zero = refl
zeros (suc n) (suc i) = zeros n i

pub none_seen : (a : ℕ) → is_seen (replicate 8 0) a ≡ false
unfolding is_seen
none_seen a = rw (zeros 8 (a / 32)) (has_bit-zero (a % 32))
