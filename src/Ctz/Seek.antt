-- ===== src/Ctz/Seek.antt =====
-- The descent of `seek_block`: on a well formed chain it ends at the target's block.
use littlefs2_pure.Prelude.{
  ℕ, zero, suc, ◌-◌, ◌*◌, ◌^◌, ◌≤◌, ◌<◌, ◌≡◌, refl, arith, lt→ltb, ltb-false, List, ◌⊎◌, inl, inr,
  ok,
}
use native.Mathlib.Nat.{pow-le-pow_right, min-le_left}
use littlefs2_pure.Prelude.Counts.{trailing_zeros, ilog2, ilog2_le}
use littlefs2_pure.Prelude.Bytes.{le32_at}
use littlefs2_pure.Storage.{Storage, read_range}
use littlefs2_pure.Ctz.{require_in_bounds, jump, seek_walk, seek_block_buffered}

-- The blocks at `addr 0`, `addr 1`, .. up to `addr top` form a chain on the device: each lies on
-- it, and pointer `k` of block `i` reads as the address of block `i - 2 ^ k`.
pub record IsChain (s : Storage) (addr : ℕ → ℕ) (top window_len : ℕ) : Type 0 where
  pub on_device : (i : ℕ) → i ≤ top → addr i < s.block_count
  pub pointer :
      (i k : ℕ)
      → 0 < i
      → i ≤ top
      → k ≤ trailing_zeros i
      → (bytes : List ℕ) × (read_range s (addr i) (4 * k) 4 window_len ≡ ok bytes)
        × (le32_at bytes 0 ≡ addr (i - 2 ^ k))

pub require_in_bounds-lt : (s : Storage) (b : ℕ) → b < s.block_count → require_in_bounds s b ≡ ok b
unfolding require_in_bounds
require_in_bounds-lt s b h = rw (lt→ltb b s.block_count h) refl

le_cases : (a b : ℕ) → a ≤ b → (b ≡ a) ⊎ (a < b)
le_cases a b h = ground arith

-- A jump is a hop of at least one block that does not pass the target.
jump_le :
    (i target : ℕ)
    → target < i
    → (jump i target ≤ trailing_zeros i) × (2 ^ jump i target ≤ i - target)
unfolding jump
jump_le i target h =
    let smaller =
      pow-le-pow_right {n = 2} (omega arith)
        (min-le_left (ilog2 (i - target)) (trailing_zeros i)) in
    (omega arith, omega (arith, smaller, ilog2_le (i - target) (omega arith)))

module _ (s : Storage) (addr : ℕ → ℕ) (top window_len : ℕ) (c : IsChain s addr top window_len) where
  seek_walk-eq :
      (fuel i target : ℕ)
      → target ≤ i
      → i ≤ top
      → i - target ≤ fuel
      → seek_walk s fuel (addr i) i target window_len ≡ ok (addr target)
  unfolding seek_walk
  seek_walk-eq zero i target h k l = let here : i ≡ target = omega arith in rw here refl
  seek_walk-eq (suc fuel) i target h k l = elim (le_cases target i h) [
    | inl e ↦ rw (ltb-false target i (omega arith), e, seek_walk) refl
    | inr lt ↦
        let j = jump i target in
        let (few, short) = jump_le i target lt in
        let (bytes, reads, points) = c.pointer i j (omega arith) k few in
        let hop : 1 ≤ 2 ^ j =
          pow-le-pow_right {n = 2} (omega arith) {i = 0} {j = j} (omega arith) in
        let next_in =
          require_in_bounds-lt s (addr (i - 2 ^ j)) (c.on_device (i - 2 ^ j) (omega arith)) in
        let rest = seek_walk-eq fuel (i - 2 ^ j) target (omega arith) (omega arith) (omega arith) in
        rw (lt→ltb target i lt, reads, points, next_in, seek_walk) rest
  ]

  -- On a chain, the seek from any of its blocks to a block before it or to itself returns that
  -- block's address.
  pub seek_block_buffered-eq :
      (from target : ℕ)
      → target ≤ from
      → from ≤ top
      → seek_block_buffered s (addr from) from target window_len ≡ ok (addr target)
  unfolding seek_block_buffered
  seek_block_buffered-eq from target h k =
      rw (ltb-false from target h, require_in_bounds-lt s (addr from) (c.on_device from k))
        (seek_walk-eq (from - target) from target h k (omega arith))
