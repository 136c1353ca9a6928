-- ===== src/Ctz/Index.antt =====
-- Where a file offset lies: the closed form of `block_index_at_offset` against the sum of the
-- blocks' contents.
use littlefs2_pure.Prelude.{
  ℕ, zero, suc, ◌+◌, ◌-◌, ◌*◌, ◌/◌, ◌^◌, ◌≤◌, ◌<◌, ◌≡◌, refl, arith, ◌==◌, if◌then◌else◌, false,
  ◌⊎◌, inl, inr, ltb, Bool-cases, ltb→lt, ltb-false→le,
}
use native.Mathlib.Nat.{div-eq_of_lt-le, mul-le-mul_left, div-mul-le_self, lt-div-mul-add}
use littlefs2_pure.Prelude.Words.{u32, sub32, sub32_exact}
use littlefs2_pure.Prelude.Counts.{trailing_zeros, count_ones, count_ones-suc, count_ones_le}
use littlefs2_pure.Ctz.{
  skip_pointers_in_block, content_bytes_in_block, block_index_at_offset, popcount,
}

-- The file bytes that the blocks before block `i` hold.
unfoldable pub content_before : ℕ → ℕ → ℕ
unfolding content_bytes_in_block
content_before bs zero = 0
content_before bs (suc i) = content_before bs i + content_bytes_in_block i bs

pub trailing_zeros_le : (i : ℕ) → suc i < 2 ^ 32 → suc i < 2 ^ 26 → trailing_zeros (suc i) ≤ 27
trailing_zeros_le i h k = omega (arith, count_ones-suc i h, count_ones_le 26 i (omega arith))

pub skip_pointers-suc : (i : ℕ) → skip_pointers_in_block (suc i) ≡ trailing_zeros (suc i) + 1
unfolding skip_pointers_in_block
skip_pointers-suc i = ground arith

-- No block of the device is smaller than its pointers.
content_bytes-suc :
    (bs i : ℕ)
    → 128 ≤ bs
    → bs < 2 ^ 32
    → suc i < 2 ^ 26
    → content_bytes_in_block (suc i) bs ≡ bs - 4 * (trailing_zeros (suc i) + 1)
unfolding content_bytes_in_block
content_bytes-suc bs i h k l =
    let le = trailing_zeros_le i (omega arith) l in
    rw (skip_pointers-suc i) (sub32_exact bs (4 * (trailing_zeros (suc i) + 1)) (omega arith) k)

-- The pointers before block `suc i` are two for each block but the first, less the ones of `i`.
content_before-suc :
    (bs i : ℕ)
    → 128 ≤ bs
    → bs < 2 ^ 32
    → i < 2 ^ 26
    → content_before bs (suc i) ≡ i * (bs - 8) + bs + 4 * count_ones i
unfolding content_before content_bytes_in_block skip_pointers_in_block
content_before-suc bs zero h k l =
    rw (sub32_exact bs 0 (omega arith) k) (omega (arith, count_ones_le 0 0 (omega arith)))
content_before-suc bs (suc i) h k l =
    let ih = content_before-suc bs i h k (omega arith) in
    let tz = count_ones-suc i (omega arith) in
    let le = trailing_zeros_le i (omega arith) l in
    rw (ih, content_bytes-suc bs i h k l) (omega arith)

-- `off` in block `i` is the place of the logical offset: the bytes of the blocks before, plus those
-- before it in its block less the block's pointers, are the logical offset, and it lies past the
-- pointers and inside the block.
abbrev pub IsPlace : ℕ → ℕ → ℕ → ℕ → Type 0
IsPlace bs offset i off =
    (content_before bs i + off ≡ offset + 4 * skip_pointers_in_block i)
    × (4 * skip_pointers_in_block i ≤ off)
    × (off < bs)

first_block : (bs offset : ℕ) → offset < bs → IsPlace bs offset 0 offset
unfolding content_before skip_pointers_in_block
first_block bs offset h = (omega arith, omega arith, h)

-- The last two numbers that `block_index_at_offset` computes, for block `i`.
abbrev offset_in : ℕ → ℕ → ℕ → ℕ
offset_in b offset i = sub32 (sub32 offset (u32 (b * i))) (4 * popcount i)

later_block :
    (bs offset j : ℕ)
    → 128 ≤ bs
    → bs < 2 ^ 32
    → offset < 2 ^ 32
    → suc j < 2 ^ 26
    → j * (bs - 8) + bs + 4 * count_ones j ≤ offset
    → offset < suc j * (bs - 8) + bs + 4 * count_ones (suc j)
    → IsPlace bs offset (suc j) (offset_in (bs - 8) offset (suc j))
later_block bs offset j h k l m lo hi =
    let tz = count_ones-suc j (omega arith) in
    let le = trailing_zeros_le j (omega arith) m in
    let small : (bs - 8) * suc j < 2 ^ 32 = omega arith in
    let word : u32 ((bs - 8) * suc j) ≡ (bs - 8) * suc j = omega arith in
    let one = sub32_exact offset ((bs - 8) * suc j) (omega arith) l in
    let two =
      sub32_exact (offset - (bs - 8) * suc j) (4 * count_ones (suc j)) (omega arith)
        (omega arith) in
    rw (word, one, two, content_before-suc bs j h k (omega arith), skip_pointers-suc j)
      (omega arith, omega arith, omega arith)

-- The quotient of the second division, from the first quotient `suc f`.
second_quotient :
    (b offset f : ℕ)
    → 120 ≤ b
    → offset < 2 ^ 32
    → suc f * b ≤ offset
    → offset < suc (suc f) * b
    → ((sub32 offset (4 * (popcount f + 2)) / b ≡ suc f)
        × (suc f * b + 4 * popcount f + 8 ≤ offset))
      ⊎ ((sub32 offset (4 * (popcount f + 2)) / b ≡ f) × (offset < suc f * b + 4 * popcount f + 8))
second_quotient b offset f h l lo hi =
    let few = count_ones_le 26 f (omega (arith, mul-le-mul_left {m = 120} {n = b} (suc f) h)) in
    let exact = sub32_exact offset (4 * (popcount f + 2)) (omega arith) l in
    elim (Bool-cases (ltb offset (suc f * b + 4 * popcount f + 8))) [
      | inl e ↦
          let lt = ltb→lt offset (suc f * b + 4 * popcount f + 8) e in
          inr (rw exact (div-eq_of_lt-le b (omega arith) (omega arith)), lt)
      | inr e ↦
          let ge = ltb-false→le offset (suc f * b + 4 * popcount f + 8) e in
          inl (rw exact (div-eq_of_lt-le b (omega arith) (omega arith)), ge)
    ]

before_second :
    (bs offset f : ℕ)
    → 128 ≤ bs
    → bs < 2 ^ 32
    → offset < 2 ^ 32
    → suc f < 2 ^ 26
    → suc f * (bs - 8) ≤ offset
    → offset < suc f * (bs - 8) + 4 * popcount f + 8
    → IsPlace bs offset f (offset_in (bs - 8) offset f)
before_second bs offset zero h k l m lo hi =
    let none_set = count_ones_le 0 0 (omega arith) in
    let same : offset_in (bs - 8) offset 0 ≡ offset = omega arith in
    rw same (first_block bs offset (omega arith))
before_second bs offset (suc g) h k l m lo hi =
    let few = count_ones_le 26 g (omega arith) in
    later_block bs offset g h k l (omega arith) (omega arith) (omega arith)

placed :
    (bs offset first : ℕ)
    → 128 ≤ bs
    → bs < 2 ^ 32
    → offset < 2 ^ 32
    → first * (bs - 8) ≤ offset
    → offset < suc first * (bs - 8)
    → (place : ℕ × ℕ)
    → place ≡ (
        if first == 0 then (0, offset) else (
          sub32 offset (4 * (popcount (first - 1) + 2)) / (bs - 8),
          offset_in (bs - 8) offset (sub32 offset (4 * (popcount (first - 1) + 2)) / (bs - 8)),
        ))
    → IsPlace bs offset place.0 place.1
placed bs offset zero h k l lo hi place e = rw e (first_block bs offset (omega arith))
placed bs offset (suc f) h k l lo hi place e =
    let wide : suc f * 120 ≤ suc f * (bs - 8) = mul-le-mul_left (suc f) (omega arith) in
    let back : suc f - 1 ≡ f = omega arith in
    let positive : (suc f == 0) ≡ false = ground arith in
    elim (second_quotient (bs - 8) offset f (omega arith) l lo hi) [
      | inl (q, ge) ↦
          rw (e, positive, back, q)
            (later_block bs offset f h k l (omega arith) (omega arith) (omega arith))
      | inr (q, lt) ↦
          rw (e, positive, back, q) (before_second bs offset f h k l (omega arith) lo lt)
    ]

-- The block and the offset for a logical offset: the bytes of the blocks before, plus those before
-- it in its block less the block's pointers, are the logical offset, which lies past the pointers
-- and inside the block. This holds for every block size from 128 bytes and every u32 offset.
pub block_index_at_offset-content_before :
    (offset bs : ℕ)
    → 128 ≤ bs
    → bs < 2 ^ 32
    → offset < 2 ^ 32
    → IsPlace bs offset (block_index_at_offset offset bs).0 (block_index_at_offset offset bs).1
unfolding block_index_at_offset
block_index_at_offset-content_before offset bs h k l = rw (sub32_exact bs 8 (omega arith) k) (
    placed bs offset (offset / (bs - 8)) h k l (div-mul-le_self offset (bs - 8))
      (omega (arith, lt-div-mul-add {a = offset} {b = bs - 8} (omega arith))) _ refl)
