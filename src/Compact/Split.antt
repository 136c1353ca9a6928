-- ===== src/Compact/Split.antt =====
-- src/fs.rs: where a compaction that splits a pair cuts, and when a compaction moves the pair.
use littlefs2_pure.Prelude.{
  ℕ, zero, suc, ◌+◌, ◌-◌, ◌*◌, ◌/◌, ◌≤◌, ◌<◌, ◌≡◌, refl, ◌⊎◌, inl, inr, true, false, ◌&&◌,
  Bool-cases, Option, none, some, List, ltb, leb, min, Result, ok, err, Result-cases, arith, Bool,
  bit_or, if◌then◌else◌, ◌%◌, ◌==◌,
}
use littlefs2_pure.Prelude.Words.{u32}
use littlefs2_pure.Prelude.Int.{ℤ, pos, negsuc}
use littlefs2_pure.Block.{BlockPair}
use littlefs2_pure.Chase.{eq_pair}
use littlefs2_pure.Compact.{WriteOp}
use littlefs2_pure.Compact.Plan.{SlotOffsets}
use littlefs2_pure.Compact.Rebuild.{compact_range_size}

abbrev pub split_reserve : ℕ
split_reserve = 40

-- `n.next_multiple_of(unit)`
abbrev pub next_multiple_of : ℕ → ℕ → ℕ
next_multiple_of n unit = (n + (unit - 1)) / unit * unit

abbrev pub split_budget : ℕ → ℕ → ℕ
split_budget block_size prog_size =
    min (block_size - split_reserve) (next_multiple_of (block_size / 2) prog_size)

-- The loop of `compute_split_index`; `none` means that the fuel ran out.
unfoldable pub split_loop :
    ℕ → List ℕ → List SlotOffsets → ℕ → WriteOp → ℕ → ℕ → ℕ → Option (Result ℕ)
split_loop zero source slots count op budget split end = none
split_loop (suc fuel) source slots count op budget split end = elim (ltb 1 (end - split)) [
  | false ↦ some (ok split)
  | true ↦ elim (compact_range_size source slots count op split end) [
    | err e ↦ some (err e)
    | ok size ↦ elim (ltb (end - split) 0xff && leb size budget) [
      | true ↦ some (ok split)
      | false ↦ split_loop fuel source slots count op budget (split + (end - split) / 2) end
    ]
  ]
]

-- A round moves the split on by one at least, so the length of the range and one more is enough fuel.
unfoldable pub compute_split_index :
    ℕ → ℕ → List ℕ → List SlotOffsets → ℕ → WriteOp → ℕ → ℕ → Option (Result ℕ)
unfolding split_loop
compute_split_index block_size prog_size source slots count op begin end =
    split_loop (suc (end - begin)) source slots count op (split_budget block_size prog_size) begin
      end

module _ (source : List ℕ) (slots : List SlotOffsets) (count : ℕ) (op : WriteOp)
    (budget end : ℕ) where
  -- The upper portion from the split on is one entry, or fits the budget with fewer than 255.
  abbrev pub UpperFits : ℕ → Type 0
  UpperFits split =
      (end - split ≤ 1)
      ⊎ ((end - split < 0xff)
          × ((size : ℕ) × (compact_range_size source slots count op split end ≡ ok size)
              × (size ≤ budget)))

  -- An outcome: a split that is in place, or an error of the estimate of an upper portion.
  abbrev pub Splits : ℕ → Result ℕ → Type 0
  Splits begin (ok split) = (begin ≤ split) × (split < end) × UpperFits split
  Splits begin (err e) =
      (split : ℕ) × (begin ≤ split) × (compact_range_size source slots count op split end ≡ err e)

  Splits-later : (begin split : ℕ) (r : Result ℕ) → begin ≤ split → Splits split r → Splits begin r
  Splits-later begin split (ok s) h g = (omega arith, g.1, g.2)
  Splits-later begin split (err e) h (s, le, g) = (s, omega arith, g)

  loop_ends :
      (fuel split : ℕ)
      → split < end
      → end < fuel + split
      → (r : Result ℕ) × (split_loop fuel source slots count op budget split end ≡ some r)
        × Splits split r
  unfolding split_loop
  loop_ends zero split lt h = absurd (omega arith)
  loop_ends (suc fuel) split lt h = elim (Bool-cases (ltb 1 (end - split))) [
    | inr one ↦ (ok split, rw (one, split_loop) refl, (omega arith, lt, inl (ground arith)))
    | inl more ↦ elim (Result-cases (compact_range_size source slots count op split end)) [
      | inr (e, v) ↦ (err e, rw (more, v, split_loop) refl, (split, omega arith, v))
      | inl (size, v) ↦ elim (Bool-cases (ltb (end - split) 0xff && leb size budget)) [
        | inl fits ↦ (
          ok split,
          rw (more, v, fits, split_loop) refl,
          (omega arith, lt, inr (ground arith, (size, v, ground arith))),
        )
        | inr large ↦
            let wide : 1 < end - split = ground arith in
            let split' = split + (end - split) / 2 in
            let (r, ends, good) = loop_ends fuel split' (omega arith) (omega arith) in
            (
              r,
              rw (more, v, large, split_loop) ends,
              Splits-later split split' r (omega arith) good,
            )
      ]
    ]
  ]

-- The choice of a split ends with a split inside the range, whose upper portion is a single entry or
-- has fewer than 255 entries whose rebuild is estimated within the budget; it fails only with the
-- error of the estimate of such a portion.
pub compute_split_index-Splits :
    (block_size prog_size : ℕ) (source : List ℕ) (slots : List SlotOffsets) (count : ℕ)
    (op : WriteOp) (begin end : ℕ)
    → begin < end
    → (r : Result ℕ) × (compute_split_index block_size prog_size source slots count op begin end
        ≡ some r)
      × Splits source slots count op (split_budget block_size prog_size) end begin r
unfolding compute_split_index
compute_split_index-Splits block_size prog_size source slots count op begin end lt =
    loop_ends source slots count op (split_budget block_size prog_size) end (suc (end - begin))
      begin lt (omega arith)

-- The wear levelling predicate; `block_cycles` is an i32.
unfoldable pub should_relocate : BlockPair → BlockPair → ℕ → ℤ → Bool
unfolding eq_pair
should_relocate pair_addr root new_revision (negsuc n) = false
should_relocate pair_addr root new_revision (pos zero) = false
should_relocate pair_addr root new_revision (pos (suc n)) =
    if eq_pair pair_addr root then false else new_revision % bit_or (u32 (suc n + 1)) 1 == 0
