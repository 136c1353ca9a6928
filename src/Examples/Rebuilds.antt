-- ===== src/Examples/Rebuilds.antt =====
-- Operations appended to a commit, and rebuilds of a pair.
use littlefs2_pure.Prelude.{
  ℕ, ◌+◌, ◌≡◌, refl, arith, some, List, [], ◌∷◌, replicate, Result, ok, err,
}
use littlefs2_pure.Prelude.Bytes.{copy_at, to_be32}
use littlefs2_pure.Tag
use littlefs2_pure.Tag.Kind
use littlefs2_pure.Meta.Reader
use littlefs2_pure.Meta.Commit
use littlefs2_pure.Meta.Commit.{Commit}
use littlefs2_pure.Compact.{WriteOp, no_attrs, staged, emit_op, op_dsize_of}
use littlefs2_pure.Compact.Appended
use littlefs2_pure.Compact.Rebuild.{emit_compact_range, compact_range_size}
use littlefs2_pure.Compact.Size
use littlefs2_pure.Compact.Split
use littlefs2_pure.Compact.Split.{compute_split_index, Splits, split_budget}

abbrev blank : Commit
blank = record { buf = replicate 64 0xff; offset = 4; ptag = 0xffff_ffff; crc = 0 }

-- The commit of a result, and the blank one for an error.
abbrev committed : Result Commit → Commit
committed (ok c) = c
committed (err e) = blank

abbrev small_update : WriteOp
small_update = WriteOp.update 1 (1 ∷ 2 ∷ 3 ∷ [])

abbrev updated : Commit
updated = committed (emit_op small_update blank)

updated_ok : emit_op small_update blank ≡ ok updated
unfolding emit_op Commit.tag Tag.is_ccrc Tag.tag_type Kind.from_bits Tag.new Kind.into_bits
    Tag.body_len Tag.dsize
updated_ok = refl

emit_op-offset_example : updated.offset + 8 ≡ blank.offset + op_dsize_of small_update
emit_op-offset_example = Appended.emit_op-offset small_update blank updated updated_ok

-- A block with one commit and no entry, and the rebuild that adds a file.
abbrev no_entry : List ℕ
no_entry = 0x01 ∷ 0x00 ∷ 0x00 ∷ 0x00 ∷ 0xaf ∷ 0xf0 ∷ 0x03 ∷ 0xfb ∷ 0xdc ∷ 0x22 ∷ 0xf9 ∷ 0xf7 ∷ []

abbrev new_file : WriteOp
new_file = WriteOp.create 0 (0x61 ∷ []) (1 ∷ 2 ∷ []) no_attrs

abbrev rebuilt : Commit
rebuilt = committed (emit_compact_range Commit.tag no_entry [] 0 new_file 0 1 blank)

rebuilt_ok : emit_compact_range Commit.tag no_entry [] 0 new_file 0 1 blank ≡ ok rebuilt
unfolding emit_compact_range Commit.tag Tag.is_ccrc Tag.tag_type Kind.from_bits Tag.new Reader.new
    Kind.into_bits Tag.body_len Tag.dsize Commit.write_body copy_at to_be32 staged
rebuilt_ok = refl

emit_compact_range-size_example :
    (n : ℕ) × (compact_range_size no_entry [] 0 new_file 0 1 ≡ ok n)
    × (rebuilt.offset ≡ blank.offset + n)
emit_compact_range-size_example =
    Size.emit_compact_range-size no_entry [] 0 new_file 0 1 blank rebuilt rebuilt_ok

compute_split_index-Splits_example :
    (r : Result ℕ) × (compute_split_index 128 16 no_entry [] 0 new_file 0 4 ≡ some r)
    × Splits no_entry [] 0 new_file (split_budget 128 16) 4 0 r
compute_split_index-Splits_example =
    Split.compute_split_index-Splits 128 16 no_entry [] 0 new_file 0 4 (omega arith)
