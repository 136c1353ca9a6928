-- ===== src/Examples/Basics.antt =====
-- Checksums, tags, pairs, geometry and the global state.
use littlefs2_pure.Prelude.{ℕ, ◌≡◌, refl, ◌∙◌, true, some, List, [], ◌∷◌, arith}
use littlefs2_pure.Crc
use littlefs2_pure.Crc.Laws
use littlefs2_pure.Tag
use littlefs2_pure.Tag.Kind
use littlefs2_pure.Tag.Kind.{create, superblock, commit_crc}
use littlefs2_pure.Tag.Fields
use littlefs2_pure.Block.{BlockPair}
use littlefs2_pure.Gstate.{
  gstate_zero, xor_body, xor_relocate_body, build_move_body, build_relocate_body, pending_move,
  pending_relocation,
}
use littlefs2_pure.Gstate.Moves.{
  pending_move-build_move_body, pending_relocation-build_relocate_body,
}

-- The ASCII digits of the published check value.
abbrev digits : List ℕ
digits = 0x31 ∷ 0x32 ∷ 0x33 ∷ 0x34 ∷ 0x35 ∷ 0x36 ∷ 0x37 ∷ 0x38 ∷ 0x39 ∷ []

check_value : Crc.compute digits ≡ 0x340b_c6d9
unfolding Crc.compute Crc.update Crc.update_nibble
check_value = refl

update-eq-update_bitwise_example : Crc.update Crc.init digits ≡ Crc.update_bitwise Crc.init digits
update-eq-update_bitwise_example = Laws.update-eq-update_bitwise Crc.init digits (omega arith)

superblock_word : Tag.new true superblock 0 8 ≡ 0x0ff0_0008
superblock_word =
    Fields.new-sum true superblock 0 8 (unfold Kind.into_bits in omega arith)
    ∙ unfold Kind.into_bits in refl

abbrev pair_a : BlockPair
pair_a = record { a = 3; b = 7 }

abbrev pair_b : BlockPair
pair_b = record { a = 9; b = 4 }

pending_move-build_move_body_example :
    pending_move (xor_body gstate_zero (build_move_body pair_a 5)) ≡ some (pair_a, 5)
pending_move-build_move_body_example =
    pending_move-build_move_body pair_a 5 (omega arith) (omega arith)

pending_relocation-build_relocate_body_example :
    pending_relocation (xor_relocate_body gstate_zero (build_relocate_body pair_a pair_b))
    ≡ some (pair_a, pair_b)
pending_relocation-build_relocate_body_example =
    pending_relocation-build_relocate_body pair_a pair_b (omega arith, omega arith)
      (omega arith, omega arith) (omega arith)
