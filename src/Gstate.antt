-- ===== src/Gstate.antt =====
-- src/gstate.rs: the filesystem's global state, an exclusive or of bodies that every reachable
-- metadata pair contributes.
pub mod Moves
use littlefs2_pure.Prelude.{
  ℕ, bit_xor, Bool, true, false, not, ◌&&◌, ◌||◌, Option, none, some, List, ◌++◌, ◌==◌,
  if◌then◌else◌,
}
use littlefs2_pure.Prelude.Bytes.{le32_at, to_le32}
use littlefs2_pure.Block.{BlockPair}
use littlefs2_pure.Tag
use littlefs2_pure.Tag.Kind.{TagType, delete}

abbrev pub move_state_body_size : ℕ
move_state_body_size = 12

abbrev pub relocate_state_body_size : ℕ
relocate_state_body_size = 16

pub record Gstate : Type 0 where
  pub move_tag : ℕ
  pub move_pair_a : ℕ
  pub move_pair_b : ℕ
  pub relocate_old_a : ℕ
  pub relocate_old_b : ℕ
  pub relocate_new_a : ℕ
  pub relocate_new_b : ℕ

-- `Gstate::ZERO`
abbrev pub gstate_zero : Gstate
gstate_zero = record {
  move_tag = 0;
  move_pair_a = 0;
  move_pair_b = 0;
  relocate_old_a = 0;
  relocate_old_b = 0;
  relocate_new_a = 0;
  relocate_new_b = 0;
}

pub is_zero : Gstate → Bool
is_zero g =
    g.move_tag == 0
    && g.move_pair_a == 0
    && g.move_pair_b == 0
    && g.relocate_old_a == 0
    && g.relocate_old_b == 0
    && g.relocate_new_a == 0
    && g.relocate_new_b == 0

unfoldable pub has_pending_move : Gstate → Bool
has_pending_move g = not (g.move_tag == 0) || not (g.move_pair_a == 0) || not (g.move_pair_b == 0)

unfoldable pub has_pending_relocation : Gstate → Bool
has_pending_relocation g =
    not (g.relocate_old_a == 0)
    || not (g.relocate_old_b == 0)
    || not (g.relocate_new_a == 0)
    || not (g.relocate_new_b == 0)

unfoldable pub xor_relocate_body : Gstate → List ℕ → Gstate
xor_relocate_body g body = record g {
  relocate_old_a = bit_xor g.relocate_old_a (le32_at body 0);
  relocate_old_b = bit_xor g.relocate_old_b (le32_at body 4);
  relocate_new_a = bit_xor g.relocate_new_a (le32_at body 8);
  relocate_new_b = bit_xor g.relocate_new_b (le32_at body 12);
}

unfoldable pub pending_relocation : Gstate → Option (BlockPair × BlockPair)
unfolding has_pending_relocation
pending_relocation g =
    if not (has_pending_relocation g)
    then none
    else some (
      record { a = g.relocate_old_a; b = g.relocate_old_b },
      record { a = g.relocate_new_a; b = g.relocate_new_b },
    )

unfoldable pub xor_body : Gstate → List ℕ → Gstate
xor_body g body = record g {
  move_tag = bit_xor g.move_tag (le32_at body 0);
  move_pair_a = bit_xor g.move_pair_a (le32_at body 4);
  move_pair_b = bit_xor g.move_pair_b (le32_at body 8);
}

pub to_body : Gstate → List ℕ
to_body g = to_le32 g.move_tag ++ (to_le32 g.move_pair_a ++ to_le32 g.move_pair_b)

pub is_delete : TagType → Bool
is_delete delete = true
is_delete _ = false

unfoldable pub pending_move : Gstate → Option (BlockPair × ℕ)
unfolding has_pending_move is_delete
pending_move g =
    if not (has_pending_move g)
    then none
    else if not (is_delete (Tag.tag_type g.move_tag))
    then none
    else some (record { a = g.move_pair_a; b = g.move_pair_b }, Tag.id g.move_tag)

unfoldable pub build_relocate_body : BlockPair → BlockPair → List ℕ
build_relocate_body old_pair new_pair =
    to_le32 old_pair.a ++ (to_le32 old_pair.b ++ (to_le32 new_pair.a ++ to_le32 new_pair.b))

unfoldable pub build_move_body : BlockPair → ℕ → List ℕ
build_move_body src_pair src_id =
    to_le32 (Tag.new true delete src_id 0) ++ (to_le32 src_pair.a ++ to_le32 src_pair.b)
