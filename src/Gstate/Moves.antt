-- ===== src/Gstate/Moves.antt =====
-- Bodies that the builders make decode, from a state with no pending work, to what they record.
use littlefs2_pure.Prelude.{ℕ, ◌+◌, ◌^◌, ◌<◌, ◌≡◌, refl, true, false, some, ◌++◌, arith, ◌==◌}
use littlefs2_pure.Prelude.Bits.{zero-bit_xor}
use littlefs2_pure.Prelude.Bytes.{le32_at, to_le32}
use littlefs2_pure.Block.{BlockPair}
use littlefs2_pure.Tag
use littlefs2_pure.Tag.Kind
use littlefs2_pure.Tag.Kind.{delete}
use littlefs2_pure.Tag.Fields.{new-sum, new-lt, new_fields}
use littlefs2_pure.Gstate.{
  gstate_zero, xor_body, xor_relocate_body, build_move_body, build_relocate_body, pending_move,
  pending_relocation, has_pending_move, has_pending_relocation,
}

abbrev pub IsAddressed : BlockPair → Type 0
IsAddressed p = (p.a < 2 ^ 32) × (p.b < 2 ^ 32)

three_words :
    (t a b : ℕ)
    → t < 2 ^ 32
    → a < 2 ^ 32
    → b < 2 ^ 32
    → let body = to_le32 t ++ (to_le32 a ++ to_le32 b) in
      (le32_at body 0 ≡ t) × (le32_at body 4 ≡ a) × (le32_at body 8 ≡ b)
unfolding le32_at to_le32
three_words t a b p q r = omega arith

four_words :
    (a b c d : ℕ)
    → a < 2 ^ 32
    → b < 2 ^ 32
    → c < 2 ^ 32
    → d < 2 ^ 32
    → let body = to_le32 a ++ (to_le32 b ++ (to_le32 c ++ to_le32 d)) in
      (le32_at body 0 ≡ a) × (le32_at body 4 ≡ b) × (le32_at body 8 ≡ c) × (le32_at body 12 ≡ d)
unfolding le32_at to_le32
four_words a b c d p q r s = omega arith

-- The pending move of a state whose tag word is a Delete tag.
pending_move-delete :
    (src : BlockPair) (src_id : ℕ)
    → src_id < 2 ^ 10
    → pending_move (record gstate_zero {
      move_tag = Tag.new true delete src_id 0;
      move_pair_a = src.a;
      move_pair_b = src.b;
    })
      ≡ some (src, src_id)
unfolding pending_move has_pending_move
pending_move-delete src src_id h =
    let f = new_fields true delete src_id 0 tt h (omega arith) in
    let bits : Kind.into_bits delete ≡ 0x4ff = unfold Kind.into_bits in refl in
    let e = new-sum true delete src_id 0 (omega arith) in
    let ne : (Tag.new true delete src_id 0 == 0) ≡ false = ground arith in rw (ne, f.1, f.2)

-- After one body of `build_move_body` the state names the source pair and the id that the source
-- still owes a deletion, for addresses and ids that fit their fields.
pub pending_move-build_move_body :
    (src : BlockPair) (src_id : ℕ)
    → IsAddressed src
    → src_id < 2 ^ 10
    → pending_move (xor_body gstate_zero (build_move_body src src_id)) ≡ some (src, src_id)
unfolding xor_body build_move_body
pending_move-build_move_body src src_id h hid =
    let bits : Kind.into_bits delete ≡ 0x4ff = unfold Kind.into_bits in refl in
    let w =
      three_words (Tag.new true delete src_id 0) src.a src.b
        (new-lt true delete src_id 0 (omega arith)) h.0 h.1 in
    rw
      (
        w.0,
        w.1,
        w.2,
        zero-bit_xor (Tag.new true delete src_id 0),
        zero-bit_xor src.a,
        zero-bit_xor src.b,
      )
      (pending_move-delete src src_id hid)

-- After one body of `build_relocate_body` the state names the old and the new pair, for addresses
-- that fit a word, unless all four of them are zero.
pub pending_relocation-build_relocate_body :
    (old_pair new_pair : BlockPair)
    → IsAddressed old_pair
    → IsAddressed new_pair
    → 0 < old_pair.a + old_pair.b + new_pair.a + new_pair.b
    → pending_relocation (xor_relocate_body gstate_zero (build_relocate_body old_pair new_pair))
      ≡ some (old_pair, new_pair)
unfolding xor_relocate_body build_relocate_body pending_relocation has_pending_relocation
pending_relocation-build_relocate_body old_pair new_pair h k pos =
    let w = four_words old_pair.a old_pair.b new_pair.a new_pair.b h.0 h.1 k.0 k.1 in
    rw
      (
        w.0,
        w.1,
        w.2,
        w.3,
        zero-bit_xor old_pair.a,
        zero-bit_xor old_pair.b,
        zero-bit_xor new_pair.a,
        zero-bit_xor new_pair.b,
      )
      (ground arith)
