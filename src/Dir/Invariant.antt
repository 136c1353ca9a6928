-- ===== src/Dir/Invariant.antt =====
-- The slot array keeps its length and the count stays inside it, whatever tag is replayed.
use littlefs2_pure.Prelude.{
  length-set, ℕ, ◌-◌, inl, inr, Bool-cases, arith, ltb, leb, Result, ok, err,
}
use littlefs2_pure.Tag
use littlefs2_pure.Tag.Kind.{
  TagType, regular_file, directory, superblock, from_move, from_user_attrs, dir_struct,
  inline_struct, ctz_struct, user_attr, create, delete, commit_crc, forward_crc, soft_tail,
  hard_tail, move_state, relocate_state, unknown,
}
use littlefs2_pure.Dir.{
  Roster, SpliceStep, max_live_entries, create_slot, delete_slot, name_slot, splice_arm,
  splice_step, shift_up, shift_down,
}
use littlefs2_pure.Dir.Refine.{IsRoster, length-shift_up, length-shift_down, leb-false→lt}

module _ {ℓ} {A : Type ℓ} where
  -- A step that succeeds leaves a roster.
  abbrev pub LeavesRoster : Result (SpliceStep × Roster A) → Type ℓ
  LeavesRoster (ok p) = IsRoster p.1
  LeavesRoster (err e) = Unit

  create_slot-LeavesRoster :
      (empty : A) (id : ℕ) (r : Roster A) → IsRoster r → LeavesRoster (create_slot empty id r)
  unfolding create_slot
  create_slot-LeavesRoster empty id r w = elim (Bool-cases (leb max_live_entries r.count)) [
    | inl e ↦ rw e tt
    | inr e ↦ elim (Bool-cases (ltb r.count id)) [
      | inl e' ↦ rw (e, e') tt
      | inr e' ↦
          rw (e, e')
            (record {
              full = omega (
                arith,
                w.full,
                length-shift_up empty id r.count r.slots,
                length-set (shift_up empty id r.count r.slots) id empty,
              );
              within = omega (arith, leb-false→lt max_live_entries r.count e);
            })
    ]
  ]

  delete_slot-LeavesRoster :
      (empty : A) (id : ℕ) (r : Roster A) → IsRoster r → LeavesRoster (delete_slot empty id r)
  unfolding delete_slot
  delete_slot-LeavesRoster empty id r w = elim (Bool-cases (leb r.count id)) [
    | inl e ↦ rw e tt
    | inr e ↦ rw e (record {
      full = omega (
        arith,
        w.full,
        length-shift_down empty (r.count - 1 - id) id r.slots,
        length-set (shift_down empty (r.count - 1 - id) id r.slots) (r.count - 1) empty,
      );
      within = omega (arith, w.within);
    })
  ]

  name_slot-LeavesRoster : (id : ℕ) (r : Roster A) → IsRoster r → LeavesRoster (name_slot id r)
  unfolding name_slot
  name_slot-LeavesRoster id r w = elim (Bool-cases (leb max_live_entries id)) [
    | inl e ↦ rw e tt
    | inr e ↦ elim (Bool-cases (leb r.count id)) [
      | inl e' ↦
          rw (e, e')
            (record { full = w.full; within = omega (arith, leb-false→lt max_live_entries id e) })
      | inr e' ↦ rw (e, e') w
    ]
  ]

  splice_arm-LeavesRoster :
      (empty : A) (id : ℕ) (t : TagType) (r : Roster A)
      → IsRoster r
      → LeavesRoster (splice_arm empty id t r)
  unfolding splice_arm
  splice_arm-LeavesRoster empty id create r w = create_slot-LeavesRoster empty id r w
  splice_arm-LeavesRoster empty id delete r w = delete_slot-LeavesRoster empty id r w
  splice_arm-LeavesRoster empty id regular_file r w = name_slot-LeavesRoster id r w
  splice_arm-LeavesRoster empty id directory r w = name_slot-LeavesRoster id r w
  splice_arm-LeavesRoster empty id superblock r w = name_slot-LeavesRoster id r w
  splice_arm-LeavesRoster empty id from_move r w = w
  splice_arm-LeavesRoster empty id from_user_attrs r w = w
  splice_arm-LeavesRoster empty id dir_struct r w = w
  splice_arm-LeavesRoster empty id inline_struct r w = w
  splice_arm-LeavesRoster empty id ctz_struct r w = w
  splice_arm-LeavesRoster empty id (user_attr c) r w = w
  splice_arm-LeavesRoster empty id (commit_crc c) r w = w
  splice_arm-LeavesRoster empty id forward_crc r w = w
  splice_arm-LeavesRoster empty id soft_tail r w = w
  splice_arm-LeavesRoster empty id hard_tail r w = w
  splice_arm-LeavesRoster empty id move_state r w = w
  splice_arm-LeavesRoster empty id relocate_state r w = w
  splice_arm-LeavesRoster empty id (unknown a c) r w = w

  -- Whatever the tag, a step from a full array with the count inside it fails or leaves such an
  -- array and count.
  pub splice_step-LeavesRoster :
      (empty : A) (tag : Tag.Tag) (r : Roster A)
      → IsRoster r
      → LeavesRoster (splice_step empty tag r)
  unfolding splice_step
  splice_step-LeavesRoster empty tag r w =
      splice_arm-LeavesRoster empty (Tag.id tag) (Tag.tag_type tag) r w
