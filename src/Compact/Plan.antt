-- ===== src/Compact/Plan.antt =====
-- src/fs.rs: the slots of the live entries, `gather_live_slots`, and what an operation makes of one
-- of them in a rebuild, `slot_plan`. A tag's body is located by its offset in the block.
use littlefs2_pure.Prelude.{
  ℕ, zero, suc, ◌+◌, Bool, true, false, Option, none, some, List, [], ◌∷◌, ltb, ◌==◌, if◌then◌else◌,
  length, set, get_or, replicate, Result, ok, err, ◌>>=◌, out_of_range,
}
use littlefs2_pure.Tag
use littlefs2_pure.Tag.Kind.{TagType}
use littlefs2_pure.Meta.Reader.{MetadataReader}
use littlefs2_pure.Meta.Iter.{TagEntry, TagIter, next}
use littlefs2_pure.Dir.{SpliceStep, consumed, name, other, Roster, splice_step, max_live_entries}
use littlefs2_pure.Compact.{WriteOp}

pub record SlotOffsets : Type 0 where
  pub name_off : ℕ
  pub name_len : ℕ
  pub name_kind : ℕ
  pub struct_off : ℕ
  pub struct_len : ℕ
  pub struct_kind : ℕ

-- `SlotOffsets::EMPTY`
abbrev pub empty_offsets : SlotOffsets
empty_offsets = record {
  name_off = 0;
  name_len = 0;
  name_kind = 0xff;
  struct_off = 0;
  struct_len = 0;
  struct_kind = 0xff;
}

-- `u16::try_from(n).map_err(|_| Error::OutOfRange)`
unfoldable pub u16_checked : ℕ → Result ℕ
u16_checked n = if ltb n 0x1_0000 then ok n else err out_of_range

-- The entries of `TagIter` with the offsets of their bodies.
unfoldable pub collect_located : ℕ → TagIter → List (ℕ × TagEntry)
collect_located zero it = []
collect_located (suc fuel) it = elim (next it) [
  | none ↦ []
  | some (e, it') ↦ (it'.offset + 4, e) ∷ collect_located fuel it'
]

unfoldable pub located_tags : MetadataReader → List (ℕ × TagEntry)
unfolding collect_located
located_tags r =
    collect_located (suc (length r.block))
      (record { block = r.block; offset = 0; end = r.committed_end; ptag = 0xffff_ffff })

-- The encoding of the name's kind; only name tags come here.
unfoldable pub name_kind_of : TagType → ℕ
name_kind_of TagType.regular_file = 0
name_kind_of TagType.directory = 1
name_kind_of t = 2

unfoldable pub struct_kind_of : TagType → Option ℕ
struct_kind_of TagType.inline_struct = some 0
struct_kind_of TagType.ctz_struct = some 1
struct_kind_of TagType.dir_struct = some 2
struct_kind_of t = none

unfoldable pub put_name_slot : ℕ → TagEntry → ℕ → Roster SlotOffsets → Result (Roster SlotOffsets)
unfolding u16_checked name_kind_of
put_name_slot body_off e id r = do
  off ← u16_checked body_off
  len ← u16_checked (length e.body)
  let slot = record (get_or r.slots id empty_offsets) {
    name_off = off;
    name_len = len;
    name_kind = name_kind_of (Tag.tag_type e.tag);
  }
  ok (record r { slots = set r.slots id slot })

unfoldable pub put_struct_slot : ℕ → TagEntry → ℕ → Roster SlotOffsets → Result (Roster SlotOffsets)
unfolding u16_checked
put_struct_slot body_off e kind r = do
  off ← u16_checked body_off
  len ← u16_checked (length e.body)
  let slot = record (get_or r.slots (Tag.id e.tag) empty_offsets) {
    struct_off = off;
    struct_len = len;
    struct_kind = kind;
  }
  ok (record r { slots = set r.slots (Tag.id e.tag) slot })

unfoldable pub other_slot : ℕ → TagEntry → Roster SlotOffsets → Result (Roster SlotOffsets)
unfolding struct_kind_of put_struct_slot
other_slot body_off e r = elim (struct_kind_of (Tag.tag_type e.tag)) [
  | none ↦ ok r
  | some kind ↦
      if ltb (Tag.id e.tag) max_live_entries then put_struct_slot body_off e kind r else ok r
]

unfoldable pub slot_after :
    ℕ → TagEntry → SpliceStep → Roster SlotOffsets → Result (Roster SlotOffsets)
unfolding put_name_slot other_slot
slot_after body_off e consumed r = ok r
slot_after body_off e (name id) r = put_name_slot body_off e id r
slot_after body_off e other r = other_slot body_off e r

unfoldable pub gather_slots : List (ℕ × TagEntry) → Roster SlotOffsets → Result (Roster SlotOffsets)
unfolding slot_after splice_step
gather_slots [] r = ok r
gather_slots ((body_off, e) ∷ rest) r = do
  p ← splice_step empty_offsets e.tag r
  r' ← slot_after body_off e p.0 p.1
  gather_slots rest r'

-- `gather_live_slots` on the fresh slots that every caller passes.
unfoldable pub gather_live_slots : MetadataReader → Result (Roster SlotOffsets)
unfolding located_tags gather_slots
gather_live_slots reader =
    gather_slots (located_tags reader)
      (record { slots = replicate max_live_entries empty_offsets; count = 0 })

pub data OverrideBody : Type 0 where
  slice_body : List ℕ → OverrideBody
  words : ℕ → ℕ → OverrideBody

pub record SlotPlan : Type 0 where
  pub drop_entry : Bool
  pub extra_name : Option (TagType × List ℕ)
  pub struct_override : Option (TagType × OverrideBody)
  pub attr_suppress : Option ℕ
  pub attr_append : Option (ℕ × List ℕ)

-- `SlotPlan::NONE`
abbrev pub no_plan : SlotPlan
no_plan = record {
  drop_entry = false;
  extra_name = none;
  struct_override = none;
  attr_suppress = none;
  attr_append = none;
}

unfoldable pub slot_plan : WriteOp → ℕ → SlotPlan
slot_plan (WriteOp.update id content) i =
    if id == i
    then record no_plan { struct_override = some (TagType.inline_struct, slice_body content) }
    else no_plan
slot_plan (WriteOp.update_ctz id head_block total_size) i =
    if id == i
    then record no_plan { struct_override = some (TagType.ctz_struct, words head_block total_size) }
    else no_plan
slot_plan (WriteOp.update_dir_struct id new_pair) i =
    if id == i
    then record no_plan { struct_override = some (TagType.dir_struct, words new_pair.a new_pair.b) }
    else no_plan
slot_plan (WriteOp.remove id) i = if id == i then record no_plan { drop_entry = true } else no_plan
slot_plan (WriteOp.rename_in_place id name_type new_name) i =
    if id == i then record no_plan { extra_name = some (name_type, new_name) } else no_plan
slot_plan (WriteOp.set_attr id attr_id value) i =
    if id == i
    then record no_plan { attr_suppress = some attr_id; attr_append = some (attr_id, value) }
    else no_plan
slot_plan (WriteOp.remove_attr id attr_id) i =
    if id == i then record no_plan { attr_suppress = some attr_id } else no_plan
slot_plan op i = no_plan
