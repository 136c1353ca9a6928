-- ===== src/Dir.antt =====
-- src/dir.rs: the entries of a metadata pair. `splice_step` replays the Create, Delete and name
-- tags on an array of slots; `live_entries` and `lookup_checked` feed it. A callback that can fail
-- is a function on a state that returns a result.
mod Edits
mod Splice
pub mod Invariant
pub mod Natural
pub mod Agree
pub mod Refine
pub mod Attrs
use littlefs2_pure.Prelude.{
  ℕ, zero, suc, ◌+◌, ◌-◌, Bool, true, false, Option, none, some, List, [], ◌∷◌, ltb, leb, ◌==◌,
  if◌then◌else◌, get_or, set, take, replicate, Result, ok, err, ◌>>=◌, corrupt, out_of_range,
}
use littlefs2_pure.Prelude.Words.{u16}
use littlefs2_pure.Tag
use littlefs2_pure.Tag.Kind.{
  TagType, regular_file, directory, superblock, dir_struct, inline_struct, ctz_struct, create,
  delete,
}
use littlefs2_pure.Meta.Iter.{TagEntry, TagIter, next, iter_tags}
use littlefs2_pure.Meta.Pair.{MetadataPair}

pub data SpliceStep : Type 0 where
  consumed : SpliceStep
  name : ℕ → SpliceStep
  other : SpliceStep

abbrev pub max_live_entries : ℕ
max_live_entries = 256

-- The slot array and the count of live entries.
pub record Roster {ℓ} (A : Type ℓ) : Type ℓ where
  pub slots : List A
  pub count : ℕ

module _ {ℓ} {A : Type ℓ} where
  -- `while i > id { slots[i] = slots[i - 1]; i -= 1 }`
  unfoldable pub shift_up : A → ℕ → ℕ → List A → List A
  shift_up empty id zero slots = slots
  shift_up empty id (suc i) slots =
      if ltb id (suc i)
      then shift_up empty id i (set slots (suc i) (get_or slots i empty))
      else slots

  -- `while i + 1 < count { slots[i] = slots[i + 1]; i += 1 }`, for the `left` rounds it has.
  unfoldable pub shift_down : A → ℕ → ℕ → List A → List A
  shift_down empty zero i slots = slots
  shift_down empty (suc left) i slots =
      shift_down empty left (suc i) (set slots i (get_or slots (suc i) empty))

  unfoldable pub create_slot : A → ℕ → Roster A → Result (SpliceStep × Roster A)
  unfolding shift_up
  create_slot empty id r =
      if leb max_live_entries r.count
      then err out_of_range
      else if ltb r.count id
      then err corrupt
      else ok (
        consumed,
        record { slots = set (shift_up empty id r.count r.slots) id empty; count = r.count + 1 },
      )

  unfoldable pub delete_slot : A → ℕ → Roster A → Result (SpliceStep × Roster A)
  unfolding shift_down
  delete_slot empty id r =
      if leb r.count id
      then err corrupt
      else ok (
        consumed,
        record {
          slots = set (shift_down empty (r.count - 1 - id) id r.slots) (r.count - 1) empty;
          count = r.count - 1;
        },
      )

  unfoldable pub name_slot : ℕ → Roster A → Result (SpliceStep × Roster A)
  name_slot id r =
      if leb max_live_entries id
      then err out_of_range
      else if leb r.count id
      then ok (name id, record r { count = id + 1 })
      else ok (name id, r)

  -- The arms of the match on the tag's type.
  unfoldable pub splice_arm : A → ℕ → TagType → Roster A → Result (SpliceStep × Roster A)
  unfolding create_slot delete_slot name_slot
  splice_arm empty id create r = create_slot empty id r
  splice_arm empty id delete r = delete_slot empty id r
  splice_arm empty id regular_file r = name_slot id r
  splice_arm empty id directory r = name_slot id r
  splice_arm empty id superblock r = name_slot id r
  splice_arm empty id t r = ok (other, r)

  unfoldable pub splice_step : A → Tag.Tag → Roster A → Result (SpliceStep × Roster A)
  unfolding splice_arm
  splice_step empty tag r = splice_arm empty (Tag.id tag) (Tag.tag_type tag) r

-- `EntryKind`
pub data EntryKind : Type 0 where
  regular_entry directory_entry : EntryKind

pub record DirEntry : Type 0 where
  pub id : ℕ
  pub entry_name : List ℕ
  pub kind : EntryKind

-- The kind that a name tag gives its slot, and none for the superblock's.
unfoldable pub kind_of : TagType → Option EntryKind
kind_of regular_file = some regular_entry
kind_of directory = some directory_entry
kind_of t = none

-- `Entries::next` over the tags that are left.
unfoldable pub entries : List TagEntry → List DirEntry
unfolding kind_of
entries [] = []
entries (e ∷ rest) =
    let later = entries rest in
    elim (kind_of (Tag.tag_type e.tag)) [
      | none ↦ later
      | some k ↦ record { id = Tag.id e.tag; entry_name = e.body; kind = k } ∷ later
    ]

-- What a round of `live_entries` does after the splice: a name fills its slot, and the
-- superblock's empties it.
unfoldable pub live_after :
    TagEntry → SpliceStep → Roster (Option DirEntry) → Roster (Option DirEntry)
unfolding kind_of
live_after e consumed r = r
live_after e other r = r
live_after e (name i) r = record {
  slots = set r.slots i (elim (kind_of (Tag.tag_type e.tag)) [
    | none ↦ none
    | some k ↦ some (record { id = u16 i; entry_name = e.body; kind = k })
  ]);
  count = r.count;
}

unfoldable pub live_step : TagEntry → Roster (Option DirEntry) → Result (Roster (Option DirEntry))
unfolding splice_step live_after
live_step e r = splice_step none e.tag r >>= λ p. ok (live_after e p.0 p.1)

-- A loop that replays the tags in order, and stops at the first error.
unfoldable pub replay {ℓ} : {A : Type ℓ} → (TagEntry → A → Result A) → List TagEntry → A → Result A
replay step [] r = ok r
replay step (e ∷ rest) r = step e r >>= λ r'. replay step rest r'

unfoldable pub live_slots : List TagEntry → Result (Roster (Option DirEntry))
unfolding live_step replay
live_slots tags =
    replay live_step tags (record { slots = replicate max_live_entries none; count = 0 })

-- The calls of the callback on the slots from `i` on.
unfoldable pub visit_slots {ℓ} :
    {S : Type ℓ} → (DirEntry → S → Result S) → ℕ → List (Option DirEntry) → S → Result S
visit_slots f i [] st = ok st
visit_slots f i (none ∷ slots) st = visit_slots f (suc i) slots st
visit_slots f i (some e ∷ slots) st =
    f (record e { id = u16 i }) st >>= λ st'. visit_slots f (suc i) slots st'

unfoldable pub live_entries {ℓ} :
    {S : Type ℓ} → MetadataPair → (DirEntry → S → Result S) → S → Result (ℕ × S)
unfolding live_slots visit_slots
live_entries pair f st = do
  r ← live_slots (iter_tags pair.reader)
  st' ← visit_slots f 0 (take r.count r.slots) st
  ok (r.count, st')

pub record LookupSlot : Type 0 where
  pub slot_name : Option (List ℕ)
  pub slot_kind : Option EntryKind
  pub struct_data : Option (TagType × List ℕ)

-- `LookupSlot::EMPTY`
abbrev pub empty_slot : LookupSlot
empty_slot = record { slot_name = none; slot_kind = none; struct_data = none }

unfoldable pub is_struct : TagType → Bool
is_struct inline_struct = true
is_struct ctz_struct = true
is_struct dir_struct = true
is_struct t = false

-- A struct tag is parked in its slot whether or not a name has covered it.
unfoldable pub park : TagEntry → List LookupSlot → List LookupSlot
unfolding is_struct
park e slots =
    let id = Tag.id e.tag in
    let t = Tag.tag_type e.tag in
    if is_struct t
    then (if ltb id max_live_entries
        then set slots id (record (get_or slots id empty_slot) { struct_data = some (t, e.body) })
        else slots)
    else slots

-- What a round of `lookup_checked` does after the splice.
unfoldable pub lookup_after : TagEntry → SpliceStep → Roster LookupSlot → Roster LookupSlot
unfolding kind_of park
lookup_after e consumed r = r
lookup_after e (name i) r = record {
  slots = set r.slots i (record (get_or r.slots i empty_slot) {
    slot_name = some e.body;
    slot_kind = kind_of (Tag.tag_type e.tag);
  });
  count = r.count;
}
lookup_after e other r = record { slots = park e r.slots; count = r.count }

unfoldable pub lookup_step : TagEntry → Roster LookupSlot → Result (Roster LookupSlot)
unfolding splice_step lookup_after
lookup_step e r = splice_step empty_slot e.tag r >>= λ p. ok (lookup_after e p.0 p.1)

unfoldable pub lookup_slots : List TagEntry → Result (Roster LookupSlot)
unfolding lookup_step replay
lookup_slots tags =
    replay lookup_step tags (record { slots = replicate max_live_entries empty_slot; count = 0 })

pub record Resolved : Type 0 where
  pub entry : DirEntry
  pub struct_type : TagType
  pub struct_body : List ℕ

-- `slot_name == name` on byte slices
unfoldable pub same_name : List ℕ → List ℕ → Bool
same_name [] [] = true
same_name (x ∷ xs) (y ∷ ys) = let rest = same_name xs ys in if x == y then rest else false
same_name xs ys = false

-- What slot `i` resolves the name to, where it is complete and has that name.
unfoldable pub match_slot : List ℕ → ℕ → LookupSlot → Option Resolved
unfolding same_name
match_slot wanted i slot = elim slot.slot_name [
  | none ↦ none
  | some n ↦ elim slot.slot_kind [
    | none ↦ none
    | some k ↦ elim slot.struct_data [
      | none ↦ none
      | some (t, body) ↦
          (if same_name n wanted
            then some (record {
              entry = record { id = u16 i; entry_name = n; kind = k };
              struct_type = t;
              struct_body = body;
            })
            else none)
    ]
  ]
]

unfoldable pub find_slot : List ℕ → ℕ → List LookupSlot → Option Resolved
unfolding match_slot
find_slot wanted i [] = none
find_slot wanted i (slot ∷ slots) =
    let later = find_slot wanted (suc i) slots in
    elim (match_slot wanted i slot) [ none ↦ later | some r ↦ some r ]

unfoldable pub lookup_checked : MetadataPair → List ℕ → Result (Option Resolved)
unfolding lookup_slots find_slot
lookup_checked pair wanted = do
  r ← lookup_slots (iter_tags pair.reader)
  ok (find_slot wanted 0 (take r.count r.slots))

-- `lookup`: a splice that cannot be replayed is reported as an absent name.
unfoldable pub lookup : MetadataPair → List ℕ → Option Resolved
unfolding lookup_checked
lookup pair wanted = elim (lookup_checked pair wanted) [ ok r ↦ r | err e ↦ none ]
