-- ===== src/Alloc/Scan.antt =====
-- The walks of src/alloc.rs that mark the blocks in use: a breadth first search over the metadata
-- pairs, which marks both blocks of each pair and every block of the chains it names.
use littlefs2_pure.Prelude.{
  ℕ, zero, suc, ◌+◌, ◌-◌, ◌*◌, ◌/◌, ◌%◌, true, false, not, ◌&&◌, ◌||◌, Option, none, some, List, [],
  ◌∷◌, ◌++◌, ltb, leb, ◌==◌, if◌then◌else◌, length, set, take, replicate, Result, ok, err, ◌>>=◌,
  corrupt, out_of_range, geometry_mismatch,
}
use littlefs2_pure.Prelude.Words.{u32}
use littlefs2_pure.Prelude.Bytes.{le32_at}
use littlefs2_pure.Block.{BlockAddress, BlockPair, contains_pair}
use littlefs2_pure.Tag
use littlefs2_pure.Tag.Kind.{TagType, dir_struct, ctz_struct}
use littlefs2_pure.Meta.Reader.{MetadataReader}
use littlefs2_pure.Meta.Iter.{TagEntry, iter_tags}
use littlefs2_pure.Meta.Pair.{parse}
use littlefs2_pure.Storage.{Storage, read_or_io}
use littlefs2_pure.Ctz.{require_in_bounds, block_count}
use littlefs2_pure.Chase.{pair_in_bounds}
use littlefs2_pure.Dir.{
  Roster, SpliceStep, consumed, name, other, splice_step, max_live_entries, replay,
}
use littlefs2_pure.Alloc.{Bitmap, mark, is_set}

abbrev pub max_queued_pairs : ℕ
max_queued_pairs = 32

pub record LiveStruct : Type 0 where
  pub kind : ℕ
  pub w0 : ℕ
  pub w1 : ℕ

-- `LiveStruct::NONE`
abbrev pub no_struct : LiveStruct
no_struct = record { kind = 0; w0 = 0; w1 = 0 }

-- The kind under which a struct tag is recorded.
unfoldable pub struct_kind : TagType → Option ℕ
struct_kind ctz_struct = some 1
struct_kind dir_struct = some 2
struct_kind t = none

unfoldable pub record_struct : TagEntry → List LiveStruct → List LiveStruct
unfolding struct_kind
record_struct e slots = elim (struct_kind (Tag.tag_type e.tag)) [
  | none ↦ slots
  | some k ↦
      (if ltb (Tag.id e.tag) max_live_entries && length e.body == 8
        then set slots (Tag.id e.tag)
            (record { kind = k; w0 = le32_at e.body 0; w1 = le32_at e.body 4 })
        else slots)
]

unfoldable pub struct_after : TagEntry → SpliceStep → Roster LiveStruct → Roster LiveStruct
unfolding record_struct
struct_after e consumed r = r
struct_after e (name i) r = r
struct_after e other r = record { slots = record_struct e r.slots; count = r.count }

unfoldable pub struct_step : TagEntry → Roster LiveStruct → Result (Roster LiveStruct)
unfolding splice_step struct_after
struct_step e r = splice_step no_struct e.tag r >>= λ p. ok (struct_after e p.0 p.1)

-- The array is the caller's, with what the pair before left in it.
unfoldable pub gather_live_structs : MetadataReader → List LiveStruct → Result (Roster LiveStruct)
unfolding struct_step replay
gather_live_structs reader out =
    replay struct_step (iter_tags reader) (record { slots = out; count = 0 })

-- The bytes of a header read, a multiple of the read unit.
unfoldable pub header_len : Storage → ℕ → ℕ
header_len s count = (4 * count + (s.read_size - 1)) / s.read_size * s.read_size

-- A block of the chain: its bounds check and its mark.
unfoldable pub mark_in_bounds : Storage → BlockAddress → Bitmap → Result Bitmap
unfolding require_in_bounds
mark_in_bounds s block used = require_in_bounds s block >>= λ b. mark b used

-- The rounds of `walk_ctz_chain` from block `index` down.
unfoldable pub mark_chain : Storage → ℕ → BlockAddress → Bitmap → Result Bitmap
unfolding mark_in_bounds header_len read_or_io
mark_chain s zero head used = mark_in_bounds s head used
mark_chain s (suc zero) head used = do
  used' ← mark_in_bounds s head used
  pointers ← read_or_io s head 0 (header_len s 1)
  mark_chain s zero (le32_at pointers 0) used'
mark_chain s (suc (suc i)) head used = do
  used' ← mark_in_bounds s head used
  pointers ← read_or_io s head 0 (header_len s (2 - suc (suc i) % 2))
  elim (2 - suc (suc i) % 2 == 2) [
    | true ↦ mark_in_bounds s (le32_at pointers 0) used' >>= λ used''.
        mark_chain s i (le32_at pointers 4) used''
    | false ↦ mark_chain s (suc i) (le32_at pointers 0) used'
  ]

unfoldable pub walk_ctz_chain : Storage → ℕ → ℕ → Bitmap → Result Bitmap
unfolding mark_chain
walk_ctz_chain s head_block size used =
    let total = block_count size (u32 s.block_size) in
    if size == 0
    then ok used
    else if ltb s.block_count total
    then err corrupt
    else mark_chain s (total - 1) head_block used

-- A pair that another one names: rejected out of bounds, and collected unless it was visited or
-- collected before.
unfoldable pub collect_child :
    Storage → Bitmap → BlockPair → List BlockPair → Result (List BlockPair)
unfolding pair_in_bounds contains_pair
collect_child s used child children =
    if not (pair_in_bounds s child)
    then err corrupt
    else if (not (is_set used child.a) || not (is_set used child.b))
        && not (contains_pair children child)
    then (if leb max_queued_pairs (length children)
        then err out_of_range
        else ok (children ++ (child ∷ [])))
    else ok children

-- One live struct of a pair, with the marks and the children so far.
unfoldable pub live_struct_step :
    Storage → LiveStruct → Bitmap × List BlockPair → Result (Bitmap × List BlockPair)
unfolding walk_ctz_chain collect_child
live_struct_step s ls st =
    if ls.kind == 1
    then (walk_ctz_chain s ls.w0 ls.w1 st.0 >>= λ used. ok (used, st.1))
    else if ls.kind == 2
    then (collect_child s st.0 (record { a = ls.w0; b = ls.w1 }) st.1 >>= λ children.
        ok (st.0, children))
    else ok st

unfoldable pub live_structs_walk :
    Storage → List LiveStruct → Bitmap × List BlockPair → Result (Bitmap × List BlockPair)
unfolding live_struct_step
live_structs_walk s [] st = ok st
live_structs_walk s (ls ∷ rest) st =
    live_struct_step s ls st >>= λ st'. live_structs_walk s rest st'

-- The pair's tail, after its entries.
unfoldable pub collect_tail :
    Storage → Option BlockPair → Bitmap × List BlockPair → Result (Bitmap × List BlockPair)
unfolding collect_child
collect_tail s none st = ok st
collect_tail s (some t) st = collect_child s st.0 t st.1 >>= λ children. ok (st.0, children)

-- What `scan_used_blocks` does with one pair of the queue: the marks and the scratch array that
-- it leaves, and the pairs to be visited.
unfoldable pub visit_pair :
    Storage
    → BlockPair
    → Bitmap × List LiveStruct
    → Result ((Bitmap × List LiveStruct) × List BlockPair)
unfolding read_or_io parse gather_live_structs live_structs_walk collect_tail
visit_pair s pair st = do
  used_a ← mark pair.a st.0
  used_b ← mark pair.b used_a
  block_a ← read_or_io s pair.a 0 s.block_size
  block_b ← read_or_io s pair.b 0 s.block_size
  parsed ← parse pair.a block_a pair.b block_b
  live ← gather_live_structs parsed.reader st.1
  walked ← live_structs_walk s (take live.count live.slots) (used_b, [])
  ended ← collect_tail s parsed.reader.tail walked
  ok ((ended.0, live.slots), ended.1)

-- The queue: the pairs that wait, and how many were ever put into it.
pub record Queue : Type 0 where
  pub pending : List BlockPair
  pub tail : ℕ

unfoldable pub enqueue : List BlockPair → Queue → Result Queue
unfolding contains_pair
enqueue [] q = ok q
enqueue (child ∷ rest) q = elim (contains_pair q.pending child) [
  | true ↦ enqueue rest q
  | false ↦ elim (leb max_queued_pairs q.tail) [
    | true ↦ err out_of_range
    | false ↦ enqueue rest (record { pending = q.pending ++ (child ∷ []); tail = q.tail + 1 })
  ]
]

-- The loop over the queue, with fuel: `none` is the end of the fuel.
module _ {ℓ} {A : Type ℓ} (visit : BlockPair → A → Result (A × List BlockPair)) where
  unfoldable pub search_queue : ℕ → List BlockPair → ℕ → A → Option (Result A)
  unfolding enqueue
  search_queue fuel [] tail st = some (ok st)
  search_queue zero (pair ∷ rest) tail st = none
  search_queue (suc fuel) (pair ∷ rest) tail st = elim (visit pair st) [
    | err e ↦ some (err e)
    | ok (st', children) ↦ elim (enqueue children (record { pending = rest; tail = tail })) [
      | err e ↦ some (err e)
      | ok q ↦ search_queue fuel q.pending q.tail st'
    ]
  ]

-- The last arm stands for no run of the code: Alloc.Bounded shows that the fuel suffices.
unfoldable pub finished {ℓ} : {A : Type ℓ} → Option (Result A) → Result A
finished (some r) = r
finished none = err corrupt

unfoldable pub scan_used_blocks : Storage → BlockPair → ℕ → ℕ → Bitmap → Result Bitmap
unfolding visit_pair search_queue finished
scan_used_blocks s root len_a len_b used =
    if ltb len_a s.block_size || ltb len_b s.block_size
    then err geometry_mismatch
    else finished (
        search_queue (visit_pair s) max_queued_pairs (root ∷ []) 1
          (used, replicate max_live_entries no_struct))
      >>= λ st. ok st.0
