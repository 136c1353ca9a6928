-- ===== src/Chase/Forest.antt =====
-- src/fs.rs: the walks over the pairs that a root reaches. `accumulate_gstate`,
-- `collect_live_tree_pairs` and `find_parent_in_tree` share a queue that keeps the pairs it has
-- given out; `find_thread_predecessor` follows the tails, and `relocated_twin_in` reads a list.
use littlefs2_pure.Prelude.{
  ℕ, zero, suc, ◌+◌, Bool, true, false, not, ◌&&◌, ◌||◌, Option, none, some, List, [], ◌∷◌, ◌++◌,
  leb, ◌==◌, if◌then◌else◌, length, take, get_elem?, replicate, Result, ok, err, ◌>>=◌, corrupt,
  out_of_range, geometry_mismatch,
}
use littlefs2_pure.Prelude.Bytes.{le32_at}
use littlefs2_pure.Block.{BlockAddress, BlockPair, contains_pair}
use littlefs2_pure.Storage.{Storage}
use littlefs2_pure.Tag
use littlefs2_pure.Tag.Kind.{TagType}
use littlefs2_pure.Meta.Iter.{TagEntry, iter_tags_rev}
use littlefs2_pure.Meta.Pair.{MetadataPair, parse}
use littlefs2_pure.Gstate.{
  Gstate, gstate_zero, xor_body, xor_relocate_body, move_state_body_size, relocate_state_body_size,
}
use littlefs2_pure.Alloc.Scan.{max_queued_pairs}
use littlefs2_pure.Compact.Plan.{SlotOffsets, gather_live_slots}
use littlefs2_pure.Chase.{pair_in_bounds, read_pair_blocks, eq_pair}

-- `read_pair_blocks` and `MetadataPair::parse`
unfoldable pub fetch_pair : Storage → BlockPair → Result MetadataPair
unfolding read_pair_blocks parse
fetch_pair s pair = read_pair_blocks s pair >>= λ blocks. parse pair.a blocks.0 pair.b blocks.1

unfoldable pub is_move_state : TagType → Bool
is_move_state TagType.move_state = true
is_move_state t = false

unfoldable pub is_relocate_state : TagType → Bool
is_relocate_state TagType.relocate_state = true
is_relocate_state t = false

-- The body of the first tag of the type and of the size, or zeros.
unfoldable pub first_state : (TagType → Bool) → ℕ → List TagEntry → List ℕ
first_state wanted size [] = replicate size 0
first_state wanted size (e ∷ rest) =
    let later = first_state wanted size rest in
    if wanted (Tag.tag_type e.tag) && length e.body == size then e.body else later

unfoldable pub scan_pair_move_state : MetadataPair → List ℕ
unfolding first_state is_move_state
scan_pair_move_state pair =
    first_state is_move_state move_state_body_size (iter_tags_rev pair.reader)

unfoldable pub scan_pair_relocate_state : MetadataPair → List ℕ
unfolding first_state is_relocate_state
scan_pair_relocate_state pair =
    first_state is_relocate_state relocate_state_body_size (iter_tags_rev pair.reader)

-- The pair that a slot names, where it is a DirStruct of eight bytes.
unfoldable pub child_of : List ℕ → SlotOffsets → Option BlockPair
child_of source slot =
    if slot.struct_kind == 2 && slot.struct_len == 8
    then some
        (record { a = le32_at source slot.struct_off; b = le32_at source (slot.struct_off + 4) })
    else none

-- A pair for the queue, whose places are those given out and those that wait.
unfoldable pub enqueue_pair : Storage → BlockPair → List BlockPair → Result (List BlockPair)
unfolding pair_in_bounds contains_pair
enqueue_pair s pair queue =
    if not (pair_in_bounds s pair)
    then err corrupt
    else if contains_pair queue pair
    then ok queue
    else if leb max_queued_pairs (length queue)
    then err out_of_range
    else ok (queue ++ (pair ∷ []))

unfoldable pub enqueue_tail : Storage → Option BlockPair → List BlockPair → Result (List BlockPair)
unfolding enqueue_pair
enqueue_tail s none queue = ok queue
enqueue_tail s (some pair) queue = enqueue_pair s pair queue

unfoldable pub enqueue_children :
    Storage → List ℕ → List SlotOffsets → List BlockPair → Result (List BlockPair)
unfolding child_of enqueue_tail
enqueue_children s source [] queue = ok queue
enqueue_children s source (slot ∷ rest) queue =
    enqueue_tail s (child_of source slot) queue >>= enqueue_children s source rest

-- What a visit leaves: an answer, or a state and the queue.
pub data Visit (A : Type 0) : Type 0 where
  answer : A → Visit A
  go_on : A → List BlockPair → Visit A

-- `while head < tail`; `none` means that the fuel ran out.
module _ {A : Type 0} (visit : BlockPair → List BlockPair → A → Result (Visit A)) where
  unfoldable pub walk_queue : ℕ → List BlockPair → ℕ → A → Option (Result A)
  walk_queue zero queue head st = none
  walk_queue (suc fuel) queue head st = elim (get_elem? queue head) [
    | none ↦ some (ok st)
    | some pair ↦ elim (visit pair queue st) [
      | err e ↦ some (err e)
      | ok v ↦ elim v [
        | answer a ↦ some (ok a)
        | go_on a queue' ↦ walk_queue fuel queue' (suc head) a
      ]
    ]
  ]

unfoldable pub visit_gstate : Storage → BlockPair → List BlockPair → Gstate → Result (Visit Gstate)
unfolding fetch_pair scan_pair_move_state scan_pair_relocate_state gather_live_slots enqueue_tail
    enqueue_children
visit_gstate s pair_addr queue g = do
  pair ← fetch_pair s pair_addr
  let g' =
      xor_relocate_body (xor_body g (scan_pair_move_state pair)) (scan_pair_relocate_state pair)
  roster ← gather_live_slots pair.reader
  q1 ← enqueue_tail s pair.reader.tail queue
  q2 ← enqueue_children s pair.reader.block (take roster.count roster.slots) q1
  ok (go_on g' q2)

unfoldable pub accumulate_gstate : Storage → BlockPair → Option (Result Gstate)
unfolding visit_gstate walk_queue
accumulate_gstate s root =
    walk_queue (visit_gstate s) (suc max_queued_pairs) (root ∷ []) 0 gstate_zero

-- `if pair.reader.is_hard_tail() { if let Some(cont) = pair.reader.tail() { .. } }`
unfoldable pub hard_tail_of : MetadataPair → Option BlockPair
hard_tail_of pair = if pair.reader.is_hard_tail then pair.reader.tail else none

unfoldable pub visit_tree :
    Storage → BlockPair → List BlockPair → List BlockPair → Result (Visit (List BlockPair))
unfolding fetch_pair hard_tail_of gather_live_slots enqueue_tail enqueue_children
visit_tree s pair_addr queue out = do
  pair ← fetch_pair s pair_addr
  q1 ← enqueue_tail s (hard_tail_of pair) queue
  roster ← gather_live_slots pair.reader
  q2 ← enqueue_children s pair.reader.block (take roster.count roster.slots) q1
  ok (go_on q2 q2)

-- The pairs of the tree, which are the places of the queue.
unfoldable pub collect_live_tree_pairs : Storage → BlockPair → Option (Result (List BlockPair))
unfolding visit_tree walk_queue
collect_live_tree_pairs s root =
    walk_queue (visit_tree s) (suc max_queued_pairs) (root ∷ []) 0 (root ∷ [])

-- The first of two blocks that `t` has in common with `stale`.
unfoldable pub shared_block : BlockPair → BlockPair → Option BlockAddress
shared_block t stale =
    if t.a == stale.a || t.a == stale.b
    then some t.a
    else if t.b == stale.a || t.b == stale.b
    then some t.b
    else none

unfoldable pub relocated_twin_in : Storage → List BlockPair → BlockPair → Result (Option BlockPair)
unfolding eq_pair shared_block fetch_pair
relocated_twin_in s [] stale = ok none
relocated_twin_in s (t ∷ rest) stale =
    let later = relocated_twin_in s rest stale in
    if eq_pair t stale then later else elim (shared_block t stale) [
      | none ↦ later
      | some shared ↦
          fetch_pair s t >>= λ p. if not (p.active_block == shared) then ok (some t) else later
    ]

-- `find_thread_predecessor`, for the steps that are left.
unfoldable pub follow_thread :
    ℕ → Storage → BlockPair → BlockPair → Result (Option (BlockPair × Bool))
unfolding fetch_pair eq_pair
follow_thread zero s target cur = err out_of_range
follow_thread (suc steps) s target cur = fetch_pair s cur >>= λ p. elim p.reader.tail [
  | none ↦ ok none
  | some t ↦ elim (eq_pair t target) [
    | true ↦ ok (some (cur, p.reader.is_hard_tail))
    | false ↦ follow_thread steps s target t
  ]
]

unfoldable pub find_thread_predecessor :
    Storage → BlockPair → BlockPair → Result (Option (BlockPair × Bool))
unfolding follow_thread
find_thread_predecessor s root target = follow_thread max_queued_pairs s target root

-- The slots of a pair from index `i` on, searched for the target and queued.
unfoldable pub scan_children :
    Storage
    → BlockPair
    → BlockPair
    → List ℕ
    → ℕ
    → List SlotOffsets
    → List BlockPair
    → Result (Visit (Option (BlockPair × ℕ)))
unfolding child_of eq_pair enqueue_pair
scan_children s pair_addr target source i [] queue = ok (go_on none queue)
scan_children s pair_addr target source i (slot ∷ rest) queue = elim (child_of source slot) [
  | none ↦ scan_children s pair_addr target source (suc i) rest queue
  | some child ↦ elim (eq_pair child target) [
    | true ↦ ok (answer (some (pair_addr, i)))
    | false ↦ enqueue_pair s child queue >>= scan_children s pair_addr target source (suc i) rest
  ]
]

unfoldable pub visit_parent :
    Storage
    → BlockPair
    → BlockPair
    → List BlockPair
    → Option (BlockPair × ℕ)
    → Result (Visit (Option (BlockPair × ℕ)))
unfolding fetch_pair gather_live_slots enqueue_tail scan_children
visit_parent s target pair_addr queue st = do
  pair ← fetch_pair s pair_addr
  roster ← gather_live_slots pair.reader
  q1 ← enqueue_tail s pair.reader.tail queue
  scan_children s pair_addr target pair.reader.block 0 (take roster.count roster.slots) q1

-- `find_parent_in_tree`, with the lengths of its two buffers.
unfoldable pub find_parent_in_tree :
    Storage → BlockPair → BlockPair → ℕ → ℕ → Option (Result (Option (BlockPair × ℕ)))
unfolding visit_parent walk_queue
find_parent_in_tree s root target len_a len_b =
    if not (len_a == s.block_size) || not (len_b == s.block_size)
    then some (err geometry_mismatch)
    else walk_queue (visit_parent s target) (suc max_queued_pairs) (root ∷ []) 0 none
