-- ===== src/Compact/Rebuild.antt =====
-- src/fs.rs: the rebuild of a pair, `emit_compact_range`, and the commit made of it. The sink of the
-- tags is a parameter: a commit, or the counter that estimates the size.
use littlefs2_pure.Prelude.{
  ℕ, suc, ◌+◌, Bool, true, false, not, ◌&&◌, ◌||◌, Option, none, some, List, [], ◌∷◌, ltb, leb,
  ◌==◌, if◌then◌else◌, length, take, drop, replicate, min, Result, ok, err, ◌>>=◌, ◌>>◌, guard,
  corrupt,
}
use littlefs2_pure.Prelude.Bytes.{slice}
use littlefs2_pure.Prelude.Words.{u16}
use littlefs2_pure.Block.{BlockPair, is_none}
use littlefs2_pure.Tag
use littlefs2_pure.Tag.Kind.{TagType}
use littlefs2_pure.Meta.Reader
use littlefs2_pure.Meta.Reader.{MetadataReader}
use littlefs2_pure.Meta.Commit
use littlefs2_pure.Meta.Commit.{Commit, finish_padded}
use littlefs2_pure.Dir.{same_name}
use littlefs2_pure.Dir.Attrs.{for_each_live_attr}
use littlefs2_pure.Compact.{WriteOp, two_words, put_sized, put_entry}
use littlefs2_pure.Compact.Plan.{SlotOffsets, SlotPlan, OverrideBody, slice_body, words, slot_plan}

-- The arm of `TagSink::tag` that counts.
unfoldable pub count_tag : ℕ → ℕ → List ℕ → Result ℕ
count_tag n tag body = ok (n + Tag.dsize tag)

unfoldable pub name_type_of : ℕ → Result TagType
name_type_of kind =
    if kind == 0
    then ok TagType.regular_file
    else if kind == 1
    then ok TagType.directory
    else if kind == 2
    then ok TagType.superblock
    else err corrupt

unfoldable pub struct_type_of : ℕ → Result TagType
struct_type_of kind =
    if kind == 0
    then ok TagType.inline_struct
    else if kind == 1
    then ok TagType.ctz_struct
    else if kind == 2
    then ok TagType.dir_struct
    else err corrupt

-- `plan.attr_suppress == Some(a)`
unfoldable pub is_suppressed : Option ℕ → ℕ → Bool
is_suppressed none a = false
is_suppressed (some b) a = b == a

module _ {σ : Type 0} (put : σ → ℕ → List ℕ → Result σ) where
  unfoldable pub put_extra_name : Option (TagType × List ℕ) → ℕ → σ → Result σ
  unfolding put_sized
  put_extra_name none id sink = ok sink
  put_extra_name (some (kind, new_name)) id sink = put_sized put kind id new_name sink

  unfoldable pub put_struct :
      Option (TagType × OverrideBody) → List ℕ → SlotOffsets → TagType → ℕ → σ → Result σ
  unfolding put_sized two_words
  put_struct (some (kind, slice_body body)) source s own id sink = put_sized put kind id body sink
  put_struct (some (kind, words w0 w1)) source s own id sink =
      put sink (Tag.new true kind id 8) (two_words w0 w1)
  put_struct none source s own id sink =
      put sink (Tag.new true own id s.struct_len) (slice source s.struct_off s.struct_len)

  -- The callback of the replay of the attributes.
  unfoldable pub replay_attr : SlotPlan → ℕ → ℕ → List ℕ → σ → Result σ
  unfolding is_suppressed put_sized
  replay_attr plan id a body sink =
      if is_suppressed plan.attr_suppress a
      then ok sink
      else put_sized put (TagType.user_attr a) id body sink

  unfoldable pub put_append : Option (ℕ × List ℕ) → ℕ → σ → Result σ
  unfolding put_sized
  put_append none id sink = ok sink
  put_append (some (a, v)) id sink = put_sized put (TagType.user_attr a) id v sink

  -- One live entry that stays, with the id that it has afterwards.
  unfoldable pub emit_slot : MetadataReader → List ℕ → SlotPlan → ℕ → ℕ → SlotOffsets → σ → Result σ
  unfolding name_type_of struct_type_of put_sized put_extra_name put_struct replay_attr put_append
      for_each_live_attr
  emit_slot reader source plan i id s sink = do
    guard (not (s.name_kind == 0xff || s.struct_kind == 0xff)) corrupt
    name_type ← name_type_of s.name_kind
    struct_type ← struct_type_of s.struct_kind
    s1 ← put sink (Tag.new true TagType.create id 0) []
    s2 ← put s1 (Tag.new true name_type id s.name_len) (slice source s.name_off s.name_len)
    s3 ← put_extra_name plan.extra_name id s2
    s4 ← put_struct plan.struct_override source s struct_type id s3
    s5 ← for_each_live_attr (replay_attr plan id) reader i s4
    put_append plan.attr_append id s5

  -- The loop over the slots from index `i` on, with the id that the next entry gets.
  unfoldable pub emit_slots :
      MetadataReader → List ℕ → WriteOp → ℕ → ℕ → List SlotOffsets → σ → Result (ℕ × σ)
  unfolding slot_plan emit_slot
  emit_slots reader source op i id [] sink = ok (id, sink)
  emit_slots reader source op i id (s ∷ rest) sink = elim ((slot_plan op i).drop_entry) [
    | true ↦ emit_slots reader source op (suc i) id rest sink
    | false ↦
        emit_slot reader source (slot_plan op i) i id s sink
        >>= emit_slots reader source op (suc i) (suc id) rest
  ]

  -- The entry that the operation adds.
  unfoldable pub emit_new : WriteOp → ℕ → σ → Result σ
  unfolding put_entry two_words
  emit_new (WriteOp.create i entry_name content attrs) id sink =
      put_entry put id TagType.regular_file entry_name TagType.inline_struct (u16 (length content))
        content attrs sink
  emit_new (WriteOp.create_ctz i entry_name head_block total_size attrs) id sink =
      put_entry put id TagType.regular_file entry_name TagType.ctz_struct 8
        (two_words head_block total_size) attrs sink
  emit_new (WriteOp.create_dir i entry_name dir_pair attrs) id sink =
      put_entry put id TagType.directory entry_name TagType.dir_struct 8
        (two_words dir_pair.a dir_pair.b) attrs sink
  emit_new op id sink = ok sink

  unfoldable pub emit_compact_range : List ℕ → List SlotOffsets → ℕ → WriteOp → ℕ → ℕ → σ → Result σ
  unfolding emit_slots emit_new
  emit_compact_range source slots count op lo hi sink = do
    reader ← Reader.new source
    p ← emit_slots reader source op lo 0 (drop lo (take (min hi count) slots)) sink
    if leb lo count && ltb count hi then emit_new op p.0 p.1 else ok p.1

-- `compact_range_size`
unfoldable pub compact_range_size : List ℕ → List SlotOffsets → ℕ → WriteOp → ℕ → ℕ → Result ℕ
unfolding emit_compact_range count_tag
compact_range_size source slots count op lo hi =
    emit_compact_range count_tag source slots count op lo hi 0

-- A contribution to the global state, unless it is all zero.
unfoldable pub put_state : TagType → ℕ → Option (List ℕ) → Commit → Result Commit
unfolding same_name
put_state kind size none c = ok c
put_state kind size (some body) c =
    if same_name body (replicate size 0)
    then ok c
    else Commit.tag c (Tag.new true kind Tag.id_none size) body

unfoldable pub put_tail : Option (BlockPair × Bool) → Commit → Result Commit
unfolding is_none two_words
put_tail none c = ok c
put_tail (some (pair, is_hard)) c =
    if is_none pair.a
    then ok c
    else Commit.tag c
        (Tag.new true (if is_hard then TagType.hard_tail else TagType.soft_tail) Tag.id_none 8)
        (two_words pair.a pair.b)

-- `build_compact_commit`: the commit whose buffer is the rebuilt block and whose offset is the count
-- of bytes that it returns.
unfoldable pub build_compact_commit :
    ℕ
    → List ℕ
    → ℕ
    → List SlotOffsets
    → ℕ
    → WriteOp
    → ℕ
    → ℕ
    → ℕ
    → ℕ
    → Option (List ℕ)
    → Option (List ℕ)
    → Option (BlockPair × Bool)
    → Result Commit
unfolding emit_compact_range put_state put_tail
build_compact_commit alt_len source revision slots count op lo hi prog_size block_size move relocate
      tail =
    do
      c ← Commit.new (replicate alt_len 0xff) revision
      c1 ← emit_compact_range Commit.tag source slots count op lo hi c
      c2 ← put_state TagType.move_state 12 move c1
      c3 ← put_state TagType.relocate_state 16 relocate c2
      c4 ← put_tail tail c3
      finish_padded c4 0 prog_size block_size
