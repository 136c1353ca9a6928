-- ===== src/Compact.antt =====
-- src/fs.rs, the part that turns a pending write into the tags of a commit: the write operations, the
-- staged attributes, the tags that an append emits, and the slots of the live entries. The rebuild of
-- a whole pair is in Compact.Rebuild, the choice of a split in Compact.Split.
pub mod Sim
pub mod Plan
pub mod Rebuild
pub mod Split
pub mod Size
pub mod Appended
use littlefs2_pure.Prelude.{
  ℕ, zero, suc, ◌+◌, ◌-◌, ◌*◌, Bool, true, false, Option, none, some, List, [], ◌∷◌, ◌++◌, ltb, leb,
  ◌==◌, if◌then◌else◌, length, take, drop, set, get_or, replicate, Result, ok, err, ◌>>=◌,
  out_of_range,
}
use littlefs2_pure.Prelude.Bytes.{byte_at, slice, to_le32}
use littlefs2_pure.Prelude.Words.{u16}
use littlefs2_pure.Block.{BlockPair}
use littlefs2_pure.Tag
use littlefs2_pure.Tag.Kind.{TagType}
use littlefs2_pure.Meta.Reader.{MetadataReader}
use littlefs2_pure.Meta.Iter.{TagEntry, TagIter, next}
use littlefs2_pure.Meta.Commit
use littlefs2_pure.Meta.Commit.{Commit}
use littlefs2_pure.Dir.{SpliceStep, consumed, name, other, Roster, splice_step, max_live_entries}
use littlefs2_pure.Dir.Attrs.{for_each_live_attr}

-- Staged attributes: records of an id, a length in two bytes, and a value.
pub record StagedAttrs : Type 0 where
  pub records : List ℕ

-- `StagedAttrs::EMPTY`
abbrev pub no_attrs : StagedAttrs
no_attrs = record { records = [] }

-- `StagedAttrIter::next`: the attribute and the records that are left.
unfoldable pub next_staged : List ℕ → Option ((ℕ × List ℕ) × List ℕ)
next_staged rest =
    let len = byte_at rest 1 + byte_at rest 2 * 256 in
    if ltb (length rest) 3
    then none
    else if ltb (length rest) (3 + len)
    then none
    else some ((byte_at rest 0, slice rest 3 len), drop (3 + len) rest)

-- Every attribute in order; a record has at least three bytes.
unfoldable pub collect_staged : ℕ → List ℕ → List (ℕ × List ℕ)
unfolding next_staged
collect_staged zero rest = []
collect_staged (suc fuel) rest = elim (next_staged rest) [
  | none ↦ []
  | some (attr, rest') ↦ attr ∷ collect_staged fuel rest'
]

-- `StagedAttrs::iter`
unfoldable pub staged : StagedAttrs → List (ℕ × List ℕ)
unfolding collect_staged
staged attrs = collect_staged (length attrs.records) attrs.records

unfoldable pub attrs_size : List (ℕ × List ℕ) → ℕ
attrs_size [] = 0
attrs_size ((a, v) ∷ rest) = 4 + length v + attrs_size rest

-- `StagedAttrs::dsize`
unfoldable pub staged_dsize : StagedAttrs → ℕ
unfolding staged attrs_size
staged_dsize attrs = attrs_size (staged attrs)

-- The callback of `stage_live_attrs`, on the bytes staged so far, where the stage has `room` bytes.
unfoldable pub stage_attr : ℕ → ℕ → List ℕ → List ℕ → Result (List ℕ)
stage_attr room attr_id body used =
    if ltb (room - length used) (3 + length body)
    then err out_of_range
    else ok (used ++ (attr_id ∷ take 2 (to_le32 (u16 (length body))) ++ body))

unfoldable pub stage_live_attrs : MetadataReader → ℕ → ℕ → Result StagedAttrs
unfolding stage_attr for_each_live_attr
stage_live_attrs reader live_id room =
    for_each_live_attr (stage_attr room) reader live_id [] >>= λ used.
    ok (record { records = used })

pub data WriteOp : Type 0 where
  create : ℕ → List ℕ → List ℕ → StagedAttrs → WriteOp
  create_ctz : ℕ → List ℕ → ℕ → ℕ → StagedAttrs → WriteOp
  update : ℕ → List ℕ → WriteOp
  update_ctz : ℕ → ℕ → ℕ → WriteOp
  remove : ℕ → WriteOp
  create_dir : ℕ → List ℕ → BlockPair → StagedAttrs → WriteOp
  rename_in_place : ℕ → TagType → List ℕ → WriteOp
  set_attr : ℕ → ℕ → List ℕ → WriteOp
  remove_attr : ℕ → ℕ → WriteOp
  update_dir_struct : ℕ → BlockPair → WriteOp
  noop : WriteOp

-- Two little endian words, the body of a CtzStruct and of a DirStruct.
unfoldable pub two_words : ℕ → ℕ → List ℕ
two_words w0 w1 = to_le32 w0 ++ to_le32 w1

-- Tags are put into a sink: a commit, or a counter.
module _ {σ : Type 0} (put : σ → ℕ → List ℕ → Result σ) where
  -- `sink.tag(Tag::new(true, kind, id, body.len() as u16), body)`
  unfoldable pub put_sized : TagType → ℕ → List ℕ → σ → Result σ
  put_sized kind id body sink = put sink (Tag.new true kind id (u16 (length body))) body

  unfoldable pub put_attrs : ℕ → List (ℕ × List ℕ) → σ → Result σ
  unfolding put_sized
  put_attrs id [] sink = ok sink
  put_attrs id ((a, v) ∷ rest) sink =
      put_sized (TagType.user_attr a) id v sink >>= put_attrs id rest

  -- A new entry: Create, name, struct with its length, and the attributes that move with it.
  unfoldable pub put_entry :
      ℕ → TagType → List ℕ → TagType → ℕ → List ℕ → StagedAttrs → σ → Result σ
  unfolding put_sized put_attrs
  put_entry id kind entry_name struct_kind len body attrs sink = do
    s1 ← put sink (Tag.new true TagType.create id 0) []
    s2 ← put_sized kind id entry_name s1
    s3 ← put s2 (Tag.new true struct_kind id len) body
    put_attrs id (staged attrs) s3

-- `emit_op`
unfoldable pub emit_op : WriteOp → Commit → Result Commit
unfolding put_sized put_entry two_words
emit_op (create id entry_name content attrs) c =
    put_entry Commit.tag id TagType.regular_file entry_name TagType.inline_struct
      (u16 (length content)) content attrs c
emit_op (create_ctz id entry_name head_block total_size attrs) c =
    put_entry Commit.tag id TagType.regular_file entry_name TagType.ctz_struct 8
      (two_words head_block total_size) attrs c
emit_op (update id content) c = put_sized Commit.tag TagType.inline_struct id content c
emit_op (update_ctz id head_block total_size) c =
    Commit.tag c (Tag.new true TagType.ctz_struct id 8) (two_words head_block total_size)
emit_op (remove id) c = Commit.tag c (Tag.new true TagType.delete id 0) []
emit_op (create_dir id entry_name dir_pair attrs) c =
    put_entry Commit.tag id TagType.directory entry_name TagType.dir_struct 8
      (two_words dir_pair.a dir_pair.b) attrs c
emit_op (rename_in_place id name_type new_name) c = put_sized Commit.tag name_type id new_name c
emit_op (set_attr id attr_id value) c = put_sized Commit.tag (TagType.user_attr attr_id) id value c
emit_op (remove_attr id attr_id) c =
    Commit.tag c (Tag.new true (TagType.user_attr attr_id) id 0x3ff) []
emit_op (update_dir_struct id new_pair) c =
    Commit.tag c (Tag.new true TagType.dir_struct id 8) (two_words new_pair.a new_pair.b)
emit_op noop c = ok c

unfoldable pub op_dsize_of : WriteOp → ℕ
unfolding staged_dsize
op_dsize_of (update id content) = 4 + length content + 8
op_dsize_of (update_ctz id h t) = 4 + 8 + 8
op_dsize_of (update_dir_struct id p) = 4 + 8 + 8
op_dsize_of (create id entry_name content attrs) =
    4 + (4 + length entry_name) + (4 + length content) + staged_dsize attrs + 8
op_dsize_of (create_ctz id entry_name h t attrs) =
    4 + (4 + length entry_name) + (4 + 8) + staged_dsize attrs + 8
op_dsize_of (create_dir id entry_name p attrs) =
    4 + (4 + length entry_name) + (4 + 8) + staged_dsize attrs + 8
op_dsize_of (remove id) = 4 + 8
op_dsize_of (remove_attr id a) = 4 + 8
op_dsize_of (rename_in_place id t new_name) = 4 + length new_name + 8
op_dsize_of (set_attr id a value) = 4 + length value + 8
op_dsize_of noop = 8

unfoldable pub op_adds_entry : WriteOp → Bool
op_adds_entry (create id n c attrs) = true
op_adds_entry (create_ctz id n h t attrs) = true
op_adds_entry (create_dir id n p attrs) = true
op_adds_entry op = false
