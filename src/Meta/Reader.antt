-- ===== src/Meta/Reader.antt =====
-- `MetadataReader::new` and `scan_for_tail` of src/meta.rs. A loop is a step that returns `none` on
-- `break`, repeated on fuel; every round moves the offset on, so the block's length is fuel enough
-- (`Walk.walk_fuel`).
pub mod Walk
use littlefs2_pure.Prelude.{
  ℕ, zero, suc, ◌+◌, ◌*◌, ◌%◌, ◌^◌, bit_xor, Bool, true, false, not, ◌&&◌, Option, none, some, List,
  leb, ltb, ◌==◌, if◌then◌else◌, length, Result, ok, err, corrupt,
}
use littlefs2_pure.Prelude.Words.{◌<<<◌, low_bits}
use littlefs2_pure.Prelude.Bytes.{slice, le32_at, be32_at}
use littlefs2_pure.Crc
use littlefs2_pure.Block.{BlockPair, is_null}
use littlefs2_pure.Tag
use littlefs2_pure.Tag.Kind.{TagType, forward_crc, soft_tail, hard_tail}

pub record MetadataReader : Type 0 where
  pub block : List ℕ
  pub revision : ℕ
  pub committed_end : ℕ
  pub next_ptag : ℕ
  pub tail : Option BlockPair
  pub is_hard_tail : Bool
  pub erased : Bool

-- The variables of the loop in `new`. An FCRC is the size of a window and the CRC expected there.
pub record WalkState : Type 0 where
  pub ptag : ℕ
  pub running_crc : ℕ
  pub off : ℕ
  pub committed_end : ℕ
  pub next_ptag : ℕ
  pub pending_fcrc : Option (ℕ × ℕ)
  pub last_fcrc : Option (ℕ × ℕ)

-- The base of the tag that follows: `ptag ^= (u32::from(chunk) & 1) << 31` after a commit CRC.
unfoldable pub flip_parity : ℕ → Option ℕ → ℕ
flip_parity ptag none = ptag
flip_parity ptag (some chunk) = bit_xor ptag (low_bits chunk 1 <<< 31)

pub is_forward_crc : TagType → Bool
is_forward_crc forward_crc = true
is_forward_crc _ = false

-- `ccrc_chunk().unwrap_or(0)`
abbrev pub chunk_or_zero : Option ℕ → Option ℕ
chunk_or_zero none = some 0
chunk_or_zero (some c) = some c

-- The branch of a commit CRC at `off`, whose word is already in `running_crc`.
unfoldable pub walk_ccrc : List ℕ → WalkState → ℕ → ℕ → ℕ → Option WalkState
walk_ccrc block s off tag running_crc =
    let base = flip_parity tag (chunk_or_zero (Tag.ccrc_chunk tag)) in
    if ltb (Tag.body_len tag) 4
    then none
    else if not (running_crc == le32_at block (off + 4))
    then none
    else some (record {
      ptag = base;
      running_crc = Crc.init;
      off = off;
      committed_end = off + Tag.dsize tag;
      next_ptag = base;
      pending_fcrc = none;
      last_fcrc = s.pending_fcrc;
    })

unfoldable pub pending_after : List ℕ → ℕ → ℕ → Option (ℕ × ℕ) → Option (ℕ × ℕ)
unfolding is_forward_crc
pending_after block off tag pending =
    if is_forward_crc (Tag.tag_type tag) && leb 8 (Tag.body_len tag)
    then some (le32_at block (off + 4), le32_at block (off + 8))
    else pending

-- The branch of any other tag.
unfoldable pub walk_data : List ℕ → WalkState → ℕ → ℕ → ℕ → WalkState
walk_data block s off tag running_crc = record s {
  ptag = tag;
  running_crc = Crc.update running_crc (slice block (off + 4) (Tag.body_len tag));
  off = off;
  pending_fcrc = pending_after block off tag s.pending_fcrc;
}

unfoldable pub walk_step : List ℕ → WalkState → Option WalkState
walk_step block s =
    let off = s.off + Tag.dsize s.ptag in
    let running_crc = Crc.update s.running_crc (slice block off 4) in
    let tag = bit_xor (be32_at block off) s.ptag in
    if ltb (length block) (off + 4)
    then none
    else if not (Tag.is_valid tag)
    then none
    else if ltb (length block) (off + Tag.dsize tag)
    then none
    else if Tag.is_ccrc tag
    then walk_ccrc block s off tag running_crc
    else some (walk_data block s off tag running_crc)

unfoldable pub walk : ℕ → List ℕ → WalkState → WalkState
walk zero block s = s
walk (suc fuel) block s = elim (walk_step block s) [ none ↦ s | some s' ↦ walk fuel block s' ]

abbrev pub walk_start : List ℕ → WalkState
walk_start block = record {
  ptag = 0xffff_ffff;
  running_crc = Crc.update Crc.init (slice block 0 4);
  off = 0;
  committed_end = 0;
  next_ptag = 0xffff_ffff;
  pending_fcrc = none;
  last_fcrc = none;
}

-- Whether the window after the committed region still has the CRC that its FCRC announced.
unfoldable pub window_erased : List ℕ → ℕ → Option (ℕ × ℕ) → Bool
window_erased block end none = false
window_erased block end (some (sz, expected)) =
    leb (end + sz) (length block) && Crc.update Crc.init (slice block end sz) == expected

-- The variables of the loop in `scan_for_tail`.
pub record TailState : Type 0 where
  pub ptag : ℕ
  pub off : ℕ
  pub latest : Option BlockPair
  pub is_hard : Bool

pub is_tail_type : TagType → Bool
is_tail_type hard_tail = true
is_tail_type soft_tail = true
is_tail_type _ = false

pub is_hard_type : TagType → Bool
is_hard_type hard_tail = true
is_hard_type _ = false

pub tail_entry : List ℕ → ℕ → ℕ → TailState → TailState
unfolding is_tail_type is_hard_type
tail_entry block off tag s =
    if is_tail_type (Tag.tag_type tag) && Tag.body_len tag == 8
    then record s {
      latest = some (record { a = le32_at block (off + 4); b = le32_at block (off + 8) });
      is_hard = is_hard_type (Tag.tag_type tag);
    }
    else s

pub tail_step : List ℕ → ℕ → TailState → Option TailState
unfolding tail_entry
tail_step block committed_end s =
    let off = s.off + Tag.dsize s.ptag in
    let tag = bit_xor (be32_at block off) s.ptag in
    if ltb committed_end (off + 4)
    then none
    else if not (Tag.is_valid tag)
    then none
    else if ltb committed_end (off + Tag.dsize tag)
    then none
    else some (record (tail_entry block off tag s) {
      ptag = flip_parity tag (Tag.ccrc_chunk tag);
      off = off;
    })

pub tail_walk : ℕ → List ℕ → ℕ → TailState → TailState
unfolding tail_step
tail_walk zero block committed_end s = s
tail_walk (suc fuel) block committed_end s = elim (tail_step block committed_end s) [
  | none ↦ s
  | some s' ↦ tail_walk fuel block committed_end s'
]

-- The null sentinel is read as the end of the thread, after the latest tag has won.
unfoldable pub collapse_null : Option BlockPair → Bool → Option BlockPair × Bool
collapse_null none is_hard = (none, false)
collapse_null (some p) is_hard = if is_null p then (none, false) else (some p, is_hard)

unfoldable pub scan_for_tail : List ℕ → ℕ → Option BlockPair × Bool
unfolding tail_walk collapse_null
scan_for_tail block committed_end =
    let s =
      tail_walk (suc (length block)) block committed_end
        (record { ptag = 0xffff_ffff; off = 0; latest = none; is_hard = false }) in
    collapse_null s.latest s.is_hard

-- `MetadataReader::new`
unfoldable pub new : List ℕ → Result MetadataReader
new block =
    if ltb (length block) 4
    then err corrupt
    else (let s = walk (suc (length block)) block (walk_start block) in
        ok (record {
          block = block;
          revision = le32_at block 0;
          committed_end = s.committed_end;
          next_ptag = s.next_ptag;
          tail = (scan_for_tail block s.committed_end).0;
          is_hard_tail = (scan_for_tail block s.committed_end).1;
          erased = window_erased block s.committed_end s.last_fcrc;
        }))

unfoldable pub has_commits : MetadataReader → Bool
has_commits r = ltb 0 r.committed_end
