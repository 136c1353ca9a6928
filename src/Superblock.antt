-- ===== src/Superblock.antt =====
-- src/superblock.rs: the superblock's body, and the gate of `from_pair` on the magic and the
-- version of src/lib.rs.
pub mod Gate
use littlefs2_pure.Prelude.{
  ℕ, ◌%◌, ◌/◌, ◌^◌, Bool, true, false, not, ◌&&◌, ◌||◌, Option, none, some, List, [], ◌∷◌, ◌++◌,
  ltb, ◌==◌, if◌then◌else◌, length, Result, ok, err, ◌>>=◌, corrupt, out_of_range, not_little_fs,
  unsupported_version,
}
use littlefs2_pure.Prelude.Words.{u16, ◌>>>◌, low_bits}
use littlefs2_pure.Prelude.Bytes.{le32_at, to_le32}
use littlefs2_pure.Tag
use littlefs2_pure.Tag.Kind.{TagType, superblock, inline_struct}
use littlefs2_pure.Meta.Iter.{TagEntry, iter_tags}
use littlefs2_pure.Meta.Pair.{MetadataPair}
use littlefs2_pure.Dir.{replay, same_name}

-- `MAGIC`, the bytes of "littlefs"
abbrev pub magic : List ℕ
magic = 0x6c ∷ 0x69 ∷ 0x74 ∷ 0x74 ∷ 0x6c ∷ 0x65 ∷ 0x66 ∷ 0x73 ∷ []

abbrev pub disk_version : ℕ
disk_version = 0x0002_0001

pub record Superblock : Type 0 where
  pub version : ℕ
  pub block_size : ℕ
  pub block_count : ℕ
  pub name_max : ℕ
  pub file_max : ℕ
  pub attr_max : ℕ

-- `Superblock::SIZE`
abbrev pub body_size : ℕ
body_size = 24

unfoldable pub major_version : ℕ → ℕ
major_version version = u16 (version >>> 16)

unfoldable pub minor_version : ℕ → ℕ
minor_version version = u16 (low_bits version 16)

unfoldable pub from_bytes : List ℕ → Result Superblock
from_bytes bytes =
    if not (length bytes == body_size)
    then err out_of_range
    else ok (record {
      version = le32_at bytes 0;
      block_size = le32_at bytes 4;
      block_count = le32_at bytes 8;
      name_max = le32_at bytes 12;
      file_max = le32_at bytes 16;
      attr_max = le32_at bytes 20;
    })

unfoldable pub to_bytes : Superblock → List ℕ
to_bytes s =
    to_le32 s.version
    ++ (to_le32 s.block_size
        ++ (to_le32 s.block_count
            ++ (to_le32 s.name_max ++ (to_le32 s.file_max ++ to_le32 s.attr_max))))

-- The arms of the match on a tag, on whether the magic was seen and on what was decoded last.
unfoldable pub scan_arm :
    TagType → TagEntry → Bool × Option Superblock → Result (Bool × Option Superblock)
unfolding from_bytes
scan_arm superblock e st = if same_name e.body magic then ok (true, st.1) else ok st
scan_arm inline_struct e st =
    if (Tag.id e.tag == 0 && length e.body == body_size)
    then (from_bytes e.body >>= λ s. ok (st.0, some s))
    else ok st
scan_arm t e st = ok st

unfoldable pub scan_step : TagEntry → Bool × Option Superblock → Result (Bool × Option Superblock)
unfolding scan_arm
scan_step e st = scan_arm (Tag.tag_type e.tag) e st

-- The version gate.
unfoldable pub check_version : Superblock → Result Superblock
unfolding major_version minor_version
check_version s =
    if not (major_version s.version == major_version disk_version)
      || ltb (minor_version disk_version) (minor_version s.version)
    then err (unsupported_version s.version)
    else ok s

-- What follows the loop.
unfoldable pub admit : Bool × Option Superblock → Result Superblock
unfolding check_version
admit st =
    if not st.0
    then err not_little_fs
    else elim st.1 [ none ↦ err corrupt | some s ↦ check_version s ]

unfoldable pub from_pair : MetadataPair → Result Superblock
unfolding scan_step admit
from_pair pair = replay scan_step (iter_tags pair.reader) (false, none) >>= λ st. admit st
