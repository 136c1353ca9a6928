-- ===== src/Tag.antt =====
-- src/tag.rs: the 32 bit metadata tag. A `Tag` is its decoded word; `TagType` and `AbstractType`
-- are the decoded type field.
pub mod Kind
pub mod Abstract
pub mod Fields
pub mod Sizes
use littlefs2_pure.Prelude.{
  ℕ, ◌+◌, ◌*◌, ◌/◌, ◌%◌, ◌^◌, bit_or, bit_xor, Bool, true, false, Option, none, some, ◌==◌,
  if◌then◌else◌,
}
use littlefs2_pure.Prelude.Words.{u32, ◌<<<◌, ◌>>>◌, low_bits}
use Kind.{TagType, commit_crc}

abbrev pub Tag : Type 0
Tag = ℕ

abbrev pub id_none : ℕ
id_none = 0x3ff

abbrev pub len_special : ℕ
len_special = 0x3ff

-- `Tag::new`; the two fields are masked to ten bits, as in a release build.
unfoldable pub new : Bool → TagType → ℕ → ℕ → Tag
new valid tag_type id length =
    let valid_bit = if valid then 0 else 1 <<< 31 in
    let type_field = u32 (Kind.into_bits tag_type <<< 20) in
    let id_field = low_bits id 10 <<< 10 in
    let length_field = low_bits length 10 in
    bit_or (bit_or (bit_or valid_bit type_field) id_field) length_field

unfoldable pub is_valid : Tag → Bool
is_valid tag = tag >>> 31 == 0

pub type_bits : Tag → ℕ
type_bits tag = low_bits (tag >>> 20) 11

unfoldable pub tag_type : Tag → TagType
unfolding type_bits
tag_type tag = Kind.from_bits (type_bits tag)

pub abstract_type : Tag → Option Abstract.AbstractType
abstract_type tag = Abstract.from_bits (low_bits (tag >>> 28) 3)

unfoldable pub id : Tag → ℕ
id tag = low_bits (tag >>> 10) 10

pub has_no_id : Tag → Bool
has_no_id tag = id tag == id_none

unfoldable pub length : Tag → ℕ
length tag = low_bits tag 10

unfoldable pub is_special_length : Tag → Bool
unfolding length
is_special_length tag = length tag == len_special

-- `Tag::xor`
abbrev pub xor : Tag → Tag → Tag
xor a b = bit_xor a b

unfoldable pub body_len : Tag → ℕ
unfolding is_special_length
body_len tag = if is_special_length tag then 0 else length tag

unfoldable pub dsize : Tag → ℕ
dsize tag = 4 + body_len tag

-- The chunk of a commit CRC.
pub ccrc_chunk_of : TagType → Option ℕ
ccrc_chunk_of (commit_crc c) = some c
ccrc_chunk_of _ = none

unfoldable pub ccrc_chunk : Tag → Option ℕ
unfolding ccrc_chunk_of
ccrc_chunk tag = ccrc_chunk_of (tag_type tag)

pub is_ccrc_type : TagType → Bool
is_ccrc_type (commit_crc c) = true
is_ccrc_type _ = false

unfoldable pub is_ccrc : Tag → Bool
unfolding is_ccrc_type
is_ccrc tag = is_ccrc_type (tag_type tag)
