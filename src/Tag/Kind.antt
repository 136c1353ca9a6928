-- ===== src/Tag/Kind.antt =====
-- `TagType` of src/tag.rs: the concrete type, an abstract type with its chunk byte.
use littlefs2_pure.Prelude.{
  ℕ, ◌+◌, ◌*◌, ◌/◌, ◌%◌, ◌^◌, ◌<◌, bit_or, ◌≡◌, refl, arith, ◌==◌, if◌then◌else◌,
}
use littlefs2_pure.Prelude.Bits.{bit_or_fields}
use littlefs2_pure.Prelude.Words.{◌<<<◌, ◌>>>◌, low_bits}

pub data TagType : Type 0 where
  regular_file directory superblock : TagType
  from_move from_user_attrs : TagType
  dir_struct inline_struct ctz_struct : TagType
  user_attr : ℕ → TagType
  create delete : TagType
  commit_crc : ℕ → TagType
  forward_crc : TagType
  soft_tail hard_tail : TagType
  move_state relocate_state : TagType
  unknown : ℕ → ℕ → TagType

-- The arms of the match, by abstract type.
pub decode : ℕ → ℕ → TagType
decode a c =
    if a == 0x0
    then (if c == 0x01
        then regular_file
        else if c == 0x02
        then directory
        else if c == 0xff
        then superblock
        else unknown a c)
    else if a == 0x1
    then (if c == 0x01 then from_move else if c == 0x02 then from_user_attrs else unknown a c)
    else if a == 0x2
    then (if c == 0x00
        then dir_struct
        else if c == 0x01
        then inline_struct
        else if c == 0x02
        then ctz_struct
        else unknown a c)
    else if a == 0x3
    then user_attr c
    else if a == 0x4
    then (if c == 0x01 then create else if c == 0xff then delete else unknown a c)
    else if a == 0x5
    then (if c / 0x80 % 2 == 0
        then commit_crc c
        else if c == 0xff
        then forward_crc
        else unknown a c)
    else if a == 0x6
    then (if c == 0x00 then soft_tail else if c == 0x01 then hard_tail else unknown a c)
    else if a == 0x7
    then (if c == 0xff then move_state else if c == 0xfe then relocate_state else unknown a c)
    else unknown a c

unfoldable pub from_bits : ℕ → TagType
unfolding decode
from_bits type_field = decode (low_bits (type_field >>> 8) 3) (low_bits type_field 8)

unfoldable pub abstract_part : TagType → ℕ
abstract_part regular_file = 0x0
abstract_part directory = 0x0
abstract_part superblock = 0x0
abstract_part from_move = 0x1
abstract_part from_user_attrs = 0x1
abstract_part dir_struct = 0x2
abstract_part inline_struct = 0x2
abstract_part ctz_struct = 0x2
abstract_part (user_attr c) = 0x3
abstract_part create = 0x4
abstract_part delete = 0x4
abstract_part (commit_crc c) = 0x5
abstract_part forward_crc = 0x5
abstract_part soft_tail = 0x6
abstract_part hard_tail = 0x6
abstract_part move_state = 0x7
abstract_part relocate_state = 0x7
abstract_part (unknown a c) = a

unfoldable pub chunk_part : TagType → ℕ
chunk_part regular_file = 0x01
chunk_part directory = 0x02
chunk_part superblock = 0xff
chunk_part from_move = 0x01
chunk_part from_user_attrs = 0x02
chunk_part dir_struct = 0x00
chunk_part inline_struct = 0x01
chunk_part ctz_struct = 0x02
chunk_part (user_attr c) = c
chunk_part create = 0x01
chunk_part delete = 0xff
chunk_part (commit_crc c) = c
chunk_part forward_crc = 0xff
chunk_part soft_tail = 0x00
chunk_part hard_tail = 0x01
chunk_part move_state = 0xff
chunk_part relocate_state = 0xfe
chunk_part (unknown a c) = c

-- `((abstract_type as u16) << 8) | (chunk as u16)`
unfoldable pub into_bits : TagType → ℕ
unfolding abstract_part chunk_part
into_bits t = bit_or (abstract_part t <<< 8) (chunk_part t)

-- The types that have a name, with chunks in their natural domain.
abbrev pub IsKnown : TagType → Type 0
IsKnown (user_attr c) = c < 0x100
IsKnown (commit_crc c) = c < 0x80
IsKnown (unknown a c) = ⊥
IsKnown _ = Unit

pub into_bits-sum :
    (t : TagType) → chunk_part t < 256 → into_bits t ≡ abstract_part t * 256 + chunk_part t
unfolding into_bits
into_bits-sum t h = bit_or_fields 8 (abstract_part t) (chunk_part t) h

decode_parts :
    (a c : ℕ) → c < 256 → (abstract_part (decode a c) ≡ a) × (chunk_part (decode a c) ≡ c)
unfolding decode abstract_part chunk_part
decode_parts a c h = ground arith

-- Decoding an eleven bit type field and encoding it again gives the field back: no type field, known
-- or not, is lost.
pub into_bits-from_bits : (f : ℕ) → f < 2 ^ 11 → into_bits (from_bits f) ≡ f
unfolding from_bits
into_bits-from_bits f h =
    let parts = decode_parts (f / 2 ^ 8 % 2 ^ 3) (f % 2 ^ 8) (omega arith) in
    omega (
      arith,
      parts.0,
      parts.1,
      into_bits-sum (decode (f / 2 ^ 8 % 2 ^ 3) (f % 2 ^ 8)) (omega (arith, parts.1)),
    )

known_bits : (t : TagType) → IsKnown t → (abstract_part t < 8) × (chunk_part t < 256)
unfolding abstract_part chunk_part
known_bits (user_attr c) h = omega arith
known_bits (commit_crc c) h = omega arith
known_bits (unknown a c) h = absurd h
known_bits _ h = omega arith

decode_known : (t : TagType) → IsKnown t → decode (abstract_part t) (chunk_part t) ≡ t
unfolding decode abstract_part chunk_part
decode_known (user_attr c) h = refl
decode_known (commit_crc c) h = ground arith
decode_known (unknown a c) h = absurd h
decode_known _ h = refl

pub into_bits-lt : (t : TagType) → IsKnown t → into_bits t < 2 ^ 11
into_bits-lt t h = let b = known_bits t h in omega (arith, into_bits-sum t b.1)

-- Encoding a named type, its chunk in the natural domain, and decoding it gives the type back.
pub from_bits-into_bits : (t : TagType) → IsKnown t → from_bits (into_bits t) ≡ t
unfolding from_bits
from_bits-into_bits t h =
    let b = known_bits t h in
    let e = into_bits-sum t b.1 in
    let p : into_bits t / 2 ^ 8 % 2 ^ 3 ≡ abstract_part t = omega arith in
    let q : into_bits t % 2 ^ 8 ≡ chunk_part t = omega arith in rw (p, q) (decode_known t h)

-- A user attribute's id is the chunk byte.
pub decode-user_attr : (a c x : ℕ) → decode a c ≡ user_attr x → x ≡ c
unfolding decode
decode-user_attr a c x h = ground arith
