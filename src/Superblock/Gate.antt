-- ===== src/Superblock/Gate.antt =====
-- What a superblock that was read satisfies, and the round trip of its body.
use littlefs2_pure.Prelude.{
  ℕ, ◌+◌, ◌*◌, ◌/◌, ◌%◌, ◌≤◌, ◌<◌, ◌^◌, ◌≡◌, refl, arith, Bool, Option, none, some, true, false,
  Result, ok, err, ◌>>=◌,
}
use littlefs2_pure.Prelude.Bytes.{le32_at, to_le32}
use littlefs2_pure.Meta.Pair.{MetadataPair}
use littlefs2_pure.Meta.Iter.{iter_tags}
use littlefs2_pure.Dir.{replay}
use littlefs2_pure.Superblock.{
  Superblock, from_bytes, to_bytes, from_pair, admit, check_version, scan_step, major_version,
  minor_version, disk_version,
}

-- The version is one that this code mounts.
abbrev pub IsSupported : Superblock → Type 0
IsSupported s =
    (major_version s.version ≡ major_version disk_version)
    × (minor_version s.version ≤ minor_version disk_version)

check_version-IsSupported : (s s' : Superblock) → check_version s ≡ ok s' → IsSupported s'
unfolding check_version
check_version-IsSupported s s' e = ground arith

admit-IsSupported :
    (st : Bool × Option Superblock) (s : Superblock) → admit st ≡ ok s → IsSupported s
unfolding admit
admit-IsSupported (true, some s') s e = check_version-IsSupported s' s e
admit-IsSupported (true, none) s e = cc
admit-IsSupported (false, d) s e = cc

scanned :
    (m : Result (Bool × Option Superblock)) (s : Superblock)
    → (m >>= λ st. admit st) ≡ ok s
    → IsSupported s
scanned (ok st) s e = admit-IsSupported st s e
scanned (err x) s e = cc

-- A superblock that `from_pair` returns has the major version of this code and a minor version
-- that is not newer.
pub from_pair-IsSupported :
    (pair : MetadataPair) (s : Superblock) → from_pair pair ≡ ok s → IsSupported s
unfolding from_pair
from_pair-IsSupported pair s e =
    scanned (replay scan_step (iter_tags pair.reader) (false, none)) s e

digits_of :
    (x : ℕ)
    → x < 2 ^ 32
    → x % 256 + x / 2 ^ 8 % 256 * 2 ^ 8 + x / 2 ^ 16 % 256 * 2 ^ 16 + x / 2 ^ 24 % 256 * 2 ^ 24 ≡ x
digits_of x h = omega arith

-- A superblock of six words is read back from its 24 bytes.
body_read_back :
    (s : Superblock)
    → s.version < 2 ^ 32
    → s.block_size < 2 ^ 32
    → s.block_count < 2 ^ 32
    → s.name_max < 2 ^ 32
    → s.file_max < 2 ^ 32
    → s.attr_max < 2 ^ 32
    → from_bytes (to_bytes s) ≡ ok s
unfolding from_bytes to_bytes le32_at to_le32
body_read_back s a b c d e f =
    rw
      (
        digits_of s.version a,
        digits_of s.block_size b,
        digits_of s.block_count c,
        digits_of s.name_max d,
        digits_of s.file_max e,
        digits_of s.attr_max f,
      )
      refl
