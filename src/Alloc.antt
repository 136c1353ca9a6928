-- ===== src/Alloc.antt =====
-- src/alloc.rs: the allocator. `Bitmap` is here; the walk that marks the blocks in use is in
-- Alloc.Scan, the choice of free blocks and the cache in Alloc.Take.
pub mod Laws
pub mod Take
pub mod Scan
pub mod Single
pub mod Cached
pub mod Bounded
pub mod Choice
pub mod Granted
pub mod Cache
pub mod Whole
use littlefs2_pure.Prelude.{
  ℕ, ◌*◌, ◌/◌, ◌%◌, ◌^◌, bit_or, Bool, true, List, leb, if◌then◌else◌, set, replicate, Result, ok,
  err, out_of_range,
}
use littlefs2_pure.Prelude.Bytes.{byte_at}
use littlefs2_pure.Prelude.Bits.Digits.{has_bit}
use littlefs2_pure.Prelude.Words.{◌<<<◌}

abbrev pub max_tracked_blocks : ℕ
max_tracked_blocks = 4096

pub record Bitmap : Type 0 where
  pub bits : List ℕ

-- `Bitmap::EMPTY`
unfoldable pub empty : Bitmap
empty = record { bits = replicate 512 0 }

-- `Bitmap::set`
unfoldable pub mark : ℕ → Bitmap → Result Bitmap
mark block m =
    if leb max_tracked_blocks block
    then err out_of_range
    else ok (record {
      bits = set m.bits (block / 8) (bit_or (byte_at m.bits (block / 8)) (1 <<< (block % 8)));
    })

unfoldable pub is_set : Bitmap → ℕ → Bool
unfolding has_bit
is_set m block =
    if leb max_tracked_blocks block then true else has_bit (byte_at m.bits (block / 8)) (block % 8)
