-- ===== src/Alloc/Cached.antt =====
-- The allocators of src/alloc.rs: those that scan on every call, and those that keep the bitmap of
-- the last scan. A call returns its outcome with the cache that it leaves, since a failed attempt on
-- the cache leaves marks behind.
use littlefs2_pure.Prelude.{
  ℕ, zero, suc, true, false, Option, none, some, List, [], ◌∷◌, Result, ok, err, ◌>>=◌,
  out_of_range, get_or,
}
use littlefs2_pure.Block.{BlockAddress, BlockPair, address_none}
use littlefs2_pure.Storage.{Storage}
use littlefs2_pure.Alloc.{Bitmap, empty, mark, is_set}
use littlefs2_pure.Alloc.Take.{mark_excluded, pick_free, take_free_blocks}
use littlefs2_pure.Alloc.Scan.{scan_used_blocks, walk_ctz_chain}
use littlefs2_pure.Alloc.Single.{scan_used_with_single_buf}

-- `alloc_blocks_excluding`, whose own loops are those of `take_free_blocks`.
unfoldable pub alloc_blocks_excluding :
    Storage → BlockPair → List BlockAddress → ℕ → ℕ → ℕ → Result (List BlockAddress)
unfolding scan_used_blocks mark_excluded pick_free
alloc_blocks_excluding s root excluded wanted len_a len_b = do
  used ← scan_used_blocks s root len_a len_b empty
  let excluding = mark_excluded excluded used
  done ← excluding.0
  (pick_free s.block_count 0 wanted excluding.1).0

unfoldable pub alloc_blocks : Storage → BlockPair → ℕ → ℕ → ℕ → Result (List BlockAddress)
unfolding alloc_blocks_excluding
alloc_blocks s root wanted len_a len_b = alloc_blocks_excluding s root [] wanted len_a len_b

-- The marks of `alloc_one_block_with_single_buf`, which heeds no sentinel.
unfoldable pub mark_each : List BlockAddress → Bitmap → Result Bitmap
mark_each [] m = ok m
mark_each (ex ∷ rest) m = mark ex m >>= λ m'. mark_each rest m'

unfoldable pub first_free : ℕ → ℕ → Bitmap → Result BlockAddress
first_free zero b m = err out_of_range
first_free (suc left) b m = elim (is_set m b) [ true ↦ first_free left (suc b) m | false ↦ ok b ]

unfoldable pub alloc_one_block_with_single_buf :
    Storage → BlockPair → List BlockAddress → ℕ → Result BlockAddress
unfolding scan_used_with_single_buf mark_each first_free
alloc_one_block_with_single_buf s root excluded len = do
  used ← scan_used_with_single_buf s root len empty
  used' ← mark_each excluded used
  first_free s.block_count 0 used'

-- The chain that the caller still owns, on top of a scan.
unfoldable pub walk_excluded : Storage → Option (ℕ × ℕ) → Bitmap → Result Bitmap
unfolding walk_ctz_chain
walk_excluded s none used = ok used
walk_excluded s (some (head, size)) used = walk_ctz_chain s head size used

-- The blocks from a fresh scan, which becomes the cache where they were found.
unfoldable pub take_rescanned :
    Storage
    → Result Bitmap
    → Option Bitmap
    → List BlockAddress
    → Option (ℕ × ℕ)
    → ℕ
    → Result (List BlockAddress) × Option Bitmap
unfolding walk_excluded take_free_blocks
take_rescanned s scanned cache excluded exclude_chain wanted =
    elim (scanned >>= λ used. walk_excluded s exclude_chain used) [
      | err e ↦ (err e, cache)
      | ok fresh ↦
          let (r, fresh') = take_free_blocks fresh excluded wanted s.block_count in
          elim r [ err e ↦ (err e, cache) | ok blocks ↦ (ok blocks, some fresh') ]
    ]

-- The two cached allocators, which differ in the scan.
unfoldable pub take_cached :
    Storage
    → Result Bitmap
    → Option Bitmap
    → List BlockAddress
    → Option (ℕ × ℕ)
    → ℕ
    → Result (List BlockAddress) × Option Bitmap
unfolding take_free_blocks take_rescanned
take_cached s scanned none excluded exclude_chain wanted =
    take_rescanned s scanned none excluded exclude_chain wanted
take_cached s scanned (some m) excluded exclude_chain wanted =
    let (r, m') = take_free_blocks m excluded wanted s.block_count in
    elim r [
      | ok blocks ↦ (ok blocks, some m')
      | err e ↦ take_rescanned s scanned (some m') excluded exclude_chain wanted
    ]

unfoldable pub alloc_blocks_cached :
    Storage
    → BlockPair
    → Option Bitmap
    → List BlockAddress
    → Option (ℕ × ℕ)
    → ℕ
    → ℕ
    → ℕ
    → Result (List BlockAddress) × Option Bitmap
unfolding take_cached scan_used_blocks
alloc_blocks_cached s root cache excluded exclude_chain wanted len_a len_b =
    take_cached s (scan_used_blocks s root len_a len_b empty) cache excluded exclude_chain wanted

unfoldable pub alloc_one_block_cached_single_buf :
    Storage
    → BlockPair
    → Option Bitmap
    → List BlockAddress
    → Option (ℕ × ℕ)
    → ℕ
    → Result BlockAddress × Option Bitmap
unfolding take_cached scan_used_with_single_buf
alloc_one_block_cached_single_buf s root cache excluded exclude_chain len =
    let (r, cache') =
      take_cached s (scan_used_with_single_buf s root len empty) cache excluded exclude_chain 1 in
    ((r >>= λ blocks. ok (get_or blocks 0 address_none)), cache')
