-- ===== src/Ctz.antt =====
-- src/ctz.rs: the skip list of a large file's blocks. A buffer of addresses is a list, and a loop
-- over a shrinking index is a recursion on the index; the descent of `seek_block` takes the gap as
-- fuel, since every hop shortens the gap by at least one.
pub mod Index
pub mod Seek
pub mod Codec
pub mod Blocks
pub mod Contents
pub mod Whole
pub mod Cut
pub mod Ending
use littlefs2_pure.Prelude.{
  ℕ, zero, suc, ◌+◌, ◌-◌, ◌*◌, ◌/◌, ◌%◌, ◌^◌, min, ◌||◌, not, true, false, List, [], ◌∷◌, ◌++◌, ltb,
  leb, ◌==◌, if◌then◌else◌, length, get_or, set, replicate, Result, ok, err, ◌>>=◌, corrupt,
  out_of_range, geometry_mismatch,
}
use littlefs2_pure.Prelude.Words.{u32, u32_max, sub32}
use littlefs2_pure.Prelude.Bytes.{le32_at, to_le32, copy_at}
use littlefs2_pure.Prelude.Counts.{trailing_zeros, count_ones, ilog2}
use littlefs2_pure.Block.{BlockAddress, address_none}
use littlefs2_pure.Geometry.{block_size_min}
use littlefs2_pure.Storage.{Storage, read_range}

unfoldable pub require_in_bounds : Storage → BlockAddress → Result BlockAddress
require_in_bounds s b = if ltb b s.block_count then ok b else err corrupt

pub record CtzStruct : Type 0 where
  pub head_block : BlockAddress
  pub size : ℕ

-- `CtzStruct::SIZE`
abbrev pub struct_size : ℕ
struct_size = 8

unfoldable pub from_bytes : List ℕ → Result CtzStruct
from_bytes bytes =
    if not (length bytes == struct_size)
    then err out_of_range
    else ok (record { head_block = le32_at bytes 0; size = le32_at bytes 4 })

unfoldable pub to_bytes : CtzStruct → List ℕ
to_bytes c = to_le32 c.head_block ++ to_le32 c.size

unfoldable pub skip_pointers_in_block : ℕ → ℕ
skip_pointers_in_block index = if index == 0 then 0 else trailing_zeros index + 1

unfoldable pub content_bytes_in_block : ℕ → ℕ → ℕ
unfolding skip_pointers_in_block
content_bytes_in_block index block_size = sub32 block_size (4 * skip_pointers_in_block index)

-- `popcount`
abbrev pub popcount : ℕ → ℕ
popcount a = count_ones a

unfoldable pub block_index_at_offset : ℕ → ℕ → ℕ × ℕ
block_index_at_offset offset block_size =
    let b = sub32 block_size 8 in
    let first = offset / b in
    let i = sub32 offset (4 * (popcount (first - 1) + 2)) / b in
    if first == 0 then (0, offset) else (i, sub32 (sub32 offset (u32 (b * i))) (4 * popcount i))

unfoldable pub block_count : ℕ → ℕ → ℕ
unfolding block_index_at_offset
block_count size block_size =
    if size == 0 then 0 else (block_index_at_offset (size - 1) block_size).0 + 1

abbrev pub max_ctz_blocks : ℕ
max_ctz_blocks = 256

-- The pointers that a round of the backward walk reads: two of an even block, one of an odd one.
unfoldable pub read_header : Storage → BlockAddress → ℕ → ℕ → Result (List ℕ)
read_header s head index window_len = read_range s head 0 (4 * (2 - index % 2)) window_len

-- The rounds of the loop from block `index` down, where `out` collects the addresses.
unfoldable pub collect_walk :
    Storage → ℕ → BlockAddress → List BlockAddress → ℕ → Result (List BlockAddress)
unfolding require_in_bounds read_header
collect_walk s zero head out window_len = do here ← require_in_bounds s head; ok (set out 0 here)
collect_walk s (suc zero) head out window_len = do
  here ← require_in_bounds s head
  pointers ← read_header s head 1 window_len
  collect_walk s zero (le32_at pointers 0) (set out 1 here) window_len
collect_walk s (suc (suc i)) head out window_len = do
  here ← require_in_bounds s head
  let filled = set out (suc (suc i)) here
  pointers ← read_header s head (suc (suc i)) window_len
  let ptr0 = le32_at pointers 0
  elim (2 - suc (suc i) % 2 == 2) [
    | true ↦ require_in_bounds s ptr0 >>= λ near.
        collect_walk s i (le32_at pointers 4) (set filled (suc i) near) window_len
    | false ↦ collect_walk s (suc i) ptr0 filled window_len
  ]

unfoldable pub collect_chain_blocks_buffered :
    Storage → BlockAddress → ℕ → List BlockAddress → ℕ → Result (List BlockAddress)
unfolding collect_walk
collect_chain_blocks_buffered s head total_blocks out window_len =
    if total_blocks == 0
    then ok out
    else if ltb (u32 (length out)) total_blocks
    then err out_of_range
    else collect_walk s (total_blocks - 1) head out window_len

-- The largest unit that the forms without a window of their caller's support.
abbrev pub max_unbuffered_read_size : ℕ
max_unbuffered_read_size = 512

unfoldable pub collect_chain_blocks :
    Storage → BlockAddress → ℕ → List BlockAddress → Result (List BlockAddress)
unfolding collect_chain_blocks_buffered
collect_chain_blocks s head total_blocks out =
    if ltb max_unbuffered_read_size s.read_size
    then err geometry_mismatch
    else collect_chain_blocks_buffered s head total_blocks out max_unbuffered_read_size

-- The largest jump from block `idx` that does not pass the target.
unfoldable pub jump : ℕ → ℕ → ℕ
jump idx target_index = min (ilog2 (idx - target_index)) (trailing_zeros idx)

unfoldable pub seek_walk : Storage → ℕ → BlockAddress → ℕ → ℕ → ℕ → Result BlockAddress
unfolding jump
seek_walk s zero cur idx target_index window_len = ok cur
seek_walk s (suc fuel) cur idx target_index window_len = elim (ltb target_index idx) [
  | false ↦ ok cur
  | true ↦ do
    let k = jump idx target_index
    pointer ← read_range s cur (4 * k) 4 window_len
    next ← require_in_bounds s (le32_at pointer 0)
    seek_walk s fuel next (idx - 2 ^ k) target_index window_len
]

unfoldable pub seek_block_buffered : Storage → BlockAddress → ℕ → ℕ → ℕ → Result BlockAddress
unfolding require_in_bounds seek_walk
seek_block_buffered s head from_index target_index window_len =
    if ltb from_index target_index
    then err out_of_range
    else require_in_bounds s head >>= λ cur.
        seek_walk s (from_index - target_index) cur from_index target_index window_len

unfoldable pub seek_block : Storage → BlockAddress → ℕ → ℕ → Result BlockAddress
unfolding seek_block_buffered
seek_block s head from_index target_index =
    if ltb max_unbuffered_read_size s.read_size
    then err geometry_mismatch
    else seek_block_buffered s head from_index target_index max_unbuffered_read_size

-- What the forward read keeps between rounds: the destination, how much of it is filled, and the
-- file offset at which the next block starts.
pub record ReadState : Type 0 where
  pub out : List ℕ
  pub out_off : ℕ
  pub logical_off : ℕ

-- One round of the forward read of `read_ctz_at`, at block `i`.
unfoldable pub content_step :
    Storage → List BlockAddress → ℕ → ℕ → ℕ → ℕ → ReadState → Result ReadState
unfolding skip_pointers_in_block
content_step s blocks start_off target_bytes window_len i st =
    let header = 4 * skip_pointers_in_block i in
    let content_max = u32 s.block_size - header in
    let block_end = u32 (st.logical_off + content_max) in
    let skip = start_off - st.logical_off in
    let n = min (content_max - skip) (target_bytes - st.out_off) in
    if leb block_end start_off
    then ok (record st { logical_off = block_end })
    else if n == 0
    then ok (record st { logical_off = block_end })
    else read_range s (get_or blocks i address_none) (u32 (header + skip)) n window_len >>= λ bytes.
        ok (record {
          out = copy_at st.out st.out_off bytes;
          out_off = st.out_off + n;
          logical_off = block_end;
        })

-- The rounds `i, i + 1, ..` of `left` blocks, up to the break.
unfoldable pub content_walk :
    Storage → List BlockAddress → ℕ → ℕ → ℕ → ℕ → ℕ → ReadState → Result ReadState
unfolding content_step
content_walk s blocks start_off target_bytes window_len i zero st = ok st
content_walk s blocks start_off target_bytes window_len i (suc left) st =
    elim (leb target_bytes st.out_off) [
      | true ↦ ok st
      | false ↦ content_step s blocks start_off target_bytes window_len i st >>= λ st'.
          content_walk s blocks start_off target_bytes window_len (suc i) left st'
    ]

-- The buffer that the file was read into, and the count of the bytes read.
unfoldable pub read_ctz_at : Storage → CtzStruct → ℕ → List ℕ → ℕ → Result (List ℕ × ℕ)
read_ctz_at s ctz start_off out scratch_len =
    let total_blocks = block_count ctz.size (u32 s.block_size) in
    let end_off = min ctz.size (min u32_max (start_off + u32 (length out))) in
    if ltb scratch_len s.block_size || ltb s.block_size block_size_min
    then err geometry_mismatch
    else if ctz.size == 0 || (length out == 0 || leb ctz.size start_off)
    then ok (out, 0)
    else if ltb max_ctz_blocks total_blocks
    then err out_of_range
    else collect_chain_blocks_buffered s ctz.head_block total_blocks
        (replicate max_ctz_blocks address_none) scratch_len
      >>= λ blocks.
          content_walk s blocks start_off (end_off - start_off) scratch_len 0 total_blocks
            (record { out = out; out_off = 0; logical_off = 0 })
          >>= λ st. ok (st.out, st.out_off)

unfoldable pub read_ctz : Storage → CtzStruct → List ℕ → ℕ → Result (List ℕ × ℕ)
unfolding read_ctz_at
read_ctz s ctz out scratch_len = read_ctz_at s ctz 0 out scratch_len
