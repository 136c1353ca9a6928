-- ===== src/Examples/Reads.antt =====
-- A device that holds a file, and the read of a handle on it.
use littlefs2_pure.Prelude.{
  ℕ, zero, suc, ◌+◌, ◌-◌, ◌*◌, ◌^◌, ◌≤◌, ◌<◌, ◌≡◌, refl, arith, some, List, ◌++◌, replicate, take,
  true, false, ok, err, io,
}
use littlefs2_pure.Prelude.Bytes.{slice, le32_at, to_le32, copy_at}
use littlefs2_pure.Prelude.Counts.{trailing_zeros, low_zeros, count_ones}
use littlefs2_pure.Storage.{Storage}
use littlefs2_pure.Storage.Range.{Holds}
use littlefs2_pure.Ctz.{block_count}
use littlefs2_pure.Ctz.Blocks.{IsFile}
use littlefs2_pure.Ctz.Index.{content_before}
use littlefs2_pure.Ctz.Contents.{contents}
use littlefs2_pure.Ctz.Cut.{HoldsFile}
use littlefs2_pure.File.{File, FsOps, read}
use littlefs2_pure.File.Reading
use littlefs2_pure.File.Reading.{IsReadable}

-- A file of two blocks, at the addresses 5 and 6.
abbrev pub file_block : ℕ → List ℕ
file_block zero = replicate 128 7
file_block (suc i) = to_le32 5 ++ replicate 124 9

abbrev pub file_chain : Storage
file_chain = record {
  read_size = 4;
  block_size = 128;
  block_count = 16;
  read = λ block off n. some (slice (file_block (block - 5)) off n);
}

file_chain-Holds : (i : ℕ) → i ≤ 1 → Holds file_chain (i + 5) (file_block i)
unfolding to_le32
file_chain-Holds zero l = record {
  unit_pos = omega arith;
  units = 32;
  whole_units = refl;
  full = refl;
  on_grid = λ k n l. refl;
}
file_chain-Holds (suc zero) l = record {
  unit_pos = omega arith;
  units = 32;
  whole_units = refl;
  full = refl;
  on_grid = λ k n l. refl;
}
file_chain-Holds (suc (suc i)) l = absurd (omega arith)

file_pointer :
    (i k : ℕ)
    → 0 < i
    → i ≤ 1
    → k ≤ trailing_zeros i
    → le32_at (file_block i) (4 * k) ≡ (i - 2 ^ k) + 5
unfolding trailing_zeros low_zeros le32_at to_le32
file_pointer zero k p l q = absurd (omega arith)
file_pointer (suc zero) zero p l q = refl
file_pointer (suc zero) (suc k) p l q = absurd (omega arith)
file_pointer (suc (suc i)) k p l q = absurd (omega arith)

pub file_chain-IsFile : IsFile file_chain (λ i. i + 5) file_block 1
file_chain-IsFile = record {
  on_device = λ i l. omega arith;
  holds = file_chain-Holds;
  points = file_pointer;
}

pub two_blocks : HoldsFile file_chain 6 200 (take 200 (contents 128 file_block 2))
unfolding block_count count_ones
two_blocks = record {
  addr = λ i. i + 5;
  block = file_block;
  top = 1;
  file = file_chain-IsFile;
  headed = refl;
  counted = refl;
  content = refl;
}

-- The device as it is, with writers that fail.
abbrev read_only_ops : FsOps (Unit {0})
read_only_ops = record {
  storage = λ st. file_chain;
  root = λ st. record { a = 0; b = 1 };
  write_inline_to_pair = λ p name bs st. (err io, st);
  stream_ctz_extend = λ c more st. (err io, st);
  shrink_ctz_head = λ h n m st. (err io, st);
  update_inline_at_id = λ p id bs st. (err io, st);
  commit_update_ctz = λ p id h n st. (err io, st);
  invalidate_alloc_cache = λ st. st;
}

abbrev at_hundred : File
at_hundred = record {
  parent = record { a = 0; b = 1 };
  id = 1;
  cursor = 100;
  head_block = 6;
  size = 200;
  dirty = false;
  options = record { read = true; write = false; append = false; truncate = false; create = false };
}

two_blocks-IsReadable : IsReadable file_chain 200 128
unfolding block_count count_ones content_before trailing_zeros
two_blocks-IsReadable = record {
  wide = omega arith;
  word = omega arith;
  blocks = omega arith;
  unit = omega arith;
  buffer = refl;
  small = omega arith;
  few = omega arith;
  fits = omega arith;
}

read-eq_example : read read_only_ops (replicate 50 0) 128 at_hundred tt ≡ (
  ok (copy_at (replicate 50 0) 0 (slice (take 200 (contents 128 file_block 2)) 100 50), 50),
  record at_hundred { cursor = 150 },
)
read-eq_example =
    Reading.read-eq read_only_ops at_hundred tt (replicate 50 0)
      (take 200 (contents 128 file_block 2)) 128 two_blocks-IsReadable two_blocks refl (omega arith)
