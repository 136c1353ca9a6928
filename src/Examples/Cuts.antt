-- ===== src/Examples/Cuts.antt =====
-- A device in memory whose block 2 is worn, and the shrink of a file on it.
use littlefs2_pure.Prelude.{ℕ, ◌-◌, true, not, ◌&&◌, some, List, ◌==◌, length, replicate}
use littlefs2_pure.Prelude.Bytes.{slice}
use littlefs2_pure.Storage.{Storage}
use littlefs2_pure.Ctz.Cut.{put}
use littlefs2_pure.Alloc.{empty}
use littlefs2_pure.File.Shrink.{Disk, Fs}
use littlefs2_pure.File.Shrunk
use littlefs2_pure.Examples.Reads.{file_block}

-- The content of each block.
abbrev Memory : Type 0
Memory = ℕ → List ℕ

abbrev memory_storage : Memory → Storage
memory_storage st = record {
  read_size = 4;
  block_size = 128;
  block_count = 16;
  read = λ block off n. some (slice (st block) off n);
}

-- It programs whole blocks, and an erase of block 2 fails.
abbrev memory_disk : Disk Memory
memory_disk = record {
  storage = memory_storage;
  read_device = λ st block off n. some (slice (st block) off n);
  erase = λ b st. (not (b == 2), put st b (replicate 128 0xff));
  program = λ b off bytes st. (off == 0 && length bytes == 128, put st b bytes);
  sync_device = λ st. (true, st);
}

abbrev mounted : Fs Memory
mounted = record {
  device = λ b. file_block (b - 5);
  root = record { a = 0; b = 1 };
  used_cache = some empty;
}
