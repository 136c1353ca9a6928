-- ===== src/File/Disk.antt =====
-- What the writers of a chain rely on the device for, and a chain that the device keeps.
use littlefs2_pure.Prelude.{ℕ, ◌≤◌, ◌<◌, ◌≡◌, ◌≢◌, ◌∙◌, true, some, List, length}
use littlefs2_pure.Crc
use littlefs2_pure.Block.{BlockAddress}
use littlefs2_pure.Storage.{Storage}
use littlefs2_pure.Storage.Range.{Holds}
use littlefs2_pure.File.Shrink.{Disk}

-- The constants of the device stay.
abbrev pub SameShape : Storage → Storage → Type 0
SameShape s t = (t.block_size ≡ s.block_size) × (t.block_count ≡ s.block_count)

pub record DiskLaws {σ : Type 0} (disk : Disk σ) : Type 0 where
  pub erase_shape :
      (st : σ) (b : ℕ) → SameShape (disk.storage st) (disk.storage (disk.erase b st).1)
  pub program_shape :
      (st : σ) (b off : ℕ) (bytes : List ℕ)
      → SameShape (disk.storage st) (disk.storage (disk.program b off bytes st).1)
  pub sync_shape : (st : σ) → SameShape (disk.storage st) (disk.storage (disk.sync_device st).1)
  -- An erase and a program, whether they succeed or fail, leave the other blocks.
  pub erase_apart :
      (st : σ) (b c : ℕ) (bytes : List ℕ)
      → c ≢ b
      → Holds (disk.storage st) c bytes
      → Holds (disk.storage (disk.erase b st).1) c bytes
  pub program_apart :
      (st : σ) (b off : ℕ) (image : List ℕ) (c : ℕ) (bytes : List ℕ)
      → c ≢ b
      → Holds (disk.storage st) c bytes
      → Holds (disk.storage (disk.program b off image st).1) c bytes
  pub sync_keeps :
      (st : σ) (c : ℕ) (bytes : List ℕ)
      → Holds (disk.storage st) c bytes
      → Holds (disk.storage (disk.sync_device st).1) c bytes
  -- A block that was erased and programmed as a whole, and that reads back from the device with the
  -- CRC of what was sent, holds what was sent.
  pub programmed :
      (st : σ) (b : ℕ) (image back : List ℕ)
      → b < (disk.storage st).block_count
      → length image ≡ (disk.storage st).block_size
      → (disk.erase b st).0 ≡ true
      → (disk.program b 0 image (disk.erase b st).1).0 ≡ true
      → disk.read_device (disk.program b 0 image (disk.erase b st).1).1 b 0 (length image)
        ≡ some back
      → Crc.update Crc.init back ≡ Crc.update Crc.init image
      → Holds (disk.storage (disk.program b 0 image (disk.erase b st).1).1) b image

-- A chain on a device of `bs` and `bc`.
pub record KeepsChain (s : Storage) (bs bc : ℕ) (addr : ℕ → BlockAddress) (block : ℕ → List ℕ)
    (top : ℕ) : Type 0 where
  pub held : (i : ℕ) → i ≤ top → Holds s (addr i) (block i)
  pub size : s.block_size ≡ bs
  pub count : s.block_count ≡ bc

pub moved :
    (s t : Storage) (bs bc : ℕ) (addr : ℕ → BlockAddress) (block : ℕ → List ℕ) (top : ℕ)
    → SameShape s t
    → ((i : ℕ) → i ≤ top → Holds s (addr i) (block i) → Holds t (addr i) (block i))
    → KeepsChain s bs bc addr block top
    → KeepsChain t bs bc addr block top
moved s t bs bc addr block top shape keep k = record {
  held = λ i l. keep i l (k.held i l);
  size = shape.0 ∙ k.size;
  count = shape.1 ∙ k.count;
}
