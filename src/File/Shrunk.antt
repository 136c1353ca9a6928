-- ===== src/File/Shrunk.antt =====
-- What `shrink_ctz_head` leaves: the chain as it was, and where it returns, a chain that holds the
-- front of the file's bytes.
use littlefs2_pure.Prelude.{
  ℕ, suc, ◌+◌, ◌-◌, ◌*◌, ◌^◌, ◌≤◌, ◌<◌, ◌≡◌, ◌≢◌, ◌⊎◌, sym, ap, ◌∙◌, subst, List, length, take,
  replicate, Result, ok, arith,
}
use littlefs2_pure.Prelude.Slices.{take-take}
use littlefs2_pure.Prelude.Bytes.{slice}
use littlefs2_pure.Block.{BlockAddress}
use littlefs2_pure.Storage.{Storage}
use littlefs2_pure.Storage.Range.{Holds}
use littlefs2_pure.Ctz.{block_count, skip_pointers_in_block}
use littlefs2_pure.Ctz.Index.{content_before}
use littlefs2_pure.Ctz.Contents.{contents}
use littlefs2_pure.Ctz.Ending.{EndsAt, pointer_in}
use littlefs2_pure.Ctz.Cut.{
  HoldsFile, take-contents, take-contents_same, put, put_at, put_off, put-IsFile, slice-front,
  le32_at-front,
}
use littlefs2_pure.Alloc.Granted.{CacheCovers}
use littlefs2_pure.File.Shrink.{Disk, Fs, kept}
use littlefs2_pure.File.Disk.{DiskLaws, KeepsChain}
use littlefs2_pure.File.Relocated.{nothing_live}

-- A chain at `h` that holds the first `new` bytes of a file: the file's own blocks before the last,
-- and at the end its own block, where it is exactly full, or a copy of the front of it at an address
-- outside the file's chain, erased behind the copy.
pub record IsCut (s : Storage) (head : BlockAddress) (old : ℕ) (bytes : List ℕ)
    (f : HoldsFile s head old bytes) (t : Storage) (new : ℕ) (h : BlockAddress) : Type 0 where
  pub cut : HoldsFile t h new (take new bytes)
  pub within : cut.top ≤ f.top
  pub before : (i : ℕ) → i < cut.top → (cut.addr i ≡ f.addr i) × (cut.block i ≡ f.block i)
  pub last :
      ((h ≡ f.addr cut.top)
        × (cut.block cut.top ≡ f.block cut.top)
        × (new ≡ content_before s.block_size (suc cut.top)))
      ⊎ (((i : ℕ) → i ≤ f.top → f.addr i ≢ h)
          × (cut.block cut.top
              ≡ kept
                  (4 * skip_pointers_in_block cut.top + (new - content_before s.block_size cut.top))
                  s.block_size
                  (f.block cut.top)))

module _ {σ : Type 0} (disk : Disk σ) (laws : DiskLaws disk) where
  -- What a shrink of a chain that holds `bytes` to `new` of them leaves: every block of the chain as
  -- it was, and where it returns a head, the cut chain there.
  pub record Shrinks (s : Storage) (head : BlockAddress) (old new : ℕ) (bytes : List ℕ)
      (f : HoldsFile s head old bytes) (out : Result BlockAddress × Fs σ) : Type 0 where
    pub keeps : (i : ℕ) → i ≤ f.top → Holds (disk.storage out.1.device) (f.addr i) (f.block i)
    pub still : HoldsFile (disk.storage out.1.device) head old bytes
    pub cache : CacheCovers nothing_live out.1.used_cache
    pub shrunk :
        (h : BlockAddress)
        → out.0 ≡ ok h
        → IsCut s head old bytes f (disk.storage out.1.device) new h

  module _ (fs : Fs σ) (head : BlockAddress) (old new len_a len_b : ℕ) (bytes : List ℕ)
      (f : HoldsFile (disk.storage fs.device) head old bytes)
      (wide : 128 ≤ (disk.storage fs.device).block_size)
      (word : (disk.storage fs.device).block_size < 2 ^ 32) (small : old < 2 ^ 32) (pos : 0 < new)
      (le : new ≤ old) (cached : CacheCovers nothing_live fs.used_cache)
      (few : suc f.top < 2 ^ 26) where
    open f use {addr, block, top}

    abbrev bs : ℕ
    bs = (disk.storage fs.device).block_size

    abbrev bc : ℕ
    bc = (disk.storage fs.device).block_count

    full : (j : ℕ) → j < suc top → length (block j) ≡ bs
    full j l = (f.file.holds j (omega arith)).full

    -- The front of the bytes in the first blocks.
    front :
        (n used : ℕ)
        → EndsAt bs new top n used
        → take new bytes ≡ take new (contents bs block (suc n))
    unfolding content_before
    front n used e =
        ap (take new) f.content
        ∙ take-take new old (contents bs block (suc top)) le
        ∙ take-contents bs wide word block (suc top) (suc n) new (omega (arith, e.within)) few full
            (omega (arith, e.bytes, e.room))

    -- The front with a copy of its last block.
    copied :
        (t : Storage) (c n used : ℕ)
        → KeepsChain t bs bc addr block top
        → EndsAt bs new top n used
        → c < bc
        → Holds t c (kept (4 * skip_pointers_in_block n + used) bs (block n))
        → HoldsFile t c new (take new bytes)
    unfolding kept
    copied t c n used k e on held =
        let keep = 4 * skip_pointers_in_block n + used in
        let more = replicate (bs - keep) 0xff in
        let image = kept keep bs (block n) in
        let fits_in : keep ≤ length (block n) =
          omega (arith, full n (omega (arith, e.within)), e.short) in
        let same =
          take-contents_same bs wide word block (put block n image) n used
            (omega (arith, e.within, few)) (λ j l. full j (omega (arith, e.within)))
            (λ j l. put_off block n image j l) e.room
            (ap (λ b. slice b (4 * skip_pointers_in_block n) used) (put_at block n image)
              ∙ slice-front (block n) more keep fits_in (4 * skip_pointers_in_block n) used
                  (omega arith)) in
        record {
          addr = put addr n c;
          block = put block n image;
          top = n;
          file =
              put-IsFile (disk.storage fs.device) t addr block top n f.file e.within c image
                (subst (λ m. c < m) (sym k.count) on) held k.held k.count
                (λ j p few'.
                  le32_at-front (block n) more keep fits_in (4 * j) (pointer_in n j used p few'));
          headed = put_at addr n c;
          counted = ap (block_count new) k.size ∙ e.counted;
          content =
              front n used e
              ∙ ap (λ m. take m (contents bs block (suc n))) e.bytes
              ∙ sym same
              ∙ ap (λ m. take m (contents bs (put block n image) (suc n))) (sym e.bytes)
              ∙ ap (λ b. take new (contents b (put block n image) (suc n))) (sym k.size);
        }
