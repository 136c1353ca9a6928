-- ===== src/File/Shrink.antt =====
-- src/fs.rs: `shrink_ctz_head`, which cuts the chain of a file, with `verify_programmed`. The device
-- is a parameter with its state; a write returns whether it succeeded with the state that it leaves.
use littlefs2_pure.Prelude.{
  ℕ, zero, suc, ◌+◌, ◌-◌, ◌*◌, Bool, true, false, Option, none, some, List, [], ◌∷◌, ◌++◌, ltb,
  ◌==◌, if◌then◌else◌, length, take, replicate, get_or, Result, ok, err, io, out_of_range,
}
use littlefs2_pure.Prelude.Words.{u32, sub32}
use littlefs2_pure.Crc
use littlefs2_pure.Block.{BlockAddress, BlockPair, address_none}
use littlefs2_pure.Storage.{Storage, read_or_io}
use littlefs2_pure.Ctz.{
  block_count, block_index_at_offset, skip_pointers_in_block, content_bytes_in_block,
  max_ctz_blocks, collect_chain_blocks_buffered,
}
use littlefs2_pure.Alloc.{Bitmap}
use littlefs2_pure.Alloc.Cached.{alloc_blocks_cached}

pub record Disk (σ : Type 0) : Type 0 where
  pub storage : σ → Storage
  pub read_device : σ → ℕ → ℕ → ℕ → Option (List ℕ)
  pub erase : ℕ → σ → Bool × σ
  pub program : ℕ → ℕ → List ℕ → σ → Bool × σ
  pub sync_device : σ → Bool × σ

-- The fields of `Fs` that the writer uses.
pub record Fs (σ : Type 0) : Type 0 where
  pub device : σ
  pub root : BlockPair
  pub used_cache : Option Bitmap

-- `MAX_BAD_BLOCK_RETRIES`
abbrev pub max_bad_block_retries : ℕ
max_bad_block_retries = 8

-- The block with its first `keep` bytes, and erased behind them.
unfoldable pub kept : ℕ → ℕ → List ℕ → List ℕ
kept keep block_size old = take keep old ++ replicate (block_size - keep) 0xff

module _ {σ : Type 0} (disk : Disk σ) where
  open disk use {storage, read_device, erase, program, sync_device}

  unfoldable pub verify_programmed : σ → BlockAddress → ℕ → List ℕ → Bool
  verify_programmed st block off region = elim (read_device st block off (length region)) [
    | none ↦ false
    | some back ↦ Crc.update Crc.init back == Crc.update Crc.init region
  ]

  -- `erase(..).is_ok() && program(..).is_ok() && verify_programmed(..)`
  unfoldable pub try_block : BlockAddress → List ℕ → σ → Bool × σ
  unfolding verify_programmed
  try_block block image st =
      let erased = erase block st in
      elim erased.0 [
        | false ↦ (false, erased.1)
        | true ↦
            let sent = program block 0 image erased.1 in
            elim sent.0 [
              | false ↦ (false, sent.1)
              | true ↦ (verify_programmed sent.1 block 0 image, sent.1)
            ]
      ]

  module _ (len_a len_b : ℕ) where
    -- A round of the loop: the candidate, and whether the block was written.
    unfoldable pub attempt :
        List BlockAddress → BlockAddress → ℕ → Fs σ → Result (BlockAddress × Bool) × Fs σ
    unfolding alloc_blocks_cached read_or_io kept try_block
    attempt excluded old_tail keep fs =
        let s = storage fs.device in
        let out = alloc_blocks_cached s fs.root fs.used_cache excluded none 1 len_a len_b in
        let fs' : Fs σ = record fs { used_cache = out.1 } in
        elim out.0 [
          | err e ↦ (err e, fs')
          | ok blocks ↦ elim (read_or_io s old_tail 0 s.block_size) [
            | err e ↦ (err e, fs')
            | ok old ↦
                let candidate = get_or blocks 0 address_none in
                let tried = try_block candidate (kept keep s.block_size old) fs.device in
                (ok (candidate, tried.0), record fs' { device = tried.1 })
          ]
        ]

    -- The loop, with the retries that are left.
    unfoldable pub relocate :
        ℕ → List BlockAddress → BlockAddress → ℕ → Fs σ → Result BlockAddress × Fs σ
    unfolding attempt
    relocate zero excluded old_tail keep fs =
        let out = attempt excluded old_tail keep fs in
        elim out.0 [
          | err e ↦ (err e, out.1)
          | ok (c, true) ↦ (ok c, out.1)
          | ok (c, false) ↦ (err io, out.1)
        ]
    relocate (suc left) excluded old_tail keep fs =
        let out = attempt excluded old_tail keep fs in
        elim out.0 [
          | err e ↦ (err e, out.1)
          | ok (c, true) ↦ (ok c, out.1)
          | ok (c, false) ↦
              relocate left (excluded ++ (c ∷ [])) old_tail keep
                (record out.1 { used_cache = none })
        ]

    -- The end of a relocation that has found a block.
    unfoldable pub sync_after : Result BlockAddress × Fs σ → Result BlockAddress × Fs σ
    sync_after (err e, fs) = (err e, fs)
    sync_after (ok c, fs) =
        let synced = sync_device fs.device in
        ((if synced.0 then ok c else err io), record fs { device = synced.1 })

    -- The new tail, reused where it is full and relocated otherwise.
    unfoldable pub cut_tail : List BlockAddress → ℕ → Fs σ → Result BlockAddress × Fs σ
    unfolding block_index_at_offset skip_pointers_in_block content_bytes_in_block relocate
        sync_after
    cut_tail chain new_size fs =
        let bs = u32 (storage fs.device).block_size in
        let place = block_index_at_offset (sub32 new_size 1) bs in
        let header = 4 * skip_pointers_in_block place.0 in
        let bytes_used = sub32 (place.1 + 1) header in
        let old_tail = get_or chain place.0 address_none in
        if bytes_used == content_bytes_in_block place.0 bs
        then (ok old_tail, fs)
        else sync_after (relocate max_bad_block_retries chain old_tail (header + bytes_used) fs)

    unfoldable pub shrink_ctz_head : BlockAddress → ℕ → ℕ → Fs σ → Result BlockAddress × Fs σ
    unfolding block_count collect_chain_blocks_buffered cut_tail
    shrink_ctz_head head_block old_size new_size fs =
        let s = storage fs.device in
        let n_old = block_count old_size (u32 s.block_size) in
        if ltb max_ctz_blocks n_old
        then (err out_of_range, fs)
        else elim (collect_chain_blocks_buffered s head_block n_old (replicate n_old address_none)
            len_a) [ err e ↦ (err e, fs) | ok chain ↦ cut_tail chain new_size fs ]
