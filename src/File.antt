-- ===== src/File.antt =====
-- src/file.rs: the handle of an open file. What a handle asks of the file system is a record of
-- operations on the mounted state: the device and the root pair, which the reading side uses, and
-- the writers of src/fs.rs. A method returns its result with the handle and the state that it
-- leaves, also where it fails.
pub mod Options
pub mod Open
pub mod Lengths
pub mod Session
pub mod Reading
pub mod Shrink
pub mod Disk
pub mod Relocated
pub mod Shrunk
use littlefs2_pure.Prelude.{
  ℕ, zero, suc, ◌+◌, ◌-◌, min, Bool, true, false, not, ◌&&◌, ◌||◌, Option, none, some, List, [],
  ltb, leb, ◌==◌, if◌then◌else◌, length, take, drop, replicate, ◌++◌, Result, ok, err, invalid_path,
  geometry_mismatch, out_of_range, corrupt, not_found, already_exists,
}
use littlefs2_pure.Prelude.Words.{u32, u32_max}
use littlefs2_pure.Prelude.Int.{ℤ, pos, above, ◌+ℤ◌, leb_ℤ}
use littlefs2_pure.Block.{BlockAddress, BlockPair, address_none}
use littlefs2_pure.Storage.{Storage}
use littlefs2_pure.Tag.Kind.{TagType, inline_struct, ctz_struct}
use littlefs2_pure.Ctz.{CtzStruct, from_bytes, read_ctz_at}
use littlefs2_pure.Dir.{Resolved, lookup_checked}
use littlefs2_pure.FilePath.{FilePath}
use littlefs2_pure.Chase.Forest.{fetch_pair}
use littlefs2_pure.Resolve.{
  Run, stuck, panics, returns, and_then, ChainSeek, found, absent, is_directory, resolve_parent,
  seek_entry_in_chain,
}
use littlefs2_pure.File.Options.{OpenOptions, writable}

pub data SeekFrom : Type 0 where
  start : ℕ → SeekFrom
  current : ℤ → SeekFrom
  from_end : ℤ → SeekFrom

-- The handle, without its borrow of the file system.
pub record File : Type 0 where
  pub parent : BlockPair
  pub id : ℕ
  pub cursor : ℕ
  pub head_block : BlockAddress
  pub size : ℕ
  pub dirty : Bool
  pub options : OpenOptions

-- What the handle uses of `Fs`; the writers take the state and return it with their result.
pub record FsOps (σ : Type 0) : Type 0 where
  pub storage : σ → Storage
  pub root : σ → BlockPair
  pub write_inline_to_pair : BlockPair → List ℕ → List ℕ → σ → Result (Unit {0}) × σ
  pub stream_ctz_extend : CtzStruct → List ℕ → σ → Result (BlockAddress × ℕ) × σ
  pub shrink_ctz_head : BlockAddress → ℕ → ℕ → σ → Result BlockAddress × σ
  pub update_inline_at_id : BlockPair → ℕ → List ℕ → σ → Result (Unit {0}) × σ
  pub commit_update_ctz : BlockPair → ℕ → BlockAddress → ℕ → σ → Result (Unit {0}) × σ
  pub invalidate_alloc_cache : σ → σ

unfoldable pub seek_target : SeekFrom → File → ℤ
seek_target (start p) f = pos p
seek_target (current d) f = pos f.cursor +ℤ d
seek_target (from_end d) f = pos f.size +ℤ d

-- `File::seek`. Without overflow checks, a sum past the range of an i64 wraps to a negative number,
-- which is refused like the sum; a build with the checks panics there.
unfoldable pub seek : SeekFrom → File → Result ℕ × File
unfolding seek_target
seek from f =
    let new_pos = seek_target from f in
    if not (leb_ℤ (pos 0) new_pos && leb_ℤ new_pos (pos u32_max))
    then (err out_of_range, f)
    else (ok (above new_pos), record f { cursor = above new_pos })

-- `ZERO_CHUNK.len()`
abbrev pub zero_chunk : ℕ
zero_chunk = 1024

module _ {σ : Type 0} (ops : FsOps σ) where
  open ops use {
    storage, root, write_inline_to_pair, stream_ctz_extend, shrink_ctz_head, update_inline_at_id,
    commit_update_ctz, invalidate_alloc_cache,
  }

  -- The outcome of `read_ctz_at` on `out[..taken]`, with the rest of the buffer behind it.
  unfoldable pub after_read : File → List ℕ → ℕ → Result (List ℕ × ℕ) → Result (List ℕ × ℕ) × File
  after_read f out taken (err e) = (err e, f)
  after_read f out taken (ok r) =
      (ok (r.0 ++ drop taken out, taken), record f { cursor = u32 (f.cursor + taken) })

  -- `File::read`, with the length of the buffer for blocks.
  unfoldable pub read : List ℕ → ℕ → File → σ → Result (List ℕ × ℕ) × File
  unfolding after_read
  read out len_a f st =
      let taken = min (length out) (f.size - f.cursor) in
      let chain : CtzStruct = record { head_block = f.head_block; size = f.size } in
      if not f.options.read
      then (err invalid_path, f)
      else if not (len_a == (storage st).block_size)
      then (err geometry_mismatch, f)
      else if length out == 0 || leb f.size f.cursor
      then (ok (out, 0), f)
      else if f.head_block == address_none
      then (ok (out, 0), f)
      else after_read f out taken (read_ctz_at (storage st) chain f.cursor (take taken out) len_a)

  unfoldable pub bad_buffers : ℕ → ℕ → σ → Bool
  bad_buffers len_a len_b st =
      not (len_a == (storage st).block_size) || not (len_b == (storage st).block_size)

  -- What a write leaves of the handle, by the outcome of the extension.
  unfoldable pub after_extend : ℕ → File → Result (BlockAddress × ℕ) × σ → Result ℕ × File × σ
  after_extend n f out = elim out.0 [
    | err e ↦ (err e, f, out.1)
    | ok r ↦ (ok n, record f { head_block = r.0; size = r.1; cursor = r.1; dirty = true }, out.1)
  ]

  -- `File::write`
  unfoldable pub write : List ℕ → ℕ → ℕ → File → σ → Result ℕ × File × σ
  unfolding bad_buffers writable after_extend
  write bytes len_a len_b f st =
      let at_end : File = if f.options.append then record f { cursor = f.size } else f in
      let chain : CtzStruct = record { head_block = f.head_block; size = f.size } in
      if not (writable f.options)
      then (err invalid_path, f, st)
      else if bad_buffers len_a len_b st
      then (err geometry_mismatch, f, st)
      else if length bytes == 0
      then (ok 0, f, st)
      else if not (at_end.cursor == at_end.size)
      then (err out_of_range, at_end, st)
      else after_extend (length bytes) at_end (stream_ctz_extend chain bytes st)

  -- `while remaining > 0`; `none` means that the fuel ran out.
  unfoldable pub zero_fill : ℕ → ℕ → File → σ → Option (Result (Unit {0}) × File × σ)
  zero_fill zero remaining f st = none
  zero_fill (suc fuel) remaining f st = elim (remaining == 0) [
    | true ↦ some (ok tt, f, st)
    | false ↦
        let chunk = min remaining zero_chunk in
        let chain : CtzStruct = record { head_block = f.head_block; size = f.size } in
        let out = stream_ctz_extend chain (replicate chunk 0) st in
        elim out.0 [
          | err e ↦ some (err e, f, out.1)
          | ok r ↦
              zero_fill fuel (remaining - chunk) (record f { head_block = r.0; size = r.1 }) out.1
        ]
  ]

  -- The three arms of the comparison in `set_len`.
  unfoldable pub set_empty : File → σ → Option (Result (Unit {0}) × File × σ)
  set_empty f st = some (
    ok tt,
    record f { head_block = address_none; size = 0; cursor = min f.cursor 0; dirty = true },
    st,
  )

  unfoldable pub after_shrink :
      ℕ → File → Result BlockAddress × σ → Option (Result (Unit {0}) × File × σ)
  after_shrink new_size f out = elim out.0 [
    | err e ↦ some (err e, f, out.1)
    | ok h ↦ some (
      ok tt,
      record f { head_block = h; size = new_size; cursor = min f.cursor new_size; dirty = true },
      out.1,
    )
  ]

  -- What follows the loop, from the cursor that was saved.
  unfoldable pub after_fill :
      ℕ → Option (Result (Unit {0}) × File × σ) → Option (Result (Unit {0}) × File × σ)
  after_fill saved none = none
  after_fill saved (some (err e, f, st)) = some (err e, f, st)
  after_fill saved (some (ok u, f, st)) =
      some (ok tt, record f { cursor = min saved f.size; dirty = true }, st)

  unfoldable pub grow : ℕ → File → σ → Option (Result (Unit {0}) × File × σ)
  unfolding zero_fill after_fill
  grow new_size f st =
      after_fill f.cursor
        (zero_fill (suc (new_size - f.size)) (new_size - f.size) (record f { cursor = f.size }) st)

  -- `File::set_len`
  unfoldable pub set_len : ℕ → ℕ → ℕ → File → σ → Option (Result (Unit {0}) × File × σ)
  unfolding bad_buffers writable set_empty after_shrink grow
  set_len new_size len_a len_b f st =
      if not (writable f.options)
      then some (err invalid_path, f, st)
      else if bad_buffers len_a len_b st
      then some (err geometry_mismatch, f, st)
      else if new_size == f.size
      then some (ok tt, f, st)
      else if ltb f.size new_size
      then grow new_size f st
      else if new_size == 0
      then set_empty f st
      else after_shrink new_size f (shrink_ctz_head f.head_block f.size new_size st)

  -- The end of `sync`, by the outcome of its commit.
  unfoldable pub after_commit : File → Result (Unit {0}) × σ → Result (Unit {0}) × File × σ
  after_commit f out = elim out.0 [
    | err e ↦ (err e, f, out.1)
    | ok u ↦ (ok tt, record f { dirty = false }, invalidate_alloc_cache out.1)
  ]

  -- `File::sync`
  unfoldable pub sync : ℕ → ℕ → File → σ → Result (Unit {0}) × File × σ
  unfolding bad_buffers after_commit
  sync len_a len_b f st =
      if not f.dirty
      then (ok tt, f, st)
      else if bad_buffers len_a len_b st
      then (err geometry_mismatch, f, st)
      else if f.head_block == address_none
      then after_commit f (update_inline_at_id f.parent f.id [] st)
      else after_commit f (commit_update_ctz f.parent f.id f.head_block f.size st)

  -- `File::close`, which drops the handle.
  unfoldable pub close : ℕ → ℕ → File → σ → Result (Unit {0}) × σ
  unfolding sync
  close len_a len_b f st = let out = sync len_a len_b f st in (out.0, out.2)
