-- ===== src/Nor.antt =====
-- src/nor.rs: the adapter that buffers one program window. The device under it is a parameter: its
-- state and what each call returns and leaves, for a call that fails also. A method takes the adapter
-- and returns an outcome with the adapter that it leaves; a failed `expect` is the outcome `panicked`.
-- Offsets are those of a block and do not overflow a u32.
pub mod Target
pub mod Calls
use littlefs2_pure.Prelude.{
  ℕ, zero, suc, ◌+◌, ◌-◌, ◌*◌, ◌/◌, ◌%◌, bit_and, Bool, true, false, not, ◌&&◌, ◌||◌, Option, none,
  some, List, [], ◌∷◌, ltb, ◌==◌, if◌then◌else◌, length, take, drop, set, get_or, replicate, min,
}
use littlefs2_pure.Prelude.Bytes.{copy_at, slice}

abbrev pub max_prog_size : ℕ
max_prog_size = 512

-- A device with its state: whether a call succeeds, the buffer after a read, and the state.
pub record Device (σ : Type 0) : Type 0 where
  pub prog_size : ℕ
  pub block_size : ℕ
  pub read : σ → ℕ → ℕ → ℕ → Bool × List ℕ × σ
  pub read_device : σ → ℕ → ℕ → ℕ → Bool × List ℕ × σ
  pub program : σ → ℕ → ℕ → List ℕ → Bool × σ
  pub erase : σ → ℕ → Bool × σ
  pub sync : σ → Bool × σ

pub record NorAlignedStorage (σ : Type 0) : Type 0 where
  pub inner : σ
  pub cached_block : Option ℕ
  pub cached_off : ℕ
  pub cache : List ℕ
  pub dirty : Bool

pub data Outcome (A : Type 0) : Type 0 where
  done : A → Outcome A
  failed : Outcome A
  panicked : Outcome A

abbrev pub Method : Type 0 → Type 0 → Type 0
Method σ A = NorAlignedStorage σ → Outcome A × NorAlignedStorage σ

-- `?` on the outcome, in the adapter that the first call leaves.
unfoldable pub after :
    {σ A B : Type 0}
    → Outcome A × NorAlignedStorage σ
    → (A → Method σ B)
    → Outcome B × NorAlignedStorage σ
after (done a, st) next = next a st
after (failed, st) next = (failed, st)
after (panicked, st) next = (panicked, st)

-- `cached_block == Some(block)`
unfoldable pub is_cached : Option ℕ → ℕ → Bool
is_cached none block = false
is_cached (some b) block = b == block

-- `self.cache[within + i] &= data[written + i]`
unfoldable pub merge : ℕ → List ℕ → List ℕ → List ℕ
merge within [] cache = cache
merge within (b ∷ rest) cache =
    merge (suc within) rest (set cache within (bit_and (get_or cache within 0) b))

module _ {σ : Type 0} (device : Device σ) where
  unfoldable pub new_nor : σ → Option (NorAlignedStorage σ)
  new_nor inner =
      if device.prog_size == 0 || ltb max_prog_size device.prog_size
      then none
      else if not (device.block_size % device.prog_size == 0)
      then none
      else some (record {
        inner = inner;
        cached_block = none;
        cached_off = 0;
        cache = replicate max_prog_size 0xff;
        dirty = false;
      })

  -- The program of a dirty window, after the flag is cleared.
  unfoldable pub flush_to : Option ℕ → Method σ (Unit {0})
  flush_to none st = (panicked, st)
  flush_to (some block) st =
      let (success, inner) =
        device.program st.inner block st.cached_off (take device.prog_size st.cache) in
      if success
      then (done tt, record st { inner = inner; dirty = false })
      else (failed, record st { inner = inner; dirty = false; cached_block = none })

  unfoldable pub flush : Method σ (Unit {0})
  unfolding flush_to
  flush st = if not st.dirty then (done tt, st) else flush_to st.cached_block st

  -- The read of a window into the cache; a read that fails leaves its buffer there too.
  unfoldable pub fill : ℕ → ℕ → Method σ (Unit {0})
  fill block window_off st =
      let (success, bytes, inner) = device.read st.inner block window_off device.prog_size in
      let cache = copy_at st.cache 0 bytes in
      if success
      then (
        done tt,
        record {
          inner = inner;
          cached_block = some block;
          cached_off = window_off;
          cache = cache;
          dirty = false;
        },
      )
      else (failed, record st { inner = inner; cache = cache })

  unfoldable pub load_window : ℕ → ℕ → Method σ (Unit {0})
  unfolding is_cached flush fill after
  load_window block window_off st =
      if is_cached st.cached_block block && st.cached_off == window_off
      then (done tt, st)
      else after (flush st) (λ u. fill block window_off)

  -- The rounds of `program`, for the bytes that are left. A round takes one byte at least; fuel that
  -- ran out would count as a panic.
  unfoldable pub program_rounds : ℕ → ℕ → ℕ → List ℕ → Method σ (Unit {0})
  unfolding load_window merge after
  program_rounds zero block cur_off [] st = (done tt, st)
  program_rounds zero block cur_off (b ∷ rest) st = (panicked, st)
  program_rounds (suc fuel) block cur_off [] st = (done tt, st)
  program_rounds (suc fuel) block cur_off (b ∷ rest) st =
      let window_off = cur_off / device.prog_size * device.prog_size in
      let within = cur_off - window_off in
      let count = min (device.prog_size - within) (length (b ∷ rest)) in
      after (load_window block window_off st) (λ u st1.
        program_rounds fuel block (cur_off + count) (drop count (b ∷ rest))
          (record st1 { cache = merge within (take count (b ∷ rest)) st1.cache; dirty = true }))

  unfoldable pub program : ℕ → ℕ → List ℕ → Method σ (Unit {0})
  unfolding program_rounds
  program block off bytes st = program_rounds (length bytes) block off bytes st

  -- The bytes of the cache that a read overlaps, over those of the device.
  unfoldable pub splice_cache : ℕ → NorAlignedStorage σ → List ℕ → List ℕ
  splice_cache off st bytes =
      let start = if ltb off st.cached_off then st.cached_off else off in
      let stop = min (off + length bytes) (st.cached_off + device.prog_size) in
      if ltb start stop
      then copy_at bytes (start - off) (slice st.cache (start - st.cached_off) (stop - start))
      else bytes

  unfoldable pub read : ℕ → ℕ → ℕ → Method σ (List ℕ)
  unfolding is_cached splice_cache
  read block off len st =
      let (success, bytes, inner) = device.read st.inner block off len in
      let st' : NorAlignedStorage σ = record st { inner = inner } in
      if not success
      then (failed, st')
      else if is_cached st.cached_block block
      then (done (splice_cache off st' bytes), st')
      else (done bytes, st')

  unfoldable pub read_inner : ℕ → ℕ → ℕ → Method σ (List ℕ)
  read_inner block off len st =
      let (success, bytes, inner) = device.read_device st.inner block off len in
      if success
      then (done bytes, record st { inner = inner })
      else (failed, record st { inner = inner })

  unfoldable pub read_device : ℕ → ℕ → ℕ → Method σ (List ℕ)
  unfolding is_cached flush read_inner after
  read_device block off len st =
      if st.dirty
        && is_cached st.cached_block block
        && (ltb off (st.cached_off + device.prog_size) && ltb st.cached_off (off + len))
      then after (flush st) (λ u. read_inner block off len)
      else read_inner block off len st

  unfoldable pub erase : ℕ → Method σ (Unit {0})
  unfolding is_cached
  erase block st =
      let st' : NorAlignedStorage σ =
        if is_cached st.cached_block block
        then record st { cached_block = none; dirty = false }
        else st in
      let (success, inner) = device.erase st'.inner block in
      (if success then done tt else failed, record st' { inner = inner })

  unfoldable pub sync_inner : Method σ (Unit {0})
  sync_inner st =
      let (success, inner) = device.sync st.inner in
      (if success then done tt else failed, record st { inner = inner })

  unfoldable pub sync : Method σ (Unit {0})
  unfolding flush sync_inner after
  sync st = after (flush st) (λ u. sync_inner)

  -- The device, once the pending window is written.
  unfoldable pub into_inner : Method σ σ
  unfolding flush after
  into_inner st = after (flush st) (λ u st1. (done st1.inner, st1))
