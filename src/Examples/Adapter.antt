-- ===== src/Examples/Adapter.antt =====
-- The buffering adapter over a device of one block of eight bytes.
use littlefs2_pure.Prelude.{ℕ, ◌≡◌, refl, true, false, none, some, List, [], ◌∷◌, replicate}
use littlefs2_pure.Prelude.Bytes.{copy_at, slice}
use littlefs2_pure.Nor.{Device, NorAlignedStorage, new_nor}
use littlefs2_pure.Nor.Target.{HasTarget}
use littlefs2_pure.Nor.Calls
use littlefs2_pure.Nor.Calls.{Call, run_calls}

abbrev eight : Device (List ℕ)
eight = record {
  prog_size = 4;
  block_size = 8;
  read = λ bytes block off len. (true, slice bytes off len, bytes);
  read_device = λ bytes block off len. (true, slice bytes off len, bytes);
  program = λ bytes block off chunk. (true, copy_at bytes off chunk);
  erase = λ bytes block. (true, replicate 8 0xff);
  sync = λ bytes. (true, bytes);
}

abbrev erased : List ℕ
erased = replicate 8 0xff

abbrev adapter : NorAlignedStorage (List ℕ)
adapter = record {
  inner = erased;
  cached_block = none;
  cached_off = 0;
  cache = replicate 512 0xff;
  dirty = false;
}

adapter_new : new_nor eight erased ≡ some adapter
unfolding new_nor
adapter_new = refl

-- A program across a window's edge, a read, an erase and a sync.
abbrev some_calls : List Call
some_calls =
    Call.program_call 0 3 (1 ∷ 2 ∷ [])
    ∷ Call.read_call 0 0 8
    ∷ Call.erase_call 0
    ∷ Call.sync_call
    ∷ []

run_calls_safe_example :
    (st : NorAlignedStorage (List ℕ)) × (run_calls eight some_calls adapter ≡ some st)
    × HasTarget st
run_calls_safe_example = Calls.run_calls_safe eight erased adapter some_calls adapter_new
