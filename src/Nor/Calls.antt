-- ===== src/Nor/Calls.antt =====
-- Sequences of calls on the adapter.
use littlefs2_pure.Prelude.{
  ℕ, ◌<◌, ◌≡◌, refl, false, Option, none, some, List, [], ◌∷◌, length, arith,
}
use littlefs2_pure.Nor.{
  Device, NorAlignedStorage, new_nor, Outcome, done, failed, panicked, program_rounds, program,
  read, read_device, erase, sync,
}
use littlefs2_pure.Nor.Target.{
  HasTarget, IsSafe, clean_target, read-IsSafe, read_device-IsSafe, erase-IsSafe, sync-IsSafe,
  program_rounds-IsSafe,
}

-- The data of a call on the adapter.
pub data Call : Type 0 where
  read_call read_device_call : ℕ → ℕ → ℕ → Call
  program_call : ℕ → ℕ → List ℕ → Call
  erase_call : ℕ → Call
  sync_call : Call

module _ {σ : Type 0} (device : Device σ) where
  -- The adapter after a call, unless the call panicked.
  abbrev pub settled : {A : Type 0} → Outcome A × NorAlignedStorage σ → Option (NorAlignedStorage σ)
  settled (done a, st) = some st
  settled (failed, st) = some st
  settled (panicked, st) = none

  unfoldable pub run_call : Call → NorAlignedStorage σ → Option (NorAlignedStorage σ)
  unfolding read read_device program erase sync
  run_call (read_call block off len) st = settled (read device block off len st)
  run_call (read_device_call block off len) st = settled (read_device device block off len st)
  run_call (program_call block off bytes) st = settled (program device block off bytes st)
  run_call (erase_call block) st = settled (erase device block st)
  run_call sync_call st = settled (sync device st)

  unfoldable pub run_calls : List Call → NorAlignedStorage σ → Option (NorAlignedStorage σ)
  unfolding run_call
  run_calls [] st = some st
  run_calls (c ∷ rest) st = elim (run_call c st) [ none ↦ none | some st' ↦ run_calls rest st' ]

  abbrev IsGood : Option (NorAlignedStorage σ) → Type 0
  IsGood o = (st : NorAlignedStorage σ) × (o ≡ some st) × HasTarget st

  settled-IsGood :
      {A : Type 0} (r : Outcome A × NorAlignedStorage σ) → IsSafe r → IsGood (settled r)
  settled-IsGood (done a, st) h = (st, refl, h)
  settled-IsGood (failed, st) h = (st, refl, h)
  settled-IsGood (panicked, st) h = absurd h

  run_call-IsGood :
      (c : Call) (st : NorAlignedStorage σ)
      → 0 < device.prog_size
      → HasTarget st
      → IsGood (run_call c st)
  unfolding run_call program
  run_call-IsGood (read_call block off len) st p h =
      settled-IsGood (read device block off len st) (read-IsSafe device block off len st h)
  run_call-IsGood (read_device_call block off len) st p h =
      settled-IsGood (read_device device block off len st)
        (read_device-IsSafe device block off len st h)
  run_call-IsGood (program_call block off bytes) st p h =
      settled-IsGood (program_rounds device (length bytes) block off bytes st)
        (program_rounds-IsSafe device (length bytes) block off bytes st p (omega arith) h)
  run_call-IsGood (erase_call block) st p h =
      settled-IsGood (erase device block st) (erase-IsSafe device block st h)
  run_call-IsGood sync_call st p h = settled-IsGood (sync device st) (sync-IsSafe device st h)

  run_calls-IsGood :
      (calls : List Call) (st : NorAlignedStorage σ)
      → 0 < device.prog_size
      → HasTarget st
      → IsGood (run_calls calls st)
  unfolding run_calls
  run_calls-IsGood [] st p h = (st, refl, h)
  run_calls-IsGood (c ∷ rest) st p h =
      let (st1, one, h1) = run_call-IsGood c st p h in
      let (st2, more, h2) = run_calls-IsGood rest st1 p h1 in (st2, rw (one, run_calls) more, h2)

  -- From a new adapter, any calls in any order, failures of the device included, come to an end
  -- without the failed `expect` of `flush`, and a window that is dirty then has a target.
  pub run_calls_safe :
      (inner : σ) (st : NorAlignedStorage σ) (calls : List Call)
      → new_nor device inner ≡ some st
      → (st' : NorAlignedStorage σ) × (run_calls calls st ≡ some st') × HasTarget st'
  unfolding new_nor
  run_calls_safe inner st calls e =
      let off : st.dirty ≡ false = ground arith in
      run_calls-IsGood calls st (ground arith) (clean_target st.dirty st.cached_block off)
