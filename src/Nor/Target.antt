-- ===== src/Nor/Target.antt =====
-- A dirty window always has a target, so the `expect` of `flush` never fails.
use littlefs2_pure.Prelude.{
  ℕ, zero, suc, ◌+◌, ◌-◌, ◌*◌, ◌/◌, ◌≤◌, ◌<◌, ◌≡◌, Bool, true, false, not, ◌&&◌, Bool-cases, inl,
  inr, Option, none, some, List, [], ◌∷◌, ltb, ◌==◌, if◌then◌else◌, length, length-drop, take, drop,
  min, arith,
}
use littlefs2_pure.Nor.{
  Device, NorAlignedStorage, Outcome, done, failed, panicked, Method, after, is_cached, flush_to,
  flush, fill, load_window, merge, program_rounds, read, read_inner, read_device, erase, sync_inner,
  sync,
}

abbrev pub TargetOf : Bool → Option ℕ → Type 0
TargetOf true none = ⊥
TargetOf true (some block) = Unit
TargetOf false target = Unit

-- A dirty window has a target.
abbrev pub HasTarget : {σ : Type 0} → NorAlignedStorage σ → Type 0
HasTarget st = TargetOf st.dirty st.cached_block

-- An outcome that is no panic, where what is left after success has the property, and a dirty window
-- a target after a failure.
abbrev pub Ends :
    {σ A : Type 0} → (NorAlignedStorage σ → Type 0) → Outcome A × NorAlignedStorage σ → Type 0
Ends P (done a, st) = P st
Ends P (failed, st) = HasTarget st
Ends P (panicked, st) = ⊥

-- An outcome that is no panic, with an adapter whose dirty window has a target.
abbrev pub IsSafe : {σ A : Type 0} → Outcome A × NorAlignedStorage σ → Type 0
IsSafe r = Ends HasTarget r

after-Ends :
    {σ A B : Type 0} (P Q : NorAlignedStorage σ → Type 0) (r : Outcome A × NorAlignedStorage σ)
    (rest : A → Method σ B)
    → Ends P r
    → ((a : A) (st : NorAlignedStorage σ) → P st → Ends Q (rest a st))
    → Ends Q (after r rest)
unfolding after
after-Ends P Q (done a, st) rest h k = k a st h
after-Ends P Q (failed, st) rest h k = h
after-Ends P Q (panicked, st) rest h k = h

-- There is a target, dirty or not.
abbrev HasBlock : {σ : Type 0} → NorAlignedStorage σ → Type 0
HasBlock st = TargetOf true st.cached_block

is_cached-target :
    (cached : Option ℕ) (block : ℕ) → is_cached cached block ≡ true → TargetOf true cached
unfolding is_cached
is_cached-target none block h = cc
is_cached-target (some b) block h = tt

pub clean_target : (dirty : Bool) (cached : Option ℕ) → dirty ≡ false → TargetOf dirty cached
clean_target true cached h = cc
clean_target false cached h = tt

module _ {σ : Type 0} (device : Device σ) where
  flush_to-IsSafe :
      (target : Option ℕ) (st : NorAlignedStorage σ)
      → TargetOf true target
      → IsSafe (flush_to device target st)
  unfolding flush_to
  flush_to-IsSafe none st h = absurd h
  flush_to-IsSafe (some block) st h =
      elim (Bool-cases
        (device.program st.inner block st.cached_off (take device.prog_size st.cache)).0) [
          | inl e ↦ rw e tt
          | inr e ↦ rw e tt
        ]

  flush-IsSafe : (st : NorAlignedStorage σ) → HasTarget st → IsSafe (flush device st)
  unfolding flush
  flush-IsSafe st h = by_dirty st.dirty h
    where
      by_dirty :
          (dirty : Bool)
          → TargetOf dirty st.cached_block
          → IsSafe (if not dirty then (done tt, st) else flush_to device st.cached_block st)
      by_dirty true k = flush_to-IsSafe st.cached_block st k
      by_dirty false k = h

  fill-Ends :
      (block off : ℕ) (st : NorAlignedStorage σ)
      → HasTarget st
      → Ends HasBlock (fill device block off st)
  unfolding fill
  fill-Ends block off st h = elim (Bool-cases (device.read st.inner block off device.prog_size).0) [
    | inl e ↦ rw e tt
    | inr e ↦ rw e h
  ]

  load_window-Ends :
      (block off : ℕ) (st : NorAlignedStorage σ)
      → HasTarget st
      → Ends HasBlock (load_window device block off st)
  unfolding load_window
  load_window-Ends block off st h =
      elim (Bool-cases (is_cached st.cached_block block && st.cached_off == off)) [
        | inl e ↦ rw e (is_cached-target st.cached_block block (ground arith))
        | inr e ↦ rw e (
            after-Ends HasTarget HasBlock (flush device st) (λ u. fill device block off)
              (flush-IsSafe st h) (λ u. λ st1. λ h1. fill-Ends block off st1 h1))
      ]

  pub program_rounds-IsSafe :
      (fuel block off : ℕ) (bytes : List ℕ) (st : NorAlignedStorage σ)
      → 0 < device.prog_size
      → length bytes ≤ fuel
      → HasTarget st
      → IsSafe (program_rounds device fuel block off bytes st)
  unfolding program_rounds
  program_rounds-IsSafe zero block off [] st p le h = h
  program_rounds-IsSafe zero block off (b ∷ rest) st p le h = absurd (omega arith)
  program_rounds-IsSafe (suc fuel) block off [] st p le h = h
  program_rounds-IsSafe (suc fuel) block off (b ∷ rest) st p le h =
      let window_off = off / device.prog_size * device.prog_size in
      let count = min (device.prog_size - (off - window_off)) (length (b ∷ rest)) in
      let within_lt : off - window_off < device.prog_size = grind arith in
      let some_byte : 0 < count = omega arith in
      after-Ends HasBlock HasTarget (load_window device block window_off st) _
        (load_window-Ends block window_off st h)
        (λ u. λ st1. λ h1.
          program_rounds-IsSafe fuel block (off + count) (drop count (b ∷ rest))
            (record st1 {
              cache = merge (off - window_off) (take count (b ∷ rest)) st1.cache;
              dirty = true;
            })
            p (omega (arith, length-drop count (b ∷ rest))) h1)

  read_inner-IsSafe :
      (block off len : ℕ) (st : NorAlignedStorage σ)
      → HasTarget st
      → IsSafe (read_inner device block off len st)
  unfolding read_inner
  read_inner-IsSafe block off len st h =
      elim (Bool-cases (device.read_device st.inner block off len).0) [
        | inl e ↦ rw e h
        | inr e ↦ rw e h
      ]

  sync_inner-IsSafe : (st : NorAlignedStorage σ) → HasTarget st → IsSafe (sync_inner device st)
  unfolding sync_inner
  sync_inner-IsSafe st h = elim (Bool-cases (device.sync st.inner).0) [
    | inl e ↦ rw e h
    | inr e ↦ rw e h
  ]

  pub read-IsSafe :
      (block off len : ℕ) (st : NorAlignedStorage σ)
      → HasTarget st
      → IsSafe (read device block off len st)
  unfolding read
  read-IsSafe block off len st h = elim (Bool-cases (device.read st.inner block off len).0) [
    | inr e ↦ rw e h
    | inl e ↦ rw e (elim (Bool-cases (is_cached st.cached_block block)) [
      | inl on ↦ rw on h
      | inr off' ↦ rw off' h
    ])
  ]

  pub read_device-IsSafe :
      (block off len : ℕ) (st : NorAlignedStorage σ)
      → HasTarget st
      → IsSafe (read_device device block off len st)
  unfolding read_device
  read_device-IsSafe block off len st h =
      elim (Bool-cases (
        st.dirty
        && is_cached st.cached_block block
        && (ltb off (st.cached_off + device.prog_size) && ltb st.cached_off (off + len)))) [
          | inl e ↦ rw e (
              after-Ends HasTarget HasTarget (flush device st)
                (λ u. read_inner device block off len) (flush-IsSafe st h)
                (λ u. λ st1. λ h1. read_inner-IsSafe block off len st1 h1))
          | inr e ↦ rw e (read_inner-IsSafe block off len st h)
        ]

  pub erase-IsSafe :
      (block : ℕ) (st : NorAlignedStorage σ) → HasTarget st → IsSafe (erase device block st)
  unfolding erase
  erase-IsSafe block st h = elim (Bool-cases (is_cached st.cached_block block)) [
    | inl on ↦
        rw on
          (elim (Bool-cases (device.erase st.inner block).0) [ inl e ↦ rw e tt | inr e ↦ rw e tt ])
    | inr off ↦
        rw off
          (elim (Bool-cases (device.erase st.inner block).0) [ inl e ↦ rw e h | inr e ↦ rw e h ])
  ]

  pub sync-IsSafe : (st : NorAlignedStorage σ) → HasTarget st → IsSafe (sync device st)
  unfolding sync
  sync-IsSafe st h =
      after-Ends HasTarget HasTarget (flush device st) (λ u. sync_inner device) (flush-IsSafe st h)
        (λ u. λ st1. λ h1. sync_inner-IsSafe st1 h1)
