-- ===== src/Geometry.antt =====
-- src/geometry.rs: the floors and grids that the constants of a `Storage` must meet.
use littlefs2_pure.Prelude.{
  ℕ, ◌%◌, ◌≤◌, ◌<◌, ◌≡◌, ◌↔◌, not, Option, none, some, arith, ltb, ◌==◌, if◌then◌else◌, Result, ok,
  err, geometry_mismatch,
}
use littlefs2_pure.Prelude.Words.{u32_max}

abbrev pub block_size_min : ℕ
block_size_min = 128

abbrev pub block_count_min : ℕ
block_count_min = 2

pub data GeometryFault : Type 0 where
  zero_read_size zero_prog_size prog_size_off_the_read_grid block_size_below_floor : GeometryFault
  block_size_off_the_prog_grid block_size_past_the_word_ceiling : GeometryFault
  block_count_below_root_pair : GeometryFault

-- The constants of the `Storage` trait.
pub record Device : Type 0 where
  pub read_size : ℕ
  pub prog_size : ℕ
  pub block_size : ℕ
  pub block_count : ℕ

pub fault_for : ℕ → ℕ → ℕ → ℕ → Option GeometryFault
fault_for read_size prog_size block_size block_count =
    if read_size == 0
    then some zero_read_size
    else if prog_size == 0
    then some zero_prog_size
    else if not (prog_size % read_size == 0)
    then some prog_size_off_the_read_grid
    else if ltb block_size block_size_min
    then some block_size_below_floor
    else if not (block_size % prog_size == 0)
    then some block_size_off_the_prog_grid
    else if ltb u32_max block_size
    then some block_size_past_the_word_ceiling
    else if ltb block_count block_count_min
    then some block_count_below_root_pair
    else none

pub fault : Device → Option GeometryFault
unfolding fault_for
fault d = fault_for d.read_size d.prog_size d.block_size d.block_count

pub validated : Option GeometryFault → Result (Unit {0})
validated none = ok tt
validated (some f) = err geometry_mismatch

pub validate : Device → Result (Unit {0})
unfolding fault validated
validate d = validated (fault d)

-- What the rest of the crate relies on.
pub record IsUsable (d : Device) : Type 0 where
  pub reads : 0 < d.read_size
  pub programs : 0 < d.prog_size
  pub prog_grid : d.prog_size % d.read_size ≡ 0
  pub block_floor : 128 ≤ d.block_size
  pub block_grid : d.block_size % d.prog_size ≡ 0
  pub word : d.block_size ≤ u32_max
  pub root_pair : 2 ≤ d.block_count

-- `validate` accepts a device exactly when all seven of its constraints hold.
pub validate_iff : (d : Device) → (validate d ≡ ok tt) ↔ IsUsable d
unfolding validate
validate_iff d = (λ h. ground arith, λ u. ground arith)
