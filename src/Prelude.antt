-- ===== src/Prelude.antt =====
-- Names that all the other modules share: those of the libraries, passed on, and those of the
-- children, which hold tests, lists, results, machine words, bit laws and little endian bytes, and integers.
mod Tests
mod Lists
mod Errors
mod Order
pub mod Bits
pub mod Bytes
pub mod Words
pub mod Counts
pub mod Slices
pub mod Int
pub mod Pigeonhole
pub use Tests.*
pub use Lists.*
pub use Errors.*
unfoldable pub use Order.{lt_wf}
pub use Prim.Native.Nat.{
  ℕ, zero, suc, ◌+◌, ◌-◌, ◌*◌, ◌/◌, ◌%◌, ◌^◌, ◌≤◌, ◌<◌, min, bit_and, bit_or, bit_xor,
}
pub use mathlib.Core.Path.{◌≡◌, refl, sym, ap, ◌∙◌, subst}
pub use mathlib.Core.Logic.{◌≢◌, ◌↔◌, ◌⊎◌, inl, inr}
pub use mathlib.Core.Bool.{Bool, true, false, not, ◌&&◌, ◌||◌}
pub use mathlib.Core.Option.{Option, none, some}
pub use mathlib.Core.List.{List, [], ◌∷◌, ◌++◌, map}
pub use native.Mathlib.Omega.{arith}
