-- ===== src/Prelude/Int.antt =====
-- The signed counter of a walk: integers over the native numbers, with their order as tests.
use Prim.Native.Nat.{ℕ, ◌+◌, ◌-◌, suc}
use mathlib.Core.Bool.{Bool}
use littlefs2_pure.Prelude.Tests.{leb, ◌==◌, if◌then◌else◌}

-- `negsuc n` is -(n + 1).
pub data ℤ : Type 0 where
  pos : ℕ → ℤ
  negsuc : ℕ → ℤ

abbrev pub above : ℤ → ℕ
above (pos n) = n
above (negsuc n) = 0

abbrev pub below : ℤ → ℕ
below (pos n) = 0
below (negsuc n) = suc n

-- a - b, as an integer.
unfoldable pub sub_ℕ : ℕ → ℕ → ℤ
sub_ℕ a b = if leb b a then pos (a - b) else negsuc (b - a - 1)

unfoldable pub ◌+ℤ◌ : ℤ → ℤ → ℤ
unfolding sub_ℕ

infixl 65 ◌+ℤ◌
a +ℤ b = sub_ℕ (above a + above b) (below a + below b)

unfoldable pub ◌-ℤ◌ : ℤ → ℤ → ℤ
unfolding sub_ℕ

infixl 65 ◌-ℤ◌
a -ℤ b = sub_ℕ (above a + below b) (below a + above b)

unfoldable pub leb_ℤ : ℤ → ℤ → Bool
leb_ℤ a b = leb (above a + below b) (above b + below a)

unfoldable pub eq_ℤ : ℤ → ℤ → Bool
eq_ℤ a b = above a + below b == above b + below a
