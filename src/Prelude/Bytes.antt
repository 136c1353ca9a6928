-- ===== src/Prelude/Bytes.antt =====
-- Byte slices: indexing, ranges, `copy_from_slice`, and words as four bytes in either order.
use Prim.Native.Nat.{ℕ, ◌+◌, ◌*◌, ◌/◌, ◌%◌, ◌^◌, ◌<◌}
use mathlib.Core.Path.{◌≡◌, refl, ap, ◌∙◌}
use mathlib.Core.List.{List, [], ◌∷◌, ◌++◌}
use native.Mathlib.Omega.{arith}
use littlefs2_pure.Prelude.Lists.{length, get_or, take, drop, All, get_or-drop}

abbrev pub IsBytes : List ℕ → Type 0
IsBytes = All (λ b. b < 256)

-- `xs[i]`, at an index that the caller has checked
abbrev pub byte_at : List ℕ → ℕ → ℕ
byte_at xs i = get_or xs i 0

-- `&xs[off .. off + n]`
unfoldable pub slice : List ℕ → ℕ → ℕ → List ℕ
slice xs off n = take n (drop off xs)

-- `buf[off .. off + bytes.len()].copy_from_slice(bytes)`
unfoldable pub copy_at : List ℕ → ℕ → List ℕ → List ℕ
copy_at buf off bytes = take off buf ++ (bytes ++ drop (off + length bytes) buf)

-- `u32::from_le_bytes([xs[i], xs[i + 1], xs[i + 2], xs[i + 3]])`
unfoldable pub le32_at : List ℕ → ℕ → ℕ
le32_at xs i =
    byte_at xs i
    + byte_at xs (i + 1) * 2 ^ 8
    + byte_at xs (i + 2) * 2 ^ 16
    + byte_at xs (i + 3) * 2 ^ 24

-- `u32::from_be_bytes([xs[i], xs[i + 1], xs[i + 2], xs[i + 3]])`
unfoldable pub be32_at : List ℕ → ℕ → ℕ
be32_at xs i =
    byte_at xs i * 2 ^ 24
    + byte_at xs (i + 1) * 2 ^ 16
    + byte_at xs (i + 2) * 2 ^ 8
    + byte_at xs (i + 3)

-- `x.to_le_bytes()` and `x.to_be_bytes()` of a u32
unfoldable pub to_le32 : ℕ → List ℕ
to_le32 x = x % 256 ∷ x / 2 ^ 8 % 256 ∷ x / 2 ^ 16 % 256 ∷ x / 2 ^ 24 % 256 ∷ []

unfoldable pub to_be32 : ℕ → List ℕ
to_be32 x = x / 2 ^ 24 % 256 ∷ x / 2 ^ 16 % 256 ∷ x / 2 ^ 8 % 256 ∷ x % 256 ∷ []

pub length-to_le32 : (x : ℕ) → length (to_le32 x) ≡ 4
unfolding to_le32
length-to_le32 x = refl

pub length-to_be32 : (x : ℕ) → length (to_be32 x) ≡ 4
unfolding to_be32
length-to_be32 x = refl

byte_at-drop : (xs : List ℕ) (i k m : ℕ) → byte_at (drop i xs) (k + m) ≡ byte_at xs (i + k + m)
byte_at-drop xs i k m =
    get_or-drop xs i (k + m) 0
    ∙ ap (λ (j : ℕ). byte_at xs j) {x = i + (k + m)} {y = i + k + m} (omega arith)

pub le32_at-drop : (xs : List ℕ) (i k : ℕ) → le32_at (drop i xs) k ≡ le32_at xs (i + k)
unfolding le32_at
le32_at-drop xs i k = omega (
  arith,
  get_or-drop xs i k 0,
  byte_at-drop xs i k 1,
  byte_at-drop xs i k 2,
  byte_at-drop xs i k 3,
)

pub be32_at-drop : (xs : List ℕ) (i k : ℕ) → be32_at (drop i xs) k ≡ be32_at xs (i + k)
unfolding be32_at
be32_at-drop xs i k = omega (
  arith,
  get_or-drop xs i k 0,
  byte_at-drop xs i k 1,
  byte_at-drop xs i k 2,
  byte_at-drop xs i k 3,
)

-- A word written at the head of a list is read back.
pub le32_at-to_le32 : (x : ℕ) (rest : List ℕ) → x < 2 ^ 32 → le32_at (to_le32 x ++ rest) 0 ≡ x
unfolding le32_at to_le32
le32_at-to_le32 x rest h = omega arith

pub be32_at-to_be32 : (x : ℕ) (rest : List ℕ) → x < 2 ^ 32 → be32_at (to_be32 x ++ rest) 0 ≡ x
unfolding be32_at to_be32
be32_at-to_be32 x rest h = omega arith
