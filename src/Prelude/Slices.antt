-- ===== src/Prelude/Slices.antt =====
-- Ranges of ranges: a part of a slice, two slices that meet, and the length of a slice.
use Prim.Native.Nat.{ℕ, zero, suc, ◌+◌, ◌-◌, ◌≤◌}
use mathlib.Core.Path.{◌≡◌, refl, ap, ◌∙◌}
use mathlib.Core.List.{List, [], ◌∷◌, ◌++◌}
use native.Mathlib.Omega.{arith}
use littlefs2_pure.Prelude.Lists.{length, take, drop, length-take, length-drop, drop-drop}
use littlefs2_pure.Prelude.Bytes.{slice}

module _ {ℓ} {A : Type ℓ} where
  pub take-take : (m n : ℕ) (xs : List A) → m ≤ n → take m (take n xs) ≡ take m xs
  take-take zero n xs h = refl
  take-take (suc m) zero xs h = absurd (omega arith)
  take-take (suc m) (suc n) [] h = refl
  take-take (suc m) (suc n) (x ∷ xs) h = ap (λ t. x ∷ t) (take-take m n xs (omega arith))

  drop-take : (m n p : ℕ) (xs : List A) → p ≡ m + n → drop m (take p xs) ≡ take n (drop m xs)
  drop-take zero n p xs h = ap (λ (k : ℕ). take k xs) (h ∙ omega arith)
  drop-take (suc m) n zero xs h = absurd (omega arith)
  drop-take (suc m) zero (suc p) [] h = refl
  drop-take (suc m) (suc n) (suc p) [] h = refl
  drop-take (suc m) n (suc p) (x ∷ xs) h = drop-take m n p xs (omega arith)

  take-add : (m n p : ℕ) (xs : List A) → p ≡ m + n → take m xs ++ take n (drop m xs) ≡ take p xs
  take-add zero n p xs h = ap (λ (k : ℕ). take k xs) (omega arith)
  take-add (suc m) n zero xs h = absurd (omega arith)
  take-add (suc m) zero (suc p) [] h = refl
  take-add (suc m) (suc n) (suc p) [] h = refl
  take-add (suc m) n (suc p) (x ∷ xs) h = ap (λ t. x ∷ t) (take-add m n p xs (omega arith))

pub slice-slice :
    (xs : List ℕ) (a n i m : ℕ) → i + m ≤ n → slice (slice xs a n) i m ≡ slice xs (a + i) m
unfolding slice
slice-slice xs a n i m h =
    let inner : drop i (take n (drop a xs)) ≡ take (n - i) (drop i (drop a xs)) =
      drop-take i (n - i) n (drop a xs) (omega arith) in
    rw (inner, drop-drop i a xs) (take-take m (n - i) (drop (a + i) xs) (omega arith))

pub slice-append :
    (xs : List ℕ) (a m n : ℕ) → slice xs a m ++ slice xs (a + m) n ≡ slice xs a (m + n)
unfolding slice
slice-append xs a m n = rw (← drop-drop m a xs) (take-add m n (m + n) (drop a xs) refl)

pub length-slice : (xs : List ℕ) (a n : ℕ) → a + n ≤ length xs → length (slice xs a n) ≡ n
unfolding slice
length-slice xs a n h = omega (arith, length-take n (drop a xs), length-drop a xs)
