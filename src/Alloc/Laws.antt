-- ===== src/Alloc/Laws.antt =====
-- The bitmap as a set of blocks.
use littlefs2_pure.Prelude.{
  ℕ, zero, suc, subst, ==_iff, ◌/◌, ◌%◌, ◌^◌, ◌<◌, bit_or, ◌≡◌, refl, sym, ◌∙◌, inl, inr, Bool,
  true, false, ◌||◌, Bool-cases, arith, leb, ◌==◌, length, set, get_or-set, get_or-set_other,
  length-set, Result, ok, replicate,
}
use littlefs2_pure.Prelude.Bytes.{byte_at}
use littlefs2_pure.Prelude.Bits.Digits.{has_bit-bit_or}
use littlefs2_pure.Prelude.Words.{◌<<<◌}
use littlefs2_pure.Alloc.{Bitmap, mark, is_set, max_tracked_blocks}

-- A bitmap of the size that the source fixes.
pub record IsBitmap (m : Bitmap) : Type 0 where
  pub full : length m.bits ≡ 512

zeros : (n i : ℕ) → byte_at (replicate n 0) i ≡ 0
zeros zero i = refl
zeros (suc n) zero = refl
zeros (suc n) (suc i) = zeros n i

ok_injective : (m n : Bitmap) → ◌≡◌ {A = Result Bitmap} (ok m) (ok n) → m ≡ n
ok_injective m n e = cc

-- The bitmap after `mark`.
abbrev marked : ℕ → Bitmap → Bitmap
marked b m = record { bits = set m.bits (b / 8) (bit_or (byte_at m.bits (b / 8)) (1 <<< (b % 8))) }

or_true : (x : Bool) → (x || true) ≡ true
or_true true = refl
or_true false = refl

is_set-marked :
    (m : Bitmap) (b c : ℕ)
    → IsBitmap m
    → b < max_tracked_blocks
    → is_set (marked b m) c ≡ ((b == c) || is_set m c)
unfolding is_set
is_set-marked m b c w h =
    let byte = bit_or (byte_at m.bits (b / 8)) (1 <<< (b % 8)) in
    let one : 1 <<< (b % 8) ≡ 2 ^ (b % 8) = omega arith in
    elim (Bool-cases (leb max_tracked_blocks c)) [
      | inl e ↦ rw (e, or_true (b == c)) refl
      | inr e ↦ elim (Bool-cases (b / 8 == c / 8)) [
        | inl same ↦
            let at : b / 8 ≡ c / 8 = (==_iff (b / 8) (c / 8)).0 same in
            let bits_same : (b % 8 == c % 8) ≡ (b == c) = ground arith in
            rw
              (
                e,
                ← at,
                get_or-set m.bits (b / 8) byte 0 (omega (arith, w.full)),
                one,
                has_bit-bit_or (byte_at m.bits (b / 8)) (b % 8) (c % 8),
                bits_same,
              )
              refl
        | inr far ↦
            let other : (b == c) ≡ false = ground arith in
            rw
              (
                e,
                get_or-set_other m.bits (b / 8) (c / 8) byte 0 (λ q. absurd (ground arith)),
                other,
              )
              refl
      ]
    ]

-- A block below the cap is marked: it is in the bitmap afterwards, and every other block is in it
-- or not as before.
pub mark_lem :
    (m : Bitmap) (b : ℕ)
    → IsBitmap m
    → b < max_tracked_blocks
    → (m' : Bitmap) × (mark b m ≡ ok m')
      × IsBitmap m'
      × ((c : ℕ) → is_set m' c ≡ ((b == c) || is_set m c))
unfolding mark
mark_lem m b w h =
    let small : leb max_tracked_blocks b ≡ false = ground arith in
    (
      marked b m,
      rw small refl,
      record {
        full = omega (
          arith,
          w.full,
          length-set m.bits (b / 8) (bit_or (byte_at m.bits (b / 8)) (1 <<< (b % 8))),
        );
      },
      λ c. is_set-marked m b c w h,
    )

fails : (m m' : Bitmap) (b : ℕ) → leb max_tracked_blocks b ≡ true → mark b m ≡ ok m' → ⊥
unfolding mark
fails m m' b big e = ground arith

-- A mark that succeeds was of a block below the cap.
pub mark_ok :
    (m m' : Bitmap) (b : ℕ)
    → IsBitmap m
    → mark b m ≡ ok m'
    → (b < max_tracked_blocks) × IsBitmap m' × ((c : ℕ) → is_set m' c ≡ ((b == c) || is_set m c))
mark_ok m m' b w e = elim (Bool-cases (leb max_tracked_blocks b)) [
  | inl big ↦ absurd (fails m m' b big e)
  | inr small ↦
      let below : b < max_tracked_blocks = ground arith in
      let (n, made, keeps, law) = mark_lem m b w below in
      let same : n ≡ m' = ok_injective n m' (sym made ∙ e) in
      (
        below,
        subst IsBitmap same keeps,
        subst (λ (x : Bitmap). (c : ℕ) → is_set x c ≡ ((b == c) || is_set m c)) same law,
      )
]
