-- ===== src/Storage/Range.antt =====
-- What `read_range` reads: whatever the grid, the bytes of the block in the range, from reads at
-- and of multiples of the grid's unit only.
use littlefs2_pure.Prelude.{
  ℕ, zero, suc, ◌+◌, ◌-◌, ◌*◌, ◌/◌, ◌%◌, ◌≤◌, ◌<◌, min, ◌≡◌, refl, sym, ap, ◌∙◌, true, false, ◌&&◌,
  ◌||◌, some, List, [], ◌∷◌, ◌++◌, arith, ltb, leb, ◌==◌, if◌then◌else◌, length, drop, Option-cases,
  Bool-cases, inl, inr, ok, Bool, subst,
}
use native.Mathlib.Nat.{
  div-add-mod', mod-lt, lt-div-mul-add, div-mul-le_self, mul-mod_left, le-div_iff_mul-le, mod_self,
  mul-le-mul_right, div-lt_iff_lt-mul,
}
use littlefs2_pure.Prelude.Bytes.{slice}
use littlefs2_pure.Prelude.Slices.{take-take, slice-slice, slice-append, length-slice}
use littlefs2_pure.Storage.{
  Storage, read_or_io, covering, read_lead, read_whole, read_rest, read_parts, read_covering,
  read_range,
}

-- Block `block` of the device holds `bytes`: a read at a multiple of the unit, of a multiple of it,
-- inside the block returns the block's bytes there.
pub record Holds (s : Storage) (block : ℕ) (bytes : List ℕ) : Type 0 where
  pub unit_pos : 0 < s.read_size
  pub units : ℕ
  pub whole_units : s.block_size ≡ units * s.read_size
  pub full : length bytes ≡ s.block_size
  pub on_grid :
      (k n : ℕ)
      → k * s.read_size + n * s.read_size ≤ s.block_size
      → s.read block (k * s.read_size) (n * s.read_size)
        ≡ some (slice bytes (k * s.read_size) (n * s.read_size))

==→eq : (a b : ℕ) → (a == b) ≡ true → a ≡ b
==→eq a b e = ground arith

both_zero : (a b : ℕ) → (a == 0 && b == 0) ≡ true → (a ≡ 0) × (b ≡ 0)
both_zero a b e = (ground arith, ground arith)

covering-some :
    (unit pos total n : ℕ)
    → covering unit pos total ≡ some n
    → n ≡ (pos + total + (unit - 1)) / unit * unit - (pos - pos % unit)
unfolding covering
covering-some unit pos total n e = ground arith

slice-all : (xs : List ℕ) (n : ℕ) → length xs ≤ n → slice xs 0 n ≡ xs
unfolding slice
slice-all [] zero l = refl
slice-all [] (suc n) l = refl
slice-all (x ∷ xs) zero l = absurd (omega arith)
slice-all (x ∷ xs) (suc n) l = ap (λ t. x ∷ t) (slice-all xs n (omega arith))

module _ (s : Storage) (block : ℕ) (bytes : List ℕ) (h : Holds s block bytes) where
  multiple : (a k : ℕ) → a ≡ k * s.read_size → a % s.read_size ≡ 0
  multiple a k e = rw e (mul-mod_left k s.read_size)

  reads :
      (a n : ℕ)
      → a % s.read_size ≡ 0
      → n % s.read_size ≡ 0
      → a + n ≤ s.block_size
      → read_or_io s block a n ≡ ok (slice bytes a n)
  unfolding read_or_io
  reads a n p q fits =
      let u = s.read_size in
      let ea : a / u * u ≡ a = omega (arith, div-add-mod' a u) in
      let en : n / u * u ≡ n = omega (arith, div-add-mod' n u) in
      let r = h.on_grid (a / u) (n / u) (omega arith) in
      let r' : s.read block a n ≡ some (slice bytes a n) = cc in rw (r', read_or_io) refl

  -- A read of the block.
  pub read_or_io-block : read_or_io s block 0 s.block_size ≡ ok bytes
  read_or_io-block =
      reads 0 s.block_size (multiple 0 0 (omega arith))
        (multiple s.block_size h.units h.whole_units) (omega arith)
      ∙ ap ok (slice-all bytes s.block_size (omega (arith, h.full)))

  -- The grid window that contains a byte of the block lies in the block.
  window_fits :
      (p : ℕ) → p < s.block_size → p / s.read_size * s.read_size + s.read_size ≤ s.block_size
  window_fits p l =
      let u = s.read_size in
      let below : p / u < h.units =
        (div-lt_iff_lt-mul h.unit_pos).1 (omega (arith, h.whole_units)) in
      omega (arith, mul-le-mul_right u below, h.whole_units)

  read_whole-eq :
      (a n : ℕ)
      → (0 < n → a % s.read_size ≡ 0)
      → n % s.read_size ≡ 0
      → a + n ≤ s.block_size
      → read_whole s block a n ≡ ok (slice bytes a n)
  unfolding read_whole slice
  read_whole-eq a zero p q fits = refl
  read_whole-eq a (suc n) p q fits =
      let positive : (suc n == 0) ≡ false = ground arith in
      rw positive (reads a (suc n) (p (omega arith)) q fits)

  read_rest-eq :
      (a n : ℕ)
      → (0 < n → a % s.read_size ≡ 0)
      → n < s.read_size
      → a + n ≤ s.block_size
      → read_rest s block a n ≡ ok (slice bytes a n)
  unfolding read_rest slice
  read_rest-eq a zero p q fits = refl
  read_rest-eq a (suc n) p q fits =
      let u = s.read_size in
      let positive : (suc n == 0) ≡ false = ground arith in
      let start : a / u * u ≡ a = omega (arith, div-add-mod' a u, p (omega arith)) in
      let inside = window_fits a (omega arith) in
      rw (positive, reads a u (p (omega arith)) (mod_self u) (omega arith))
        (ap ok (take-take (suc n) u (drop a bytes) (omega arith)))

  slice-zero : (pos : ℕ) → slice bytes pos 0 ≡ []
  unfolding slice
  slice-zero pos = refl

  -- The length of the leading fragment.
  abbrev lead_len : ℕ → ℕ → ℕ
  lead_len pos total =
      if pos % s.read_size == 0 then 0 else min (s.read_size - pos % s.read_size) total

  read_lead-eq :
      (pos total : ℕ)
      → 0 < total
      → pos + total ≤ s.block_size
      → read_lead s block pos total ≡ ok (slice bytes pos (lead_len pos total))
  unfolding read_lead
  read_lead-eq pos total l fits = elim (Bool-cases (pos % s.read_size == 0)) [
    | inl e ↦ rw e (ap ok (sym (slice-zero pos)))
    | inr e ↦
        let u = s.read_size in
        let skew = pos % u in
        let n = min (u - skew) total in
        let small = mod-lt pos h.unit_pos in
        let inside = window_fits pos (omega arith) in
        let low : pos - skew ≡ pos / u * u = omega (arith, div-add-mod' pos u) in
        let got =
          reads (pos - skew) u (multiple (pos - skew) (pos / u) low) (mod_self u) (omega arith) in
        rw (e, got)
          (ap ok (
            slice-slice bytes (pos - skew) u skew n (omega arith)
            ∙ ap (λ (k : ℕ). slice bytes k n) (omega (arith, div-add-mod' pos u))))
  ]

  read_covering-eq :
      (pos total n : ℕ)
      → 0 < total
      → pos + total ≤ s.block_size
      → covering s.read_size pos total ≡ some n
      → read_covering s block pos total n ≡ ok (slice bytes pos total)
  unfolding read_covering
  read_covering-eq pos total n l fits e =
      let u = s.read_size in
      let skew = pos % u in
      let q = (pos + total + (u - 1)) / u in
      let len = covering-some u pos total n e in
      let low : pos - skew ≡ pos / u * u = omega (arith, div-add-mod' pos u) in
      let past = lt-div-mul-add {a = pos + total + (u - 1)} {b = u} h.unit_pos in
      let span = pos + total + (u - 1) in
      let below : q < suc h.units =
        (div-lt_iff_lt-mul h.unit_pos).1 (omega (arith, h.whole_units, h.unit_pos)) in
      let above : pos / u ≤ q =
        (le-div_iff_mul-le {y = span} h.unit_pos).1 (omega (arith, div-mul-le_self pos u)) in
      let d = q - pos / u in
      let split : q * u ≡ (pos / u + d) * u =
        ap (λ (k : ℕ). k * u) {y = pos / u + d} (omega arith) in
      let whole : n % u ≡ 0 = multiple n d (omega arith) in
      let inside : q * u ≤ h.units * u = mul-le-mul_right u (omega arith) in
      let got =
        reads (pos - skew) n (multiple (pos - skew) (pos / u) low) whole
          (omega (arith, h.whole_units)) in
      rw got (
        ap ok (
          slice-slice bytes (pos - skew) n skew total (omega (arith, mod-lt pos h.unit_pos))
          ∙ ap (λ (k : ℕ). slice bytes k total) (omega (arith, div-add-mod' pos u))))

  -- What follows the leading fragment starts on the grid, unless nothing is left.
  after_lead :
      (pos total : ℕ)
      → 0 < total - lead_len pos total
      → (pos + lead_len pos total) % s.read_size ≡ 0
  after_lead pos total l = elim (Bool-cases (pos % s.read_size == 0)) [
    | inl e ↦ let same : pos + 0 ≡ pos = omega arith in rw (e, same) (==→eq (pos % s.read_size) 0 e)
    | inr e ↦
        let u = s.read_size in
        let small = mod-lt pos h.unit_pos in
        let spare : 0 < total - min (u - pos % u) total =
          subst (λ (b : Bool). 0 < total - (if b then 0 else min (u - pos % u) total)) e l in
        rw e (
          multiple (pos + min (u - pos % u) total) (suc (pos / u))
            (omega (arith, div-add-mod' pos u)))
  ]

  lead_len_le : (pos total : ℕ) → lead_len pos total ≤ total
  lead_len_le pos total = ground arith

  -- The parts after the leading fragment, from `a`.
  rest_of :
      (a left : ℕ)
      → (0 < left → a % s.read_size ≡ 0)
      → a + left ≤ s.block_size
      → (read_whole s block a (left / s.read_size * s.read_size)
          ≡ ok (slice bytes a (left / s.read_size * s.read_size)))
        × (read_rest s block
              (a + left / s.read_size * s.read_size)
              (left - left / s.read_size * s.read_size)
            ≡ ok (
                slice bytes
                  (a + left / s.read_size * s.read_size)
                  (left - left / s.read_size * s.read_size)))
        × (slice bytes a (left / s.read_size * s.read_size)
              ++ slice bytes
                  (a + left / s.read_size * s.read_size)
                  (left - left / s.read_size * s.read_size)
            ≡ slice bytes a left)
  rest_of a left p fits =
      let u = s.read_size in
      let whole = left / u * u in
      let le = div-mul-le_self left u in
      let lt = lt-div-mul-add {a = left} h.unit_pos in
      let start : 0 < left - whole → (a + whole) % u ≡ 0 = λ l.
        multiple (a + whole) (a / u + left / u)
          (omega (arith, div-add-mod' a u, p (omega arith))) in
      (
        read_whole-eq a whole (λ l. p (omega arith)) (mul-mod_left (left / u) u) (omega arith),
        read_rest-eq (a + whole) (left - whole) start (omega arith) (omega arith),
        slice-append bytes a whole (left - whole) ∙ ap (λ (k : ℕ). slice bytes a k) (omega arith),
      )

  read_parts-eq :
      (pos total : ℕ)
      → 0 < total
      → pos + total ≤ s.block_size
      → read_parts s block pos total ≡ ok (slice bytes pos total)
  unfolding read_parts
  read_parts-eq pos total l fits =
      let u = s.read_size in
      let n = lead_len pos total in
      let le = lead_len_le pos total in
      let size = length-slice bytes pos n (omega (arith, h.full)) in
      let (middle, rest, join) =
        rest_of (pos + n) (total - n) (after_lead pos total) (omega arith) in
      let lead_join : slice bytes pos n ++ slice bytes (pos + n) (total - n)
          ≡ slice bytes pos total =
        slice-append bytes pos n (total - n) ∙ ap (λ (k : ℕ). slice bytes pos k) (omega arith) in
      rw (read_lead-eq pos total l fits, size, middle, rest, join) (ap ok lead_join)

  usable :
      (window_len : ℕ)
      → s.read_size ≤ window_len
      → (s.read_size == 0 || ltb window_len s.read_size) ≡ false
  usable window_len w = ground (arith, h.unit_pos)

  -- Every range inside the block is read as the block's bytes there, by a window of at least one
  -- unit.
  pub read_range-eq :
      (off total window_len : ℕ)
      → s.read_size ≤ window_len
      → off + total ≤ s.block_size
      → read_range s block off total window_len ≡ ok (slice bytes off total)
  unfolding read_range
  read_range-eq off zero window_len w fits = rw (usable window_len w) (ap ok (sym (slice-zero off)))
  read_range-eq off (suc m) window_len w fits =
      let positive : (suc m == 0) ≡ false = ground arith in
      rw (usable window_len w, positive)
        (elim (Bool-cases (off % s.read_size == 0 && suc m % s.read_size == 0)) [
          | inl e ↦ rw e (
              reads off (suc m) (both_zero (off % s.read_size) (suc m % s.read_size) e).0
                (both_zero (off % s.read_size) (suc m % s.read_size) e).1 fits)
          | inr e ↦ rw e (elim (Option-cases (covering s.read_size off (suc m))) [
            | inl none_e ↦ rw none_e (read_parts-eq off (suc m) (omega arith) fits)
            | inr (n, e') ↦ rw e' (elim (Bool-cases (leb n window_len)) [
              | inl small ↦ rw small (read_covering-eq off (suc m) n (omega arith) fits e')
              | inr large ↦ rw large (read_parts-eq off (suc m) (omega arith) fits)
            ])
          ])
        ])
