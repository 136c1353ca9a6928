-- ===== src/Dir/Splice.antt =====
-- What Create and Delete do to the slots: a slot is inserted or removed, and those above it move by
-- one.
use littlefs2_pure.Prelude.{
  ℕ, zero, suc, ◌+◌, ◌-◌, ◌<◌, ◌≡◌, refl, ◌⊎◌, inl, inr, true, false, Bool-cases, List, arith, ltb,
  leb, ◌&&◌, if◌then◌else◌, length, get_or, set, get_or-set, get_or-set_other, length-set,
}
use littlefs2_pure.Dir.{shift_up, shift_down}

pub order : (a b : ℕ) → (a < b) ⊎ ((a ≡ b) ⊎ (b < a))
order a b = ground arith

module _ {ℓ} {A : Type ℓ} where
  -- The slots after a place has been made at `id` below the first `n`.
  abbrev pub opened : A → ℕ → ℕ → List A → ℕ → A
  opened empty id n slots j =
      if (ltb id j && leb j n) then get_or slots (j - 1) empty else get_or slots j empty

  pub get_or-shift_up :
      (empty : A) (id n : ℕ) (slots : List A) (j : ℕ)
      → n < length slots
      → get_or (shift_up empty id n slots) j empty ≡ opened empty id n slots j
  unfolding shift_up
  get_or-shift_up empty id zero slots j h =
      let out : (ltb id j && leb j 0) ≡ false = ground arith in rw out refl
  get_or-shift_up empty id (suc n) slots j h = elim (Bool-cases (ltb id (suc n))) [
    | inr e ↦ let out : (ltb id j && leb j (suc n)) ≡ false = ground arith in rw (e, out) refl
    | inl e ↦
        let moved = get_or slots n empty in
        let slots' = set slots (suc n) moved in
        let ih =
          get_or-shift_up empty id n slots' j (omega (arith, length-set slots (suc n) moved)) in
        elim (order j (suc n)) [
          | inl below ↦
              let same : (ltb id j && leb j (suc n)) ≡ (ltb id j && leb j n) = ground arith in
              let one =
                get_or-set_other slots (suc n) (j - 1) moved empty (λ q. absurd (omega arith)) in
              let two = get_or-set_other slots (suc n) j moved empty (λ q. absurd (omega arith)) in
              rw (e, ih, same, one, two) refl
          | inr (inl here) ↦
              let inside : (ltb id j && leb j (suc n)) ≡ true = ground arith in
              let out : (ltb id j && leb j n) ≡ false = ground arith in
              let back : j - 1 ≡ n = omega arith in
              rw (e, ih, inside, out, back, here) (get_or-set slots (suc n) moved empty h)
          | inr (inr above) ↦
              let out : (ltb id j && leb j (suc n)) ≡ false = ground arith in
              let out' : (ltb id j && leb j n) ≡ false = ground arith in
              let two = get_or-set_other slots (suc n) j moved empty (λ q. absurd (omega arith)) in
              rw (e, ih, out, out', two) refl
        ]
  ]

  -- The slots after the place `i` has been closed by the `left` slots above it.
  abbrev pub closed : A → ℕ → ℕ → List A → ℕ → A
  closed empty i left slots j =
      if (leb i j && ltb j (i + left)) then get_or slots (suc j) empty else get_or slots j empty

  pub get_or-shift_down :
      (empty : A) (left i : ℕ) (slots : List A) (j : ℕ)
      → i + left < length slots
      → get_or (shift_down empty left i slots) j empty ≡ closed empty i left slots j
  unfolding shift_down
  get_or-shift_down empty zero i slots j h =
      let out : (leb i j && ltb j (i + 0)) ≡ false = ground arith in rw out refl
  get_or-shift_down empty (suc left) i slots j h =
      let moved = get_or slots (suc i) empty in
      let slots' = set slots i moved in
      let ih =
        get_or-shift_down empty left (suc i) slots' j (omega (arith, length-set slots i moved)) in
      elim (order j i) [
        | inl below ↦
            let out : (leb i j && ltb j (i + suc left)) ≡ false = ground arith in
            let out' : (leb (suc i) j && ltb j (suc i + left)) ≡ false = ground arith in
            let two = get_or-set_other slots i j moved empty (λ q. absurd (omega arith)) in
            rw (ih, out, out', two) refl
        | inr (inl here) ↦
            let inside : (leb i j && ltb j (i + suc left)) ≡ true = ground arith in
            let out : (leb (suc i) j && ltb j (suc i + left)) ≡ false = ground arith in
            rw (ih, inside, out, here) (get_or-set slots i moved empty (omega arith))
        | inr (inr above) ↦
            let same : (leb i j && ltb j (i + suc left)) ≡ (leb (suc i) j && ltb j (suc i + left)) =
              ground arith in
            let one = get_or-set_other slots i (suc j) moved empty (λ q. absurd (omega arith)) in
            let two = get_or-set_other slots i j moved empty (λ q. absurd (omega arith)) in
            rw (ih, same, one, two) refl
      ]
