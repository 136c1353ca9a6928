-- ===== src/Dir/Edits.antt =====
-- Insertion into a list and removal from it, and what stands at each index afterwards.
use littlefs2_pure.Prelude.{
  ℕ, zero, suc, ◌-◌, ◌≤◌, ◌<◌, ◌≡◌, refl, ap, List, [], ◌∷◌, arith, length, get_or,
}

module _ {ℓ} {A : Type ℓ} where
  unfoldable pub insert_at : ℕ → A → List A → List A
  insert_at zero v xs = v ∷ xs
  insert_at (suc i) v [] = v ∷ []
  insert_at (suc i) v (x ∷ xs) = x ∷ insert_at i v xs

  unfoldable pub remove_at : ℕ → List A → List A
  remove_at i [] = []
  remove_at zero (x ∷ xs) = xs
  remove_at (suc i) (x ∷ xs) = x ∷ remove_at i xs

  pub list_ext :
      (d : A) (xs ys : List A)
      → length xs ≡ length ys
      → ((j : ℕ) → j < length ys → get_or xs j d ≡ get_or ys j d)
      → xs ≡ ys
  list_ext d [] [] e h = refl
  list_ext d [] (y ∷ ys) e h = absurd (omega arith)
  list_ext d (x ∷ xs) [] e h = absurd (omega arith)
  list_ext d (x ∷ xs) (y ∷ ys) e h =
      let first = h 0 (omega arith) in
      let rest = list_ext d xs ys (omega arith) (λ j l. h (suc j) (omega arith)) in
      rw (first, rest) refl

  pub length-insert_at : (i : ℕ) (v : A) (xs : List A) → length (insert_at i v xs) ≡ suc (length xs)
  unfolding insert_at
  length-insert_at zero v xs = refl
  length-insert_at (suc i) v [] = refl
  length-insert_at (suc i) v (x ∷ xs) = ap suc (length-insert_at i v xs)

  pub length-remove_at :
      (i : ℕ) (xs : List A) → i < length xs → length (remove_at i xs) ≡ length xs - 1
  unfolding remove_at
  length-remove_at i [] h = refl
  length-remove_at zero (x ∷ xs) h = omega arith
  length-remove_at (suc i) (x ∷ xs) h = omega (arith, length-remove_at i xs (omega arith))

  pub insert_below :
      (i : ℕ) (v : A) (xs : List A) (j : ℕ) (d : A)
      → j < i
      → i ≤ length xs
      → get_or (insert_at i v xs) j d ≡ get_or xs j d
  unfolding insert_at
  insert_below zero v xs j d h k = absurd (omega arith)
  insert_below (suc i) v [] j d h k = absurd (omega arith)
  insert_below (suc i) v (x ∷ xs) zero d h k = refl
  insert_below (suc i) v (x ∷ xs) (suc j) d h k =
      insert_below i v xs j d (omega arith) (omega arith)

  pub insert_here :
      (i : ℕ) (v : A) (xs : List A) (d : A) → i ≤ length xs → get_or (insert_at i v xs) i d ≡ v
  unfolding insert_at
  insert_here zero v xs d h = refl
  insert_here (suc i) v [] d h = absurd (omega arith)
  insert_here (suc i) v (x ∷ xs) d h = insert_here i v xs d (omega arith)

  pub insert_above :
      (i : ℕ) (v : A) (xs : List A) (j : ℕ) (d : A)
      → i ≤ j
      → i ≤ length xs
      → get_or (insert_at i v xs) (suc j) d ≡ get_or xs j d
  unfolding insert_at
  insert_above zero v xs j d h k = refl
  insert_above (suc i) v [] j d h k = absurd (omega arith)
  insert_above (suc i) v (x ∷ xs) zero d h k = absurd (omega arith)
  insert_above (suc i) v (x ∷ xs) (suc j) d h k =
      insert_above i v xs j d (omega arith) (omega arith)

  pub remove_below :
      (i : ℕ) (xs : List A) (j : ℕ) (d : A) → j < i → get_or (remove_at i xs) j d ≡ get_or xs j d
  unfolding remove_at
  remove_below i [] j d h = refl
  remove_below zero (x ∷ xs) j d h = absurd (omega arith)
  remove_below (suc i) (x ∷ xs) zero d h = refl
  remove_below (suc i) (x ∷ xs) (suc j) d h = remove_below i xs j d (omega arith)

  pub remove_above :
      (i : ℕ) (xs : List A) (j : ℕ) (d : A)
      → i ≤ j
      → get_or (remove_at i xs) j d ≡ get_or xs (suc j) d
  unfolding remove_at
  remove_above i [] j d h = refl
  remove_above zero (x ∷ xs) j d h = refl
  remove_above (suc i) (x ∷ xs) zero d h = absurd (omega arith)
  remove_above (suc i) (x ∷ xs) (suc j) d h = remove_above i xs j d (omega arith)
