-- ===== src/Alloc/Choice.antt =====
-- The blocks that `take_free_blocks` chooses: free, distinct and on the device, exactly as many as
-- were asked for where there are as many.
use littlefs2_pure.Prelude.{
  ℕ, zero, suc, ◌+◌, ◌≤◌, ◌<◌, ◌≡◌, refl, sym, ap, subst, ◌∙◌, ◌⊎◌, inl, inr, Bool, true, false,
  ◌||◌, Bool-cases, List, [], ◌∷◌, arith, ◌==◌, if◌then◌else◌, length, All, Result, ok, err,
  out_of_range,
}
use littlefs2_pure.Alloc.{Bitmap, mark, is_set, max_tracked_blocks}
use littlefs2_pure.Alloc.Laws.{IsBitmap, mark_lem}
use littlefs2_pure.Alloc.Take.{pick_free}

-- Membership of a block.
abbrev pub has : ℕ → List ℕ → Bool
has c [] = false
has c (x ∷ xs) = (x == c) || has c xs

-- How many of the blocks `b, b + 1, ..`, `left` of them, are free.
pub count_free : ℕ → ℕ → Bitmap → ℕ
count_free zero b m = 0
count_free (suc left) b m = (if is_set m b then 0 else 1) + count_free left (suc b) m

abbrev pub IsIncreasing : List ℕ → Type 0
IsIncreasing [] = Unit
IsIncreasing (x ∷ xs) = All (λ y. x < y) xs × IsIncreasing xs

-- The blocks were chosen between `lo` and `hi` from those free in `m`, and `m'` has them as well.
pub record Chosen (lo hi : ℕ) (m : Bitmap) (blocks : List ℕ) (m' : Bitmap) : Type 0 where
  pub in_range : All (λ x. (lo ≤ x) × (x < hi)) blocks
  pub were_free : All (λ x. is_set m x ≡ false) blocks
  pub increasing : IsIncreasing blocks
  pub marks : (c : ℕ) → is_set m' c ≡ (has c blocks || is_set m c)
  pub keeps : IsBitmap m'

free_below : (m : Bitmap) (b : ℕ) → is_set m b ≡ false → b < max_tracked_blocks
unfolding is_set
free_below m b e = ground arith

-- A mark at a block does not change what is free above it.
count_free-mark :
    (left b c : ℕ) (m m' : Bitmap)
    → b < c
    → ((x : ℕ) → is_set m' x ≡ ((b == x) || is_set m x))
    → count_free left c m' ≡ count_free left c m
unfolding count_free
count_free-mark zero b c m m' h law = refl
count_free-mark (suc left) b c m m' h law =
    let other : (b == c) ≡ false = ground arith in
    rw (law c, other, count_free-mark left b (suc c) m m' (omega arith) law) refl

weaken :
    (lo hi : ℕ) (xs : List ℕ)
    → All (λ x. (suc lo ≤ x) × (x < hi)) xs
    → All (λ x. (lo ≤ x) × (x < hi)) xs
weaken lo hi [] h = tt
weaken lo hi (x ∷ xs) h = ((omega arith, h.0.1), weaken lo hi xs h.1)

above : (lo hi : ℕ) (xs : List ℕ) → All (λ x. (suc lo ≤ x) × (x < hi)) xs → All (λ x. lo < x) xs
above lo hi [] h = tt
above lo hi (x ∷ xs) h = (omega arith, above lo hi xs h.1)

free_before :
    (b : ℕ) (m m' : Bitmap) (xs : List ℕ)
    → ((x : ℕ) → is_set m' x ≡ ((b == x) || is_set m x))
    → All (λ x. is_set m' x ≡ false) xs
    → All (λ x. is_set m x ≡ false) xs
free_before b m m' [] law h = tt
free_before b m m' (x ∷ xs) law h = (ground (arith, law x), free_before b m m' xs law h.1)

pub or_swap : (x y z : Bool) → (x || (y || z)) ≡ ((y || x) || z)
or_swap true true z = refl
or_swap true false z = refl
or_swap false true z = refl
or_swap false false z = refl

pick_step :
    (left b wanted : ℕ) (m m1 m2 : Bitmap) (blocks : List ℕ)
    → is_set m b ≡ false
    → mark b m ≡ ok m1
    → pick_free left (suc b) wanted m1 ≡ (ok blocks, m2)
    → pick_free (suc left) b (suc wanted) m ≡ (ok (b ∷ blocks), m2)
unfolding pick_free
pick_step left b wanted m m1 m2 blocks free made picks = rw (free, made, picks, pick_free) refl

pub pick_found :
    (left b hi wanted : ℕ) (m : Bitmap)
    → b + left ≡ hi
    → IsBitmap m
    → wanted ≤ count_free left b m
    → (blocks : List ℕ) × (m' : Bitmap) × (pick_free left b wanted m ≡ (ok blocks, m'))
      × (length blocks ≡ wanted)
      × Chosen b hi m blocks m'
unfolding pick_free count_free
pick_found left b hi zero m e w h = (
  [],
  m,
  refl,
  refl,
  record { in_range = tt; were_free = tt; increasing = tt; marks = λ c. refl; keeps = w },
)
pick_found zero b hi (suc wanted) m e w h = absurd (omega arith)
pick_found (suc left) b hi (suc wanted) m e w h = elim (Bool-cases (is_set m b)) [
  | inl taken ↦
      let h' : suc wanted ≤ count_free left (suc b) m = ground arith in
      let (blocks, m', picks, count, c) =
        pick_found left (suc b) hi (suc wanted) m (omega arith) w h' in
      (
        blocks,
        m',
        rw (taken, pick_free) picks,
        count,
        record {
          in_range = weaken b hi blocks c.in_range;
          were_free = c.were_free;
          increasing = c.increasing;
          marks = c.marks;
          keeps = c.keeps;
        },
      )
  | inr free ↦
      let (m1, made, w1, law) = mark_lem m b w (free_below m b free) in
      let same = count_free-mark left b (suc b) m m1 (omega arith) law in
      let h' : wanted ≤ count_free left (suc b) m1 = ground arith in
      let (blocks, m2, picks, count, c) =
        pick_found left (suc b) hi wanted m1 (omega arith) w1 h' in
      (
        b ∷ blocks,
        m2,
        pick_step left b wanted m m1 m2 blocks free made picks,
        omega arith,
        record {
          in_range = ((omega arith, omega arith), weaken b hi blocks c.in_range);
          were_free = (free, free_before b m m1 blocks law c.were_free);
          increasing = (above b hi blocks c.in_range, c.increasing);
          marks = λ x.
              c.marks x
              ∙ ap (λ (t : Bool). has x blocks || t) (law x)
              ∙ or_swap (has x blocks) (b == x) (is_set m x);
          keeps = c.keeps;
        },
      )
]

pub pick_short :
    (left b wanted : ℕ) (m : Bitmap)
    → IsBitmap m
    → count_free left b m < wanted
    → (pick_free left b wanted m).0 ≡ err out_of_range
unfolding pick_free count_free
pick_short left b zero m w h = absurd (omega arith)
pick_short zero b (suc wanted) m w h = refl
pick_short (suc left) b (suc wanted) m w h = elim (Bool-cases (is_set m b)) [
  | inl taken ↦
      let h' : count_free left (suc b) m < suc wanted = ground arith in
      rw (taken, pick_free) (pick_short left (suc b) (suc wanted) m w h')
  | inr free ↦
      let (m1, made, w1, law) = mark_lem m b w (free_below m b free) in
      let same = count_free-mark left b (suc b) m m1 (omega arith) law in
      let h' : count_free left (suc b) m1 < wanted = ground arith in
      rw (free, made, pick_short left (suc b) wanted m1 w1 h', pick_free) refl
]

ok_inj :
    (xs ys : List ℕ) (m n : Bitmap)
    → ◌≡◌ {A = Result (List ℕ) × Bitmap} (ok xs, m) (ok ys, n)
    → (xs ≡ ys) × (m ≡ n)
ok_inj xs ys m n e = (blocks_of (ap (λ p. p.0) e), ap (λ p. p.1) e)
  where
    blocks_of : ◌≡◌ {A = Result (List ℕ)} (ok xs) (ok ys) → xs ≡ ys
    blocks_of h = cc

le_or_lt : (a b : ℕ) → (a ≤ b) ⊎ (b < a)
le_or_lt a b = ground arith

not_err : (xs : List ℕ) (r : Result (List ℕ)) → r ≡ err out_of_range → r ≡ ok xs → ⊥
not_err xs r e h = cc

-- Whatever the loop returns is a choice of as many blocks as were wanted.
pub pick_free-Chosen :
    (left b hi wanted : ℕ) (m m' : Bitmap) (blocks : List ℕ)
    → b + left ≡ hi
    → IsBitmap m
    → pick_free left b wanted m ≡ (ok blocks, m')
    → (length blocks ≡ wanted) × Chosen b hi m blocks m'
pick_free-Chosen left b hi wanted m m' blocks e w p = elim (le_or_lt wanted (count_free left b m)) [
  | inr few ↦ absurd (
      not_err blocks (pick_free left b wanted m).0 (pick_short left b wanted m w few)
        (ap (λ x. x.0) p))
  | inl enough ↦
      let (blocks0, m0, picks, count, c) = pick_found left b hi wanted m e w enough in
      let (same_blocks, same_m) = ok_inj blocks0 blocks m0 m' (sym picks ∙ p) in
      (
        ap length (sym same_blocks) ∙ count,
        subst (λ (n : Bitmap). Chosen b hi m blocks n) same_m
            (subst (λ (xs : List ℕ). Chosen b hi m xs m0) same_blocks c),
      )
]
