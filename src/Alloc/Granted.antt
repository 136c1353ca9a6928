-- ===== src/Alloc/Granted.antt =====
-- What the allocators grant: blocks that nothing else uses, each once, marked afterwards.
use littlefs2_pure.Prelude.{
  ℕ, ◌≤◌, ◌<◌, ◌≡◌, sym, ap, subst, ◌∙◌, inl, inr, Bool, true, false, ◌||◌, Bool-cases, Option,
  some, none, List, [], ◌∷◌, arith, ◌==◌, length, All, Result, ok, err, Result-cases,
}
use littlefs2_pure.Block.{BlockAddress, is_none}
use littlefs2_pure.Alloc.{Bitmap, mark, is_set, max_tracked_blocks}
use littlefs2_pure.Alloc.Laws.{IsBitmap, mark_ok}
use littlefs2_pure.Alloc.Take.{mark_excluded, pick_free, take_free_blocks}
use littlefs2_pure.Alloc.Choice.{or_swap, has, IsIncreasing, Chosen, pick_free-Chosen}

past_cap : (m : Bitmap) (c : ℕ) → max_tracked_blocks ≤ c → is_set m c ≡ true
unfolding is_set
past_cap m c h = ground arith

none_past_cap : (x : ℕ) → is_none x ≡ true → max_tracked_blocks ≤ x
unfolding is_none
none_past_cap x h = ground arith

-- The bitmap after the exclusions is the bitmap with the excluded blocks.
mark_excluded_lem :
    (ex : List BlockAddress) (m m' : Bitmap)
    → IsBitmap m
    → mark_excluded ex m ≡ (ok tt, m')
    → IsBitmap m' × ((c : ℕ) → is_set m' c ≡ (has c ex || is_set m c))
unfolding mark_excluded
mark_excluded_lem [] m m' w e =
    let same : m ≡ m' = ap (λ p. p.1) e in
    (subst IsBitmap same w, λ c. ap (λ (n : Bitmap). is_set n c) (sym same))
mark_excluded_lem (x ∷ ex) m m' w e = elim (Bool-cases (is_none x)) [
  | inl none_x ↦
      let (keeps, law) = mark_excluded_lem ex m m' w (rw (none_x, mark_excluded) at e) in
      (
        keeps,
        λ c. elim (Bool-cases (x == c)) [
          | inl same ↦
              let at : x ≡ c = ground arith in
              let big = none_past_cap x none_x in rw same (past_cap m' c (omega arith))
          | inr other ↦ rw other (law c)
        ],
      )
  | inr some_x ↦ elim (Result-cases (mark x m)) [
    | inr (x', made) ↦
        let failed : (err x', m) ≡ (ok tt, m') = rw (some_x, made, mark_excluded) at e in
        absurd (cc)
    | inl (m1, made) ↦
        let (below, w1, law1) = mark_ok m m1 x w made in
        let (keeps, law) = mark_excluded_lem ex m1 m' w1 (rw (some_x, made, mark_excluded) at e) in
        (
          keeps,
          λ c.
              law c
              ∙ ap (λ (t : Bool). has c ex || t) (law1 c)
              ∙ or_swap (has c ex) (x == c) (is_set m c),
        )
  ]
]

-- Every block that is `live` is in the bitmap.
abbrev pub Covers : (ℕ → Bool) → Bitmap → Type 0
Covers live m = (c : ℕ) → live c ≡ true → is_set m c ≡ true

-- The blocks are as many as were wanted, on the device, distinct, and neither live nor excluded;
-- the bitmap has them and all that is live.
pub record Granted (live : ℕ → Bool) (ex : List ℕ) (wanted block_count : ℕ) (blocks : List ℕ)
    (m : Bitmap) : Type 0 where
  pub count : length blocks ≡ wanted
  pub on_device : All (λ b. b < block_count) blocks
  pub distinct : IsIncreasing blocks
  pub apart : All (λ b. (live b ≡ false) × (has b ex ≡ false)) blocks
  pub marked : (c : ℕ) → has c blocks ≡ true → is_set m c ≡ true
  pub covers : Covers live m
  pub keeps : IsBitmap m

in_device : (lo hi : ℕ) (xs : List ℕ) → All (λ x. (lo ≤ x) × (x < hi)) xs → All (λ x. x < hi) xs
in_device lo hi [] h = tt
in_device lo hi (x ∷ xs) h = (h.0.1, in_device lo hi xs h.1)

not_live :
    (live : ℕ → Bool) (m : Bitmap) (c : ℕ) → Covers live m → is_set m c ≡ false → live c ≡ false
not_live live m c h e = elim (Bool-cases (live c)) [
  | inl l ↦ let on = h c l in absurd (cc)
  | inr l ↦ l
]

apart_from :
    (live : ℕ → Bool) (ex : List ℕ) (m mx : Bitmap) (xs : List ℕ)
    → Covers live m
    → ((c : ℕ) → is_set mx c ≡ (has c ex || is_set m c))
    → All (λ x. is_set mx x ≡ false) xs
    → All (λ x. (live x ≡ false) × (has x ex ≡ false)) xs
apart_from live ex m mx [] h law f = tt
apart_from live ex m mx (x ∷ xs) h law f =
    let off : is_set m x ≡ false = ground (arith, law x) in
    ((not_live live m x h off, ground (arith, law x)), apart_from live ex m mx xs h law f.1)

module _ (live : ℕ → Bool) (m : Bitmap) (ex : List ℕ) (wanted block_count : ℕ) where
  granted :
      (mx m' : Bitmap) (blocks : List ℕ)
      → Covers live m
      → ((c : ℕ) → is_set mx c ≡ (has c ex || is_set m c))
      → length blocks ≡ wanted
      → Chosen 0 block_count mx blocks m'
      → Granted live ex wanted block_count blocks m'
  granted mx m' blocks h law count c = record {
    count = count;
    on_device = in_device 0 block_count blocks c.in_range;
    distinct = c.increasing;
    apart = apart_from live ex m mx blocks h law c.were_free;
    marked = λ x hx. c.marks x ∙ ground arith;
    covers = λ x l. let on = h x l in c.marks x ∙ ground (arith, law x);
    keeps = c.keeps;
  }

  -- A choice that succeeds on a bitmap that has every live block grants the blocks.
  pub take_free_blocks-Granted :
      (m' : Bitmap) (blocks : List ℕ)
      → IsBitmap m
      → Covers live m
      → take_free_blocks m ex wanted block_count ≡ (ok blocks, m')
      → Granted live ex wanted block_count blocks m'
  unfolding take_free_blocks
  take_free_blocks-Granted m' blocks w h e = elim (Result-cases (mark_excluded ex m).0) [
    | inr (x, v) ↦
        let failed : (err x, (mark_excluded ex m).1) ≡ (ok blocks, m') =
          rw (v, take_free_blocks) at e in
        absurd (cc)
    | inl (u, v) ↦
        let mx = (mark_excluded ex m).1 in
        let (keeps, law) = mark_excluded_lem ex m mx w (λ i. (v i, mx)) in
        let picked : pick_free block_count 0 wanted mx ≡ (ok blocks, m') =
          rw (v, take_free_blocks) at e in
        let (count, c) =
          pick_free-Chosen block_count 0 block_count wanted mx m' blocks (omega arith) keeps
            picked in
        granted mx m' blocks h law count c
  ]

-- A cache is sound for what is live: it has every live block.
abbrev pub CacheCovers : (ℕ → Bool) → Option Bitmap → Type 0
CacheCovers live none = Unit
CacheCovers live (some m) = IsBitmap m × Covers live m

-- A scan that succeeds finds every live block.
abbrev pub ScanCovers : (ℕ → Bool) → Result Bitmap → Type 0
ScanCovers live (ok m) = IsBitmap m × Covers live m
ScanCovers live (err e) = Unit

-- What a cached allocation leaves: blocks that were granted with the cache that covers them.
abbrev pub CacheGranted :
    (ℕ → Bool) → List ℕ → ℕ → ℕ → Result (List BlockAddress) × Option Bitmap → Type 0
CacheGranted live ex wanted bc (ok blocks, some m) = Granted live ex wanted bc blocks m
CacheGranted live ex wanted bc (ok blocks, none) = ⊥
CacheGranted live ex wanted bc (err e, cache) = CacheCovers live cache
