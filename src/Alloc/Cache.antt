-- ===== src/Alloc/Cache.antt =====
-- The cached allocators never hand out a live block, whichever way they take, and leave a cache of
-- which the same holds.
use littlefs2_pure.Prelude.{
  ℕ, zero, suc, ◌≡◌, subst, ◌∙◌, inl, inr, Bool, Bool-cases, Option, some, none, List, [], ◌∷◌,
  arith, Result, ok, ◌>>=◌, Result-cases,
}
use littlefs2_pure.Block.{BlockAddress, is_none}
use littlefs2_pure.Storage.{Storage}
use littlefs2_pure.Alloc.{Bitmap, mark, is_set}
use littlefs2_pure.Alloc.Laws.{IsBitmap, mark_ok}
use littlefs2_pure.Alloc.Take.{mark_excluded, pick_free, take_free_blocks}
use littlefs2_pure.Alloc.Granted.{
  Covers, CacheCovers, ScanCovers, CacheGranted, take_free_blocks-Granted,
}
use littlefs2_pure.Alloc.Cached.{walk_excluded, take_rescanned, take_cached}

module _ (live : ℕ → Bool) where
  -- A bitmap of the right size that has every live block.
  abbrev IsCover : Bitmap → Type 0
  IsCover m = IsBitmap m × Covers live m

  mark-IsCover : (b : ℕ) (m m' : Bitmap) → IsCover m → mark b m ≡ ok m' → IsCover m'
  mark-IsCover b m m' w e =
      let (below, keeps, law) = mark_ok m m' b w.0 e in
      (keeps, λ c l. let on = w.1 c l in law c ∙ ground arith)

  mark_excluded-IsCover :
      (ex : List BlockAddress) (m : Bitmap) → IsCover m → IsCover (mark_excluded ex m).1
  unfolding mark_excluded
  mark_excluded-IsCover [] m w = w
  mark_excluded-IsCover (x ∷ ex) m w = elim (Bool-cases (is_none x)) [
    | inl e ↦ rw (e, mark_excluded) (mark_excluded-IsCover ex m w)
    | inr e ↦ elim (Result-cases (mark x m)) [
      | inl (m', made) ↦
          rw (e, made, mark_excluded) (mark_excluded-IsCover ex m' (mark-IsCover x m m' w made))
      | inr (x', made) ↦ rw (e, made, mark_excluded) w
    ]
  ]

  pick_free-IsCover :
      (left b wanted : ℕ) (m : Bitmap) → IsCover m → IsCover (pick_free left b wanted m).1
  unfolding pick_free
  pick_free-IsCover left b zero m w = w
  pick_free-IsCover zero b (suc wanted) m w = w
  pick_free-IsCover (suc left) b (suc wanted) m w = elim (Bool-cases (is_set m b)) [
    | inl e ↦ rw (e, pick_free) (pick_free-IsCover left (suc b) (suc wanted) m w)
    | inr e ↦ elim (Result-cases (mark b m)) [
      | inl (m', made) ↦
          rw (e, made, pick_free)
            (pick_free-IsCover left (suc b) wanted m' (mark-IsCover b m m' w made))
      | inr (x', made) ↦ rw (e, made, pick_free) w
    ]
  ]

  -- An attempt leaves a cover, also where it fails.
  take_free_blocks-IsCover :
      (m : Bitmap) (ex : List BlockAddress) (wanted bc : ℕ)
      → IsCover m
      → IsCover (take_free_blocks m ex wanted bc).1
  unfolding take_free_blocks
  take_free_blocks-IsCover m ex wanted bc w =
      let w' = mark_excluded-IsCover ex m w in
      elim (Result-cases (mark_excluded ex m).0) [
        | inl (u, e) ↦
            rw (e, take_free_blocks) (pick_free-IsCover bc 0 wanted (mark_excluded ex m).1 w')
        | inr (x, e) ↦ rw (e, take_free_blocks) w'
      ]

  module _ (s : Storage) (ex : List BlockAddress) (wanted : ℕ) where
    rescanned :
        (scanned : Result Bitmap) (cache : Option Bitmap) (chain : Option (ℕ × ℕ))
        → CacheCovers live cache
        → ScanCovers live (scanned >>= λ used. walk_excluded s chain used)
        → CacheGranted live ex wanted s.block_count (take_rescanned s scanned cache ex chain wanted)
    unfolding take_rescanned
    rescanned scanned cache chain h k =
        elim (Result-cases (scanned >>= λ used. walk_excluded s chain used)) [
          | inr (x, e) ↦ rw (e, take_rescanned) h
          | inl (fresh, e) ↦
              let cover : IsCover fresh = subst (ScanCovers live) e k in
              elim (Result-cases (take_free_blocks fresh ex wanted s.block_count).0) [
                | inr (x, e') ↦ rw (e, e', take_rescanned) h
                | inl (blocks, e') ↦
                    rw (e, e', take_rescanned)
                      (take_free_blocks-Granted live fresh ex wanted s.block_count
                        (take_free_blocks fresh ex wanted s.block_count).1 blocks cover.0 cover.1
                        (λ i. (e' i, (take_free_blocks fresh ex wanted s.block_count).1)))
              ]
        ]

    -- With a cache that has every live block and a scan that finds every live block, a cached
    -- allocation that succeeds grants its blocks, and one that fails leaves such a cache.
    pub take_cached-CacheGranted :
        (scanned : Result Bitmap) (cache : Option Bitmap) (chain : Option (ℕ × ℕ))
        → CacheCovers live cache
        → ScanCovers live (scanned >>= λ used. walk_excluded s chain used)
        → CacheGranted live ex wanted s.block_count (take_cached s scanned cache ex chain wanted)
    unfolding take_cached
    take_cached-CacheGranted scanned none chain h k = rescanned scanned none chain h k
    take_cached-CacheGranted scanned (some m) chain h k =
        let attempt = take_free_blocks m ex wanted s.block_count in
        elim (Result-cases attempt.0) [
          | inl (blocks, e) ↦
              rw (e, take_cached)
                (take_free_blocks-Granted live m ex wanted s.block_count attempt.1 blocks h.0 h.1
                  (λ i. (e i, attempt.1)))
          | inr (x, e) ↦
              rw (e, take_cached)
                (rescanned scanned (some attempt.1) chain
                  (take_free_blocks-IsCover m ex wanted s.block_count h) k)
        ]
