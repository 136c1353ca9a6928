-- ===== src/File/Relocated.antt =====
-- The relocation of a chain's last block: no attempt loses a block of the chain.
use littlefs2_pure.Prelude.{
  ℕ, zero, suc, ◌≤◌, ◌<◌, ◌≡◌, ◌≢◌, refl, sym, ap, ◌∙◌, inl, inr, subst, Bool, true, false,
  Bool-cases, Option, none, some, Option-cases, List, [], ◌∷◌, ◌++◌, ◌==◌, ==_iff, length, get_or,
  take, replicate, ◌-◌, Result, ok, err, ◌>>=◌, Result-cases, length-append, length-take,
  length-replicate, arith,
}
use littlefs2_pure.Crc
use littlefs2_pure.Block.{BlockAddress, BlockPair, address_none}
use littlefs2_pure.Storage.{Storage, read_or_io}
use littlefs2_pure.Storage.Range.{Holds, read_or_io-block}
use littlefs2_pure.Alloc.{Bitmap, empty}
use littlefs2_pure.Alloc.Scan.{scan_used_blocks}
use littlefs2_pure.Alloc.Whole.{scan_used_blocks-IsBitmap}
use littlefs2_pure.Alloc.Choice.{has}
use littlefs2_pure.Alloc.Granted.{Granted, CacheCovers, ScanCovers, CacheGranted}
use littlefs2_pure.Alloc.Cached.{walk_excluded, alloc_blocks_cached}
use littlefs2_pure.Alloc.Cache.{take_cached-CacheGranted}
use littlefs2_pure.File.Disk.{DiskLaws, KeepsChain, moved}
use littlefs2_pure.File.Shrink.{Disk, Fs, kept, verify_programmed, try_block, attempt, relocate}

-- No block counts as live: what is left of an allocation is that the blocks are not excluded.
abbrev pub nothing_live : ℕ → Bool
nothing_live c = false

scan-ScanCovers :
    (s : Storage) (root : BlockPair) (len_a len_b : ℕ)
    → ScanCovers nothing_live
        (scan_used_blocks s root len_a len_b empty >>= λ used. walk_excluded s none used)
unfolding walk_excluded empty
scan-ScanCovers s root len_a len_b =
    elim (Result-cases (scan_used_blocks s root len_a len_b empty)) [
      | inl (m, e) ↦ rw e (
        scan_used_blocks-IsBitmap s root len_a len_b empty m (record { full = refl }) e,
        λ c l. absurd (cc),
      )
      | inr (x, e) ↦ rw e tt
    ]

cache_after :
    (ex : List ℕ) (bc : ℕ) (out : Result (List BlockAddress) × Option Bitmap)
    → CacheGranted nothing_live ex 1 bc out
    → CacheCovers nothing_live out.1
cache_after ex bc (ok blocks, some m) g = (g.keeps, g.covers)
cache_after ex bc (ok blocks, none) g = absurd g
cache_after ex bc (err e, cache) g = g

one_block :
    (ex : List ℕ) (bc : ℕ) (blocks : List ℕ) (m : Bitmap)
    → Granted nothing_live ex 1 bc blocks m
    → (get_or blocks 0 address_none < bc) × (has (get_or blocks 0 address_none) ex ≡ false)
one_block ex bc [] m g = let none_at_all = g.count in absurd (omega (arith, none_at_all))
one_block ex bc (b ∷ rest) m g = (g.on_device.0, g.apart.0.1)

candidate :
    (ex : List ℕ) (bc : ℕ) (out : Result (List BlockAddress) × Option Bitmap) (blocks : List ℕ)
    → CacheGranted nothing_live ex 1 bc out
    → out.0 ≡ ok blocks
    → (get_or blocks 0 address_none < bc) × (has (get_or blocks 0 address_none) ex ≡ false)
candidate ex bc (ok blocks', some m) blocks g e =
    let same : blocks' ≡ blocks = cc in rw (← same) (one_block ex bc blocks' m g)
candidate ex bc (ok blocks', none) blocks g e = absurd g
candidate ex bc (err x, cache) blocks g e = absurd (cc)

has-append : (c x : ℕ) (xs : List ℕ) → has c xs ≡ true → has c (xs ++ (x ∷ [])) ≡ true
has-append c x [] h = absurd (cc)
has-append c x (y ∷ ys) h = elim (Bool-cases (y == c)) [
  | inl e ↦ rw e refl
  | inr e ↦ rw e (has-append c x ys (rw e at h))
]

apart : (x c : ℕ) (ex : List ℕ) → has x ex ≡ true → has c ex ≡ false → x ≢ c
apart x c ex h k e = let same : has x ex ≡ has c ex = ap (λ y. has y ex) e in cc

module _ {σ : Type 0} (disk : Disk σ) (laws : DiskLaws disk) (bs bc : ℕ) (addr : ℕ → BlockAddress)
    (block : ℕ → List ℕ) (top : ℕ) where
  abbrev Chain : σ → Type 0
  Chain st = KeepsChain (disk.storage st) bs bc addr block top

  verified :
      (st : σ) (c : BlockAddress) (image : List ℕ)
      → verify_programmed disk st c 0 image ≡ true
      → (back : List ℕ) × (disk.read_device st c 0 (length image) ≡ some back)
        × (Crc.update Crc.init back ≡ Crc.update Crc.init image)
  unfolding verify_programmed
  verified st c image h = elim (Option-cases (disk.read_device st c 0 (length image))) [
    | inl e ↦ let failed : false ≡ true = rw (e, verify_programmed) at h in absurd (cc)
    | inr (back, e) ↦ (
      back,
      e,
      (==_iff (Crc.update Crc.init back) (Crc.update Crc.init image)).0
          (rw (e, verify_programmed) at h),
    )
  ]

  -- An attempt at a block outside the chain leaves the chain, and where it succeeds, the image.
  tried :
      (c : BlockAddress) (image : List ℕ) (st : σ)
      → ((i : ℕ) → i ≤ top → addr i ≢ c)
      → c < bc
      → length image ≡ bs
      → Chain st
      → Chain (try_block disk c image st).1
        × ((try_block disk c image st).0 ≡ true
            → Holds (disk.storage (try_block disk c image st).1) c image)
  unfolding try_block
  tried c image st off on size k =
      let erased = disk.erase c st in
      let sent = disk.program c 0 image erased.1 in
      let k1 : Chain erased.1 =
        moved (disk.storage st) (disk.storage erased.1) bs bc addr block top (laws.erase_shape st c)
          (λ i l h. laws.erase_apart st c (addr i) (block i) (off i l) h) k in
      let k2 : Chain sent.1 =
        moved (disk.storage erased.1) (disk.storage sent.1) bs bc addr block top
          (laws.program_shape erased.1 c 0 image)
          (λ i l h. laws.program_apart erased.1 c 0 image (addr i) (block i) (off i l) h) k1 in
      elim (Bool-cases erased.0) [
        | inr e ↦ rw (e, try_block) (k1, λ h. absurd (cc))
        | inl e ↦ elim (Bool-cases sent.0) [
          | inr p ↦ rw (e, p, try_block) (k2, λ h. absurd (cc))
          | inl p ↦
              rw (e, p, try_block)
                (
                  k2,
                  λ h.
                      let (back, r, same) = verified sent.1 c image h in
                      laws.programmed st c image back (subst (λ (m : ℕ). c < m) (sym k.count) on)
                        (size ∙ sym k.size) e p r same,
                )
        ]
      ]

  module _ (len_a len_b n keep : ℕ) (here : n ≤ top) (short : keep ≤ bs) where
    abbrev Ready : Fs σ → Type 0
    Ready fs = Chain fs.device × CacheCovers nothing_live fs.used_cache

    abbrev Moved : σ → BlockAddress → Type 0
    Moved st c =
        (c < bc)
        × Holds (disk.storage st) c (kept keep bs (block n))
        × ((i : ℕ) → i ≤ top → addr i ≢ c)

    same_block :
        (s : Storage) (i : ℕ) (old : List ℕ)
        → Holds s (addr i) (block i)
        → read_or_io s (addr i) 0 s.block_size ≡ ok old
        → old ≡ block i
    same_block s i old h e =
        let same : ok old ≡ ok (block i) = sym e ∙ read_or_io-block s (addr i) (block i) h in cc

    length-kept : (i : ℕ) → length (block i) ≡ bs → length (kept keep bs (block i)) ≡ bs
    unfolding kept
    length-kept i full = omega (
      arith,
      length-append (take keep (block i)) (replicate (bs - keep) 0xff),
      length-take keep (block i),
      length-replicate {A = ℕ} (bs - keep) 0xff,
      full,
    )

    attempted :
        (ex : List BlockAddress) (fs : Fs σ)
        → ((i : ℕ) → i ≤ top → has (addr i) ex ≡ true)
        → Ready fs
        → Ready (attempt disk len_a len_b ex (addr n) keep fs).1
          × ((c : BlockAddress)
              → (attempt disk len_a len_b ex (addr n) keep fs).0 ≡ ok (c, true)
              → Moved (attempt disk len_a len_b ex (addr n) keep fs).1.device c)
    unfolding attempt alloc_blocks_cached
    attempted ex fs named r =
        let s = disk.storage fs.device in
        let out = alloc_blocks_cached s fs.root fs.used_cache ex none 1 len_a len_b in
        let g : CacheGranted nothing_live ex 1 s.block_count out =
          take_cached-CacheGranted nothing_live s ex 1
            (scan_used_blocks s fs.root len_a len_b empty) fs.used_cache none r.1
            (scan-ScanCovers s fs.root len_a len_b) in
        let cache = cache_after ex s.block_count out g in
        elim (Result-cases out.0) [
          | inr (x, e) ↦ rw (e, attempt) ((r.0, cache), λ c h. absurd (cc))
          | inl (blocks, e) ↦ elim (Result-cases (read_or_io s (addr n) 0 s.block_size)) [
            | inr (x, f) ↦ rw (e, f, attempt) ((r.0, cache), λ c h. absurd (cc))
            | inl (old, f) ↦
                let (on, new) = candidate ex s.block_count out blocks g e in
                let c = get_or blocks 0 address_none in
                let read : old ≡ block n = same_block s n old (r.0.held n here) f in
                let image : kept keep s.block_size old ≡ kept keep bs (block n) =
                  rw (read, r.0.size) refl in
                let (k, done) =
                  tried c (kept keep bs (block n)) fs.device
                    (λ i l. apart (addr i) c ex (named i l) new)
                    (subst (λ (m : ℕ). c < m) r.0.count on)
                    (length-kept n ((r.0.held n here).full ∙ r.0.size)) r.0 in
                rw (e, f, image, attempt)
                  (
                    (k, cache),
                    λ d h.
                        let at : c ≡ d = cc in
                        let worked : (try_block disk c (kept keep bs (block n)) fs.device).0
                            ≡ true =
                          cc in
                        subst (Moved (try_block disk c (kept keep bs (block n)) fs.device).1) at (
                          subst (λ (m : ℕ). c < m) r.0.count on,
                          done worked,
                          λ i l. apart (addr i) c ex (named i l) new,
                        ),
                  )
          ]
        ]

    -- Whatever fails, the chain stays, and a relocation that returns has written the image.
    pub relocated :
        (left : ℕ) (ex : List BlockAddress) (fs : Fs σ)
        → ((i : ℕ) → i ≤ top → has (addr i) ex ≡ true)
        → Ready fs
        → Ready (relocate disk len_a len_b left ex (addr n) keep fs).1
          × ((c : BlockAddress)
              → (relocate disk len_a len_b left ex (addr n) keep fs).0 ≡ ok c
              → Moved (relocate disk len_a len_b left ex (addr n) keep fs).1.device c)
    unfolding relocate
    relocated zero ex fs named r =
        let (k, done) = attempted ex fs named r in
        elim (Result-cases (attempt disk len_a len_b ex (addr n) keep fs).0) [
          | inr (x, e) ↦ rw (e, relocate) (k, λ c h. absurd (cc))
          | inl ((c, true), e) ↦
              rw (e, relocate) (k, λ d h. let at : c ≡ d = cc in subst (Moved _) at (done c e))
          | inl ((c, false), e) ↦ rw (e, relocate) (k, λ d h. absurd (cc))
        ]
    relocated (suc left) ex fs named r =
        let (k, done) = attempted ex fs named r in
        elim (Result-cases (attempt disk len_a len_b ex (addr n) keep fs).0) [
          | inr (x, e) ↦ rw (e, relocate) (k, λ c h. absurd (cc))
          | inl ((c, true), e) ↦
              rw (e, relocate) (k, λ d h. let at : c ≡ d = cc in subst (Moved _) at (done c e))
          | inl ((c, false), e) ↦
              rw (e, relocate)
                (relocated left (ex ++ (c ∷ []))
                  (record (attempt disk len_a len_b ex (addr n) keep fs).1 { used_cache = none })
                  (λ i l. has-append (addr i) c ex (named i l)) (k.0, tt))
        ]
