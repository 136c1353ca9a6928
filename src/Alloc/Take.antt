-- ===== src/Alloc/Take.antt =====
-- The choice of free blocks in src/alloc.rs: `take_free_blocks` and the loops like it.
use littlefs2_pure.Prelude.{
  ℕ, zero, suc, true, false, List, [], ◌∷◌, Result, ok, err, ◌>>=◌, out_of_range,
}
use littlefs2_pure.Block.{BlockAddress, is_none}
use littlefs2_pure.Alloc.{Bitmap, mark, is_set}

-- The marks of the excluded blocks, and the bitmap as they leave it, also where one of them fails.
unfoldable pub mark_excluded : List BlockAddress → Bitmap → Result (Unit {0}) × Bitmap
unfolding is_none
mark_excluded [] m = (ok tt, m)
mark_excluded (ex ∷ rest) m = elim (is_none ex) [
  | true ↦ mark_excluded rest m
  | false ↦ elim (mark ex m) [ ok m' ↦ mark_excluded rest m' | err e ↦ (err e, m) ]
]

-- The loop over the blocks `b, b + 1, ..` of which `left` remain, for `wanted` more blocks. It
-- ends early once the output is full, and fails where the device ends first.
unfoldable pub pick_free : ℕ → ℕ → ℕ → Bitmap → Result (List BlockAddress) × Bitmap
pick_free left b zero m = (ok [], m)
pick_free zero b (suc wanted) m = (err out_of_range, m)
pick_free (suc left) b (suc wanted) m = elim (is_set m b) [
  | true ↦ pick_free left (suc b) (suc wanted) m
  | false ↦ elim (mark b m) [
    | err e ↦ (err e, m)
    | ok m' ↦
        let (r, m'') = pick_free left (suc b) wanted m' in ((r >>= λ blocks. ok (b ∷ blocks)), m'')
  ]
]

unfoldable pub take_free_blocks :
    Bitmap → List BlockAddress → ℕ → ℕ → Result (List BlockAddress) × Bitmap
unfolding mark_excluded pick_free
take_free_blocks used excluded wanted block_count =
    let (r, marked) = mark_excluded excluded used in
    elim r [ err e ↦ (err e, marked) | ok u ↦ pick_free block_count 0 wanted marked ]
