-- ===== src/Ctz/Contents.antt =====
-- The content of a file's blocks as one list, and where a range of it lies in the blocks.
use littlefs2_pure.Prelude.{
  ℕ, zero, suc, ◌+◌, ◌-◌, ◌*◌, ◌^◌, ◌≤◌, ◌<◌, ◌≡◌, refl, sym, ap, ◌∙◌, inl, inr, false, Bool-cases,
  subst, List, [], ◌∷◌, ◌++◌, ◌==◌, length, take, drop, length-append, take-append, drop-append,
  drop-drop, arith,
}
use mathlib.Core.List.{append_assoc}
use littlefs2_pure.Prelude.Bytes.{slice, copy_at}
use littlefs2_pure.Prelude.Slices.{slice-slice, length-slice}
use littlefs2_pure.Ctz.{
  skip_pointers_in_block, content_bytes_in_block, block_count, block_index_at_offset,
}
use littlefs2_pure.Ctz.Index.{
  content_before, block_index_at_offset-content_before, trailing_zeros_le,
}

-- The pointers of a block and its content fill the block.
pub fits :
    (bs i : ℕ)
    → 128 ≤ bs
    → bs < 2 ^ 32
    → i < 2 ^ 26
    → (4 * skip_pointers_in_block i + content_bytes_in_block i bs ≡ bs)
      × (0 < content_bytes_in_block i bs)
unfolding content_bytes_in_block skip_pointers_in_block
fits bs zero h k l = (omega arith, omega arith)
fits bs (suc i) h k l =
    let le = trailing_zeros_le i (omega arith) l in
    let positive : (suc i == 0) ≡ false = ground arith in rw positive (omega arith, omega arith)

pub slice_left :
    (xs ys : List ℕ) (p n : ℕ) → p + n ≤ length xs → slice (xs ++ ys) p n ≡ slice xs p n
unfolding slice
slice_left [] ys zero zero h = refl
slice_left [] ys zero (suc n) h = absurd (omega arith)
slice_left [] ys (suc p) n h = absurd (omega arith)
slice_left (x ∷ xs) ys zero zero h = refl
slice_left (x ∷ xs) ys zero (suc n) h = ap (λ t. x ∷ t) (slice_left xs ys 0 n (omega arith))
slice_left (x ∷ xs) ys (suc p) n h = slice_left xs ys p n (omega arith)

slice_right : (xs ys : List ℕ) (p a n : ℕ) → p ≡ length xs + a → slice (xs ++ ys) p n ≡ slice ys a n
unfolding slice
slice_right [] ys p a n e = ap (λ k. take n (drop k ys)) (e ∙ omega arith)
slice_right (x ∷ xs) ys zero a n e = absurd (omega arith)
slice_right (x ∷ xs) ys (suc p) a n e = slice_right xs ys p a n (omega arith)

-- A second copy that begins where the first one ends.
pub copy_join :
    (out xs ys : List ℕ) (m : ℕ)
    → m ≡ length xs
    → copy_at (copy_at out 0 xs) m ys ≡ copy_at out 0 (xs ++ ys)
unfolding copy_at
copy_join out xs ys m e =
    let rest = drop (0 + length xs) out in
    let beyond : drop (length xs + length ys) (xs ++ rest) ≡ drop (0 + length (xs ++ ys)) out =
      sym (drop-drop (length ys) (length xs) (xs ++ rest))
      ∙ ap (drop (length ys)) (drop-append xs rest)
      ∙ drop-drop (length ys) (0 + length xs) out
      ∙ ap (λ (k : ℕ). drop k out) (omega (arith, length-append xs ys)) in
    ap (λ (k : ℕ). copy_at (xs ++ rest) k ys) e
    ∙ rw (take-append xs rest, beyond) (sym (append_assoc xs ys (drop (0 + length (xs ++ ys)) out)))

pub content_before_mono :
    (bs i n : ℕ) → i < n → content_before bs i + content_bytes_in_block i bs ≤ content_before bs n
unfolding content_before
content_before_mono bs i zero h = absurd (omega arith)
content_before_mono bs i (suc n) h = elim (Bool-cases (i == n)) [
  | inl e ↦ let at : i ≡ n = ground arith in rw at (omega arith)
  | inr e ↦ omega (arith, content_before_mono bs i n (ground arith))
]

-- The content of the blocks before block `n`.
unfoldable pub contents : ℕ → (ℕ → List ℕ) → ℕ → List ℕ
contents bs block zero = []
contents bs block (suc i) =
    contents bs block i
    ++ slice (block i) (4 * skip_pointers_in_block i) (content_bytes_in_block i bs)

pub by_count :
    (size bs : ℕ) → 0 < size → block_count size bs ≡ suc (block_index_at_offset (size - 1) bs).0
unfolding block_count
by_count size bs pos =
    let positive : (size == 0) ≡ false = ground arith in rw positive (omega arith)

-- The blocks of a file of `size` bytes have room for them.
pub covers :
    (bs size : ℕ)
    → 128 ≤ bs
    → bs < 2 ^ 32
    → size < 2 ^ 32
    → 0 < size
    → block_count size bs < 2 ^ 26
    → size ≤ content_before bs (block_count size bs)
covers bs size h k l pos few =
    let i = (block_index_at_offset (size - 1) bs).0 in
    let (at, past, inside) = block_index_at_offset-content_before (size - 1) bs h k (omega arith) in
    let count = by_count size bs pos in
    let (filled, some_room) = fits bs i h k (omega arith) in
    rw count (omega (arith, content_before_mono bs i (suc i) (omega arith)))

module _ (bs : ℕ) (block : ℕ → List ℕ) (wide : 128 ≤ bs) (word : bs < 2 ^ 32) where
  pub length-contents :
      (n : ℕ)
      → n < 2 ^ 26
      → ((i : ℕ) → i < n → length (block i) ≡ bs)
      → length (contents bs block n) ≡ content_before bs n
  unfolding contents content_before
  length-contents zero l full = refl
  length-contents (suc n) l full =
      let (fill_up, pos) = fits bs n wide word (omega arith) in
      let size = full n (omega arith) in
      omega (
        arith,
        length-append (contents bs block n)
            (slice (block n) (4 * skip_pointers_in_block n) (content_bytes_in_block n bs)),
        length-slice (block n) (4 * skip_pointers_in_block n) (content_bytes_in_block n bs)
            (omega arith),
        length-contents n (omega arith) (λ i lt. full i (omega arith)),
      )

  -- A range inside one block's content is that range of the block.
  pub contents_piece :
      (n i a m : ℕ)
      → i < n
      → n < 2 ^ 26
      → ((j : ℕ) → j < n → length (block j) ≡ bs)
      → a + m ≤ content_bytes_in_block i bs
      → slice (contents bs block n) (content_before bs i + a) m
        ≡ slice (block i) (4 * skip_pointers_in_block i + a) m
  unfolding contents
  contents_piece zero i a m lt l full h = absurd (omega arith)
  contents_piece (suc n) i a m lt l full h =
      let before = contents bs block n in
      let piece = slice (block n) (4 * skip_pointers_in_block n) (content_bytes_in_block n bs) in
      let size = length-contents n (omega arith) (λ j k. full j (omega arith)) in
      elim (Bool-cases (i == n)) [
        | inl e ↦
            let at : i ≡ n = ground arith in
            let room : a + m ≤ content_bytes_in_block n bs =
              subst (λ (k : ℕ). a + m ≤ content_bytes_in_block k bs) at h in
            slice_right before piece (content_before bs i + a) a m
              (ap (λ k. content_before bs k + a) at ∙ ap (λ (k : ℕ). k + a) (sym size))
            ∙ slice-slice (block n) (4 * skip_pointers_in_block n) (content_bytes_in_block n bs) a m
                room
            ∙ ap (λ k. slice (block k) (4 * skip_pointers_in_block k + a) m) (sym at)
        | inr e ↦
            let below : i < n = ground arith in
            slice_left before piece (content_before bs i + a) m
              (omega (arith, content_before_mono bs i n below, size))
            ∙ contents_piece n i a m below (omega arith) (λ j k. full j (omega arith)) h
      ]
