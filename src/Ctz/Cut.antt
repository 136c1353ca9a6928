-- ===== src/Ctz/Cut.antt =====
-- The front of a file: with its own last block, or with a copy of it in another place.
use littlefs2_pure.Prelude.{
  ℕ, zero, suc, ◌+◌, ◌-◌, ◌*◌, ◌^◌, ◌≤◌, ◌<◌, ◌≡◌, refl, sym, ap, ◌∙◌, inl, inr, subst, Bool-cases,
  true, false, List, [], ◌∷◌, ◌++◌, ◌==◌, if◌then◌else◌, length, take, drop, length-take, arith,
}
use native.Mathlib.Nat.{pow-le-pow_right}
use littlefs2_pure.Prelude.Bytes.{slice, le32_at}
use littlefs2_pure.Prelude.Slices.{take-take, slice-slice}
use littlefs2_pure.Prelude.Counts.{trailing_zeros}
use littlefs2_pure.Block.{BlockAddress}
use littlefs2_pure.Storage.{Storage}
use littlefs2_pure.Storage.Range.{Holds}
use littlefs2_pure.Ctz.{skip_pointers_in_block, content_bytes_in_block, block_count}
use littlefs2_pure.Ctz.Index.{content_before}
use littlefs2_pure.Ctz.Contents.{contents, content_before_mono, slice_left, length-contents}
use littlefs2_pure.Ctz.Blocks.{IsFile, le32_at-prefix}

-- The chain of a head and a size holds bytes.
pub record HoldsFile (s : Storage) (head : BlockAddress) (size : ℕ) (bytes : List ℕ) : Type 0 where
  pub addr : ℕ → BlockAddress
  pub block : ℕ → List ℕ
  pub top : ℕ
  pub file : IsFile s addr block top
  pub headed : addr top ≡ head
  pub counted : block_count size s.block_size ≡ suc top
  pub content : bytes ≡ take size (contents s.block_size block (suc top))

take_left : (xs ys : List ℕ) (k : ℕ) → k ≤ length xs → take k (xs ++ ys) ≡ take k xs
unfolding slice
take_left xs ys k h = slice_left xs ys 0 k (omega arith)

take_right : (xs ys : List ℕ) (n k : ℕ) → n ≡ length xs + k → take n (xs ++ ys) ≡ xs ++ take k ys
take_right [] ys n k e = ap (λ m. take m ys) (e ∙ omega arith)
take_right (x ∷ xs) ys zero k e = absurd (omega arith)
take_right (x ∷ xs) ys (suc n) k e = ap (λ t. x ∷ t) (take_right xs ys n k (omega arith))

pub content_before_le : (bs i n : ℕ) → i ≤ n → content_before bs i ≤ content_before bs n
content_before_le bs i n h = elim (Bool-cases (i == n)) [
  | inl e ↦ let at : i ≡ n = ground arith in rw at (omega arith)
  | inr e ↦ omega (arith, content_before_mono bs i n (ground arith))
]

module _ (bs : ℕ) (wide : 128 ≤ bs) (word : bs < 2 ^ 32) where
  -- The front that lies in the first blocks.
  pub take-contents :
      (block : ℕ → List ℕ) (n i k : ℕ)
      → i ≤ n
      → n < 2 ^ 26
      → ((j : ℕ) → j < n → length (block j) ≡ bs)
      → k ≤ content_before bs i
      → take k (contents bs block n) ≡ take k (contents bs block i)
  unfolding contents
  take-contents block zero i k h l full m =
      let at : i ≡ zero = omega arith in ap (λ j. take k (contents bs block j)) (sym at)
  take-contents block (suc n) i k h l full m = elim (Bool-cases (i == suc n)) [
    | inl e ↦ let at : i ≡ suc n = ground arith in ap (λ j. take k (contents bs block j)) (sym at)
    | inr e ↦
        let below : i ≤ n = ground arith in
        let room =
          length-contents bs block wide word n (omega arith) (λ j lt. full j (omega arith)) in
        take_left (contents bs block n)
          (slice (block n) (4 * skip_pointers_in_block n) (content_bytes_in_block n bs)) k
          (omega (arith, room, content_before_le bs i n below))
        ∙ take-contents block n i k below (omega arith) (λ j lt. full j (omega arith)) m
  ]

  contents_ext :
      (block block' : ℕ → List ℕ) (n : ℕ)
      → ((i : ℕ) → i < n → block' i ≡ block i)
      → contents bs block' n ≡ contents bs block n
  unfolding contents
  contents_ext block block' zero h = refl
  contents_ext block block' (suc n) h =
      rw (contents_ext block block' n (λ i l. h i (omega arith)), h n (omega arith)) refl

  -- Two files with the same blocks but the last, of which a front of the content is the same.
  pub take-contents_same :
      (block block' : ℕ → List ℕ) (n used : ℕ)
      → suc n < 2 ^ 26
      → ((j : ℕ) → j < suc n → length (block j) ≡ bs)
      → ((j : ℕ) → j < n → block' j ≡ block j)
      → used ≤ content_bytes_in_block n bs
      → slice (block' n) (4 * skip_pointers_in_block n) used
        ≡ slice (block n) (4 * skip_pointers_in_block n) used
      → take (content_before bs n + used) (contents bs block' (suc n))
        ≡ take (content_before bs n + used) (contents bs block (suc n))
  unfolding contents slice
  take-contents_same block block' n used few full same le front =
      let room =
        length-contents bs block wide word n (omega arith) (λ j lt. full j (omega arith)) in
      let h = 4 * skip_pointers_in_block n in
      let c = content_bytes_in_block n bs in
      let count : content_before bs n + used ≡ length (contents bs block n) + used =
        omega (arith, room) in
      rw (contents_ext block block' n same) (
        take_right (contents bs block n) (take c (drop h (block' n))) _ used count
        ∙ ap (λ t. contents bs block n ++ t)
            (take-take used c (drop h (block' n)) le
              ∙ front
              ∙ sym (take-take used c (drop h (block n)) le))
        ∙ sym (take_right (contents bs block n) (take c (drop h (block n))) _ used count))

-- A function with another value at one place.
abbrev pub put {ℓ} : {A : Type ℓ} → (ℕ → A) → ℕ → A → ℕ → A
put f n a i = if i == n then a else f i

pub put_at {ℓ} : {A : Type ℓ} (f : ℕ → A) (n : ℕ) (a : A) → put f n a n ≡ a
put_at f n a = let e : (n == n) ≡ true = ground arith in rw e refl

pub put_off {ℓ} : {A : Type ℓ} (f : ℕ → A) (n : ℕ) (a : A) (i : ℕ) → i < n → put f n a i ≡ f i
put_off f n a i h = let e : (i == n) ≡ false = ground arith in rw e refl

power_pos : (k : ℕ) → 1 ≤ 2 ^ k
power_pos k = pow-le-pow_right {n = 2} (omega arith) {i = 0} {j = k} (omega arith)

-- The front of a file whose last block is a copy at another address, on a device that has kept the
-- blocks before it.
module _ (s s' : Storage) (addr : ℕ → BlockAddress) (block : ℕ → List ℕ) (top n : ℕ)
    (f : IsFile s addr block top) (h : n ≤ top) (c : BlockAddress) (image : List ℕ)
    (there : c < s'.block_count) (held : Holds s' c image)
    (kept : (i : ℕ) → i ≤ top → Holds s' (addr i) (block i))
    (count : s'.block_count ≡ s.block_count)
    (pointers : (k : ℕ)
      → 0 < n
      → k ≤ trailing_zeros n
      → le32_at image (4 * k) ≡ le32_at (block n) (4 * k)) where
  kept-IsFile : IsFile s' addr block top
  kept-IsFile = record {
    on_device = λ i l. subst (λ m. addr i < m) (sym count) (f.on_device i l);
    holds = kept;
    points = f.points;
  }

  pub put-IsFile : IsFile s' (put addr n c) (put block n image) n
  put-IsFile = record {
    on_device = λ i l. elim (Bool-cases (i == n)) [
      | inl e ↦ rw e there
      | inr e ↦ rw e (kept-IsFile.on_device i (omega arith))
    ];
    holds = λ i l. elim (Bool-cases (i == n)) [
      | inl e ↦ rw e held
      | inr e ↦ rw e (kept i (omega arith))
    ];
    points = λ i k pos l few. elim (Bool-cases (i == n)) [
      | inl e ↦
          let at : i ≡ n = ground arith in
          let few' : k ≤ trailing_zeros n = subst (λ j. k ≤ trailing_zeros j) at few in
          let word =
            ap (λ j. le32_at (put block n image j) (4 * k)) at
            ∙ ap (λ b. le32_at b (4 * k)) (put_at block n image)
            ∙ pointers k (omega arith) few'
            ∙ f.points n k (omega arith) h few' in
          word
          ∙ sym (put_off addr n c (n - 2 ^ k) (omega (arith, power_pos k)))
          ∙ ap (λ j. put addr n c (j - 2 ^ k)) (sym at)
      | inr e ↦
          ap (λ b. le32_at b (4 * k)) (put_off block n image i (ground arith))
          ∙ f.points i k pos (omega arith) few
          ∙ sym (put_off addr n c (i - 2 ^ k) (ground (arith, power_pos k)))
    ];
  }

-- The front of a file with its own last block.
pub front-IsFile :
    (s : Storage) (addr : ℕ → BlockAddress) (block : ℕ → List ℕ) (top n : ℕ)
    → IsFile s addr block top
    → n ≤ top
    → IsFile s addr block n
front-IsFile s addr block top n f h = record {
  on_device = λ i l. f.on_device i (omega arith);
  holds = λ i l. f.holds i (omega arith);
  points = λ i k pos l few. f.points i k pos (omega arith) few;
}

-- What a block and a copy of its front have in common.
module _ (old more : List ℕ) (keep : ℕ) (fits_in : keep ≤ length old) where
  pub slice-front : (a m : ℕ) → a + m ≤ keep → slice (take keep old ++ more) a m ≡ slice old a m
  unfolding slice
  slice-front a m h =
      slice_left (take keep old) more a m (omega (arith, length-take keep old))
      ∙ slice-slice old 0 keep a m h
      ∙ ap (λ j. slice old j m) {x = 0 + a} {y = a} (omega arith)

  pub le32_at-front : (i : ℕ) → i + 4 ≤ keep → le32_at (take keep old ++ more) i ≡ le32_at old i
  le32_at-front i h =
      sym (le32_at-prefix (take keep old ++ more) keep i h)
      ∙ ap (λ b. le32_at b i) (slice-front 0 keep (omega arith))
      ∙ le32_at-prefix old keep i h
