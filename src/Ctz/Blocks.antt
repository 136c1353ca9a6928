-- ===== src/Ctz/Blocks.antt =====
-- A file on a device, block by block, and `collect_chain_blocks_buffered`, which finds its blocks.
use littlefs2_pure.Prelude.{
  ℕ, zero, suc, ◌+◌, ◌-◌, ◌*◌, ◌%◌, ◌^◌, ◌≤◌, ◌<◌, ◌≡◌, refl, sym, ap, ◌∙◌, inl, inr, true, false,
  Bool-cases, List, ◌==◌, ltb-false, length, get_or, set, get_or-set, get_or-take, get_or-set_other,
  length-set, ok, arith,
}
use littlefs2_pure.Prelude.Words.{u32}
use littlefs2_pure.Prelude.Bytes.{slice, le32_at}
use littlefs2_pure.Prelude.Counts.{trailing_zeros, low_zeros}
use littlefs2_pure.Block.{BlockAddress}
use littlefs2_pure.Storage.{Storage}
use littlefs2_pure.Storage.Range.{Holds, read_range-eq}
use littlefs2_pure.Ctz.{read_header, collect_walk, collect_chain_blocks_buffered}
use littlefs2_pure.Ctz.Seek.{require_in_bounds-lt}

-- The blocks at `addr 0`, .. up to `addr top`: each is on the device, holds `block i`, and has at
-- its front the addresses of the blocks that its skip pointers lead to.
pub record IsFile (s : Storage) (addr : ℕ → BlockAddress) (block : ℕ → List ℕ) (top : ℕ)
    : Type 0 where
  pub on_device : (i : ℕ) → i ≤ top → addr i < s.block_count
  pub holds : (i : ℕ) → i ≤ top → Holds s (addr i) (block i)
  pub points :
      (i k : ℕ)
      → 0 < i
      → i ≤ top
      → k ≤ trailing_zeros i
      → le32_at (block i) (4 * k) ≡ addr (i - 2 ^ k)

-- The addresses up to `i`, set from the top down.
pub fill : (ℕ → BlockAddress) → ℕ → List BlockAddress → List BlockAddress
fill addr zero out = set out 0 (addr 0)
fill addr (suc i) out = fill addr i (set out (suc i) (addr (suc i)))

fill_above :
    (addr : ℕ → BlockAddress) (i j : ℕ) (out : List BlockAddress) (d : BlockAddress)
    → i < j
    → get_or (fill addr i out) j d ≡ get_or out j d
unfolding fill
fill_above addr zero j out d h = get_or-set_other out 0 j (addr 0) d (λ e. absurd (omega arith))
fill_above addr (suc i) j out d h =
    fill_above addr i j (set out (suc i) (addr (suc i))) d (omega arith)
    ∙ get_or-set_other out (suc i) j (addr (suc i)) d (λ e. absurd (omega arith))

-- What the buffer then has at each of the places.
pub get_or-fill :
    (addr : ℕ → BlockAddress) (i j : ℕ) (out : List BlockAddress) (d : BlockAddress)
    → j ≤ i
    → i < length out
    → get_or (fill addr i out) j d ≡ addr j
unfolding fill
get_or-fill addr zero j out d h k =
    let at : 0 ≡ j = omega arith in
    ap (λ (m : ℕ). get_or (set out 0 (addr 0)) m d) (sym at)
    ∙ get_or-set out 0 (addr 0) d k
    ∙ ap addr at
get_or-fill addr (suc i) j out d h k = elim (Bool-cases (j == suc i)) [
  | inl e ↦
      let at : suc i ≡ j = ground arith in
      ap (λ (m : ℕ). get_or (fill addr i (set out (suc i) (addr (suc i)))) m d) (sym at)
      ∙ fill_above addr i (suc i) (set out (suc i) (addr (suc i))) d (omega arith)
      ∙ get_or-set out (suc i) (addr (suc i)) d k
      ∙ ap addr at
  | inr e ↦
      get_or-fill addr i j (set out (suc i) (addr (suc i))) d (ground arith)
        (omega (arith, length-set out (suc i) (addr (suc i))))
]

pub length-fill :
    (addr : ℕ → BlockAddress) (i : ℕ) (out : List BlockAddress)
    → length (fill addr i out) ≡ length out
unfolding fill
length-fill addr zero out = length-set out 0 (addr 0)
length-fill addr (suc i) out =
    length-fill addr i (set out (suc i) (addr (suc i))) ∙ length-set out (suc i) (addr (suc i))

even_pointers : (i : ℕ) → (2 - i % 2 == 2) ≡ true → 1 ≤ trailing_zeros i
unfolding trailing_zeros low_zeros
even_pointers i h = ground arith

-- A word that lies in the prefix that was read.
pub le32_at-prefix : (xs : List ℕ) (n i : ℕ) → i + 4 ≤ n → le32_at (slice xs 0 n) i ≡ le32_at xs i
unfolding le32_at slice
le32_at-prefix xs n i h = omega (
  arith,
  get_or-take n xs i 0 (omega arith),
  get_or-take n xs (i + 1) 0 (omega arith),
  get_or-take n xs (i + 2) 0 (omega arith),
  get_or-take n xs (i + 3) 0 (omega arith),
)

module _ (s : Storage) (addr : ℕ → BlockAddress) (block : ℕ → List ℕ) (top window_len : ℕ)
    (f : IsFile s addr block top) (window : s.read_size ≤ window_len)
    (roomy : 8 ≤ s.block_size) where
  header-eq :
      (i : ℕ)
      → i ≤ top
      → read_header s (addr i) i window_len ≡ ok (slice (block i) 0 (4 * (2 - i % 2)))
  unfolding read_header
  header-eq i h =
      read_range-eq s (addr i) (block i) (f.holds i h) 0 (4 * (2 - i % 2)) window_len window
        (omega arith)

  near-eq :
      (i : ℕ) → suc i ≤ top → le32_at (slice (block (suc i)) 0 (4 * (2 - suc i % 2))) 0 ≡ addr i
  near-eq i h =
      let back : suc i - 2 ^ 0 ≡ i = omega arith in
      le32_at-prefix (block (suc i)) (4 * (2 - suc i % 2)) 0 (omega arith)
      ∙ f.points (suc i) 0 (omega arith) h (omega arith)
      ∙ ap addr back

  far-eq :
      (i : ℕ)
      → suc (suc i) ≤ top
      → (2 - suc (suc i) % 2 == 2) ≡ true
      → le32_at (slice (block (suc (suc i))) 0 (4 * (2 - suc (suc i) % 2))) 4 ≡ addr i
  far-eq i h even =
      let back : suc (suc i) - 2 ^ 1 ≡ i = omega arith in
      le32_at-prefix (block (suc (suc i))) (4 * (2 - suc (suc i) % 2)) 4 (ground arith)
      ∙ f.points (suc (suc i)) 1 (omega arith) h (even_pointers (suc (suc i)) even)
      ∙ ap addr back

  collect_walk-eq :
      (i : ℕ) (out : List BlockAddress)
      → i ≤ top
      → collect_walk s i (addr i) out window_len ≡ ok (fill addr i out)
  unfolding collect_walk fill
  collect_walk-eq zero out h = rw (require_in_bounds-lt s (addr 0) (f.on_device 0 h)) refl
  collect_walk-eq (suc zero) out h =
      rw (require_in_bounds-lt s (addr 1) (f.on_device 1 h), header-eq 1 h, near-eq 0 h)
        (rw (require_in_bounds-lt s (addr 0) (f.on_device 0 (omega arith))) refl)
  collect_walk-eq (suc (suc i)) out h =
      let here = require_in_bounds-lt s (addr (suc (suc i))) (f.on_device (suc (suc i)) h) in
      let next = require_in_bounds-lt s (addr (suc i)) (f.on_device (suc i) (omega arith)) in
      elim (Bool-cases (2 - suc (suc i) % 2 == 2)) [
        | inl even ↦
            rw (here, header-eq (suc (suc i)) h)
              (rw (even, near-eq (suc i) h, next, far-eq i h even)
                (collect_walk-eq i
                  (set (set out (suc (suc i)) (addr (suc (suc i)))) (suc i) (addr (suc i)))
                  (omega arith)))
        | inr odd ↦
            rw (here, header-eq (suc (suc i)) h)
              (rw (odd, near-eq (suc i) h)
                (collect_walk-eq (suc i) (set out (suc (suc i)) (addr (suc (suc i))))
                  (omega arith)))
      ]

  -- From the head of the file, the walk fills the buffer with the addresses of all its blocks.
  pub collect_chain_blocks-eq :
      (out : List BlockAddress)
      → top < length out
      → length out < 2 ^ 32
      → collect_chain_blocks_buffered s (addr top) (suc top) out window_len ≡ ok (fill addr top out)
  unfolding collect_chain_blocks_buffered
  collect_chain_blocks-eq out h k =
      let some_blocks : (suc top == 0) ≡ false = ground arith in
      let word : u32 (length out) ≡ length out = omega arith in
      let back : suc top - 1 ≡ top = omega arith in
      rw (some_blocks, word, ltb-false (length out) (suc top) (omega arith), back)
        (collect_walk-eq top out (omega arith))
