-- ===== src/File/Reading.antt =====
-- `File::read` of src/file.rs on a device that holds the handle's chain.
use littlefs2_pure.Prelude.{
  ℕ, zero, suc, ◌+◌, ◌-◌, ◌^◌, ◌≤◌, ◌<◌, min, ◌≡◌, refl, sym, ap, ◌∙◌, inl, inr, subst, true, false,
  ◌||◌, Bool-cases, List, [], ◌∷◌, ◌++◌, leb, ◌==◌, length, take, drop, length-take, Result, ok,
  arith,
}
use littlefs2_pure.Prelude.Words.{u32}
use littlefs2_pure.Prelude.Bytes.{slice, copy_at}
use littlefs2_pure.Prelude.Slices.{slice-slice, length-slice}
use littlefs2_pure.Block.{address_none}
use littlefs2_pure.Storage.{Storage}
use littlefs2_pure.Ctz.{block_count, max_ctz_blocks, read_ctz_at}
use littlefs2_pure.Ctz.Index.{content_before}
use littlefs2_pure.Ctz.Contents.{contents, covers, length-contents}
use littlefs2_pure.Ctz.Cut.{HoldsFile}
use littlefs2_pure.Ctz.Whole.{read_ctz_at-eq}
use littlefs2_pure.File.{File, FsOps, read, after_read}

drop_all : (xs : List ℕ) (n : ℕ) → length xs ≤ n → drop n xs ≡ []
drop_all [] zero h = refl
drop_all [] (suc n) h = refl
drop_all (x ∷ xs) zero h = absurd (omega arith)
drop_all (x ∷ xs) (suc n) h = drop_all xs n (omega arith)

no_rest : (xs : List ℕ) → xs ++ [] ≡ xs
no_rest [] = refl
no_rest (x ∷ xs) = ap (λ t. x ∷ t) (no_rest xs)

-- A copy over the whole front of a buffer is the copy into the buffer.
copy_front :
    (out xs : List ℕ) (n : ℕ)
    → length xs ≡ n
    → n ≤ length out
    → copy_at (take n out) 0 xs ++ drop n out ≡ copy_at out 0 xs
unfolding copy_at
copy_front out xs n e h =
    let at : 0 + length xs ≡ n = omega (arith, e) in
    let short : drop n (take n out) ≡ [] =
      drop_all (take n out) n (omega (arith, length-take n out)) in
    ap (λ k. (xs ++ drop k (take n out)) ++ drop n out) at
    ∙ ap (λ t. (xs ++ t) ++ drop n out) short
    ∙ ap (λ t. t ++ drop n out) (no_rest xs)
    ∙ ap (λ k. xs ++ drop k out) (sym at)

copy_nothing : (out bytes : List ℕ) (at : ℕ) → out ≡ copy_at out 0 (slice bytes at 0)
unfolding copy_at slice
copy_nothing out bytes at = refl

-- The geometry of a file that the reader takes.
pub record IsReadable (s : Storage) (size len_a : ℕ) : Type 0 where
  pub wide : 128 ≤ s.block_size
  pub word : s.block_size < 2 ^ 32
  pub blocks : s.block_count < 2 ^ 32
  pub unit : s.read_size ≤ s.block_size
  pub buffer : len_a ≡ s.block_size
  pub small : size < 2 ^ 32
  pub few : block_count size s.block_size ≤ max_ctz_blocks
  pub fits : content_before s.block_size (block_count size s.block_size) < 2 ^ 32

module _ {σ : Type 0} (ops : FsOps σ) (f : File) (st : σ) (out bytes : List ℕ) (len_a : ℕ)
    (g : IsReadable (ops.storage st) f.size len_a)
    (held : HoldsFile (ops.storage st) f.head_block f.size bytes) where
  abbrev s : Storage
  s = ops.storage st

  -- How much there is to read.
  abbrev taken : ℕ
  taken = min (length out) (f.size - f.cursor)

  all_blocks : block_count f.size s.block_size ≡ suc held.top
  all_blocks = held.counted

  -- The bytes are those of the blocks, and as many as the size.
  size_held : (0 < f.size) → f.size ≤ length (contents s.block_size held.block (suc held.top))
  size_held pos =
      let room =
        length-contents s.block_size held.block g.wide g.word (suc held.top)
          (omega (arith, g.few, all_blocks)) (λ i l. (held.file.holds i (omega arith)).full) in
      let enough : f.size ≤ content_before s.block_size (suc held.top) =
        subst (λ (k : ℕ). f.size ≤ content_before s.block_size k) all_blocks
          (covers s.block_size f.size g.wide g.word g.small pos (omega (arith, g.few))) in
      omega (arith, room, enough)

  piece :
      (n : ℕ)
      → f.cursor + n ≤ f.size
      → slice (contents s.block_size held.block (suc held.top)) f.cursor n ≡ slice bytes f.cursor n
  unfolding slice
  piece n h = sym (
      ap (λ b. slice b f.cursor n) held.content
      ∙ slice-slice (contents s.block_size held.block (suc held.top)) 0 f.size f.cursor n h
      ∙ ap (λ k. slice (contents s.block_size held.block (suc held.top)) k n) {x = 0 + f.cursor}
          {y = f.cursor} (omega arith))

  chain_read :
      f.cursor < f.size
      → 0 < length out
      → length out < 2 ^ 32
      → read_ctz_at s
          (record { head_block = f.head_block; size = f.size })
          f.cursor
          (take taken out)
          len_a
        ≡ ok (copy_at (take taken out) 0 (slice bytes f.cursor taken), taken)
  chain_read inside some_room short =
      let few : suc held.top ≤ max_ctz_blocks = omega (arith, g.few, all_blocks) in
      let fit : content_before s.block_size (suc held.top) < 2 ^ 32 =
        subst (λ (k : ℕ). content_before s.block_size k < 2 ^ 32) all_blocks g.fits in
      let len : length (take taken out) ≡ taken = omega (arith, length-take taken out) in
      let count : min (f.size - f.cursor) (length (take taken out)) ≡ taken = omega (arith, len) in
      let whole =
        read_ctz_at-eq s held.addr held.block held.top f.size f.cursor (take taken out) len_a
          held.file g.wide g.word (omega (arith, g.unit, g.buffer)) (omega (arith, g.buffer))
          all_blocks few g.small fit inside (omega (arith, len)) (omega (arith, len)) in
      ap
        (λ h.
          read_ctz_at s (record { head_block = h; size = f.size }) f.cursor (take taken out) len_a)
        (sym held.headed)
      ∙ whole
      ∙ ap
          (λ (k : ℕ). ok (
            copy_at (take taken out) 0
                (slice (contents s.block_size held.block (suc held.top)) f.cursor k),
            k,
          ))
          count
      ∙ ap (λ b. ok (copy_at (take taken out) 0 b, taken)) (piece taken (omega arith))

  not_none : (f.head_block == address_none) ≡ false
  not_none =
      let on = held.file.on_device held.top (omega arith) in
      let at = held.headed in ground (arith, on, at, g.blocks)

  -- A read with read access of a handle whose chain holds the file's bytes copies the bytes at the
  -- cursor to the front of the buffer, as many as the buffer and the file have, returns how many,
  -- and moves the cursor behind them, nothing else of the handle; at the end of the file and past
  -- it, it reads nothing.
  pub read-eq :
      f.options.read ≡ true
      → length out < 2 ^ 32
      → read ops out len_a f st ≡ (
        ok (copy_at out 0 (slice bytes f.cursor taken), taken),
        record f { cursor = f.cursor + taken },
      )
  unfolding read after_read
  read-eq access short =
      let size : (len_a == s.block_size) ≡ true = ground (arith, g.buffer) in
      elim (Bool-cases (length out == 0 || leb f.size f.cursor)) [
        | inl none_left ↦
            let zero_taken : taken ≡ 0 = ground arith in
            let stays : f.cursor + 0 ≡ f.cursor = omega arith in
            let nothing : ◌≡◌ {A = Result (List ℕ × ℕ) × File} (ok (out, 0), f)
                (
                  ok (copy_at out 0 (slice bytes f.cursor 0), 0),
                  record f { cursor = f.cursor + 0 },
                ) =
              λ i. (ok (copy_nothing out bytes f.cursor i, 0), record f { cursor = sym stays i }) in
            simp (access, size, none_left)
              (nothing
                ∙ ap
                    (λ (n : ℕ). (
                      ok (copy_at out 0 (slice bytes f.cursor n), n),
                      record f { cursor = f.cursor + n },
                    ))
                    (sym zero_taken))
        | inr some_left ↦
            let inside : f.cursor < f.size = ground arith in
            let room : 0 < length out = ground arith in
            let word : u32 (f.cursor + taken) ≡ f.cursor + taken = omega (arith, g.small) in
            let long =
              ap length (sym (piece taken (omega arith)))
              ∙ length-slice (contents s.block_size held.block (suc held.top)) f.cursor taken
                  (omega (arith, size_held (omega arith))) in
            let joined = copy_front out (slice bytes f.cursor taken) taken long (omega arith) in
            simp (access, size, some_left, not_none, chain_read inside room short)
              (λ i. (ok (joined i, taken), record f { cursor = word i }))
      ]
