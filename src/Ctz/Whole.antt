-- ===== src/Ctz/Whole.antt =====
-- `read_ctz_at` on a file's blocks: the bytes that it copies are the file's.
use littlefs2_pure.Prelude.{
  ℕ, zero, suc, ◌+◌, ◌-◌, ◌*◌, ◌^◌, ◌≤◌, ◌<◌, ◌≡◌, refl, sym, ap, ◌∙◌, inl, inr, false, Bool-cases,
  subst, min, List, ◌==◌, ◌||◌, leb, ltb, length, get_or, replicate, length-replicate, ok, arith,
}
use littlefs2_pure.Prelude.Words.{u32, u32_max}
use littlefs2_pure.Prelude.Bytes.{slice, copy_at}
use littlefs2_pure.Prelude.Slices.{slice-append, length-slice}
use littlefs2_pure.Block.{BlockAddress, address_none}
use littlefs2_pure.Geometry.{block_size_min}
use littlefs2_pure.Storage.{Storage}
use littlefs2_pure.Storage.Range.{read_range-eq}
use littlefs2_pure.Ctz.{
  skip_pointers_in_block, content_bytes_in_block, block_count, max_ctz_blocks, ReadState,
  content_step, content_walk, read_ctz_at,
}
use littlefs2_pure.Ctz.Index.{content_before}
use littlefs2_pure.Ctz.Blocks.{IsFile, fill, get_or-fill, collect_chain_blocks-eq}
use littlefs2_pure.Ctz.Contents.{
  fits, copy_join, contents, length-contents, contents_piece, content_before_mono, covers,
}

module _ (s : Storage) (addr : ℕ → BlockAddress) (block : ℕ → List ℕ) (top window_len : ℕ)
    (f : IsFile s addr block top) (window : s.read_size ≤ window_len) (wide : 128 ≤ s.block_size)
    (word : s.block_size < 2 ^ 32) (few : suc top < 2 ^ 26)
    (small : content_before s.block_size (suc top) < 2 ^ 32) (addrs : List BlockAddress)
    (found : (i : ℕ) → i ≤ top → get_or addrs i address_none ≡ addr i) (out : List ℕ)
    (start target : ℕ) (inside : start + target ≤ content_before s.block_size (suc top)) where
  abbrev whole : List ℕ
  whole = contents s.block_size block (suc top)

  full_blocks : (i : ℕ) → i < suc top → length (block i) ≡ s.block_size
  full_blocks i h = (f.holds i (omega arith)).full

  -- The state before block `i`, when `m` bytes have been copied.
  abbrev at_block : ℕ → ℕ → ReadState
  at_block i m = record {
    out = copy_at out 0 (slice whole start m);
    out_off = m;
    logical_off = content_before s.block_size i;
  }

  -- How many bytes of the range lie before block `i`.
  abbrev done_before : ℕ → ℕ
  done_before i = min target (content_before s.block_size i - start)

  length-range : (m : ℕ) → start + m ≤ start + target → length (slice whole start m) ≡ m
  length-range m h =
      length-slice whole start m
        (omega (arith, length-contents s.block_size block wide word (suc top) few full_blocks))

  -- The bytes that a round reads continue those that were copied.
  copied_on :
      (i m n : ℕ)
      → i ≤ top
      → m + n ≤ target
      → (skip : ℕ) → content_before s.block_size i + skip ≡ start + m
      → skip + n ≤ content_bytes_in_block i s.block_size
      → copy_at
          (copy_at out 0 (slice whole start m))
          m
          (slice (block i) (4 * skip_pointers_in_block i + skip) n)
        ≡ copy_at out 0 (slice whole start (m + n))
  copied_on i m n h le skip e room =
      let piece =
        contents_piece s.block_size block wide word (suc top) i skip n (omega arith) few full_blocks
          room in
      let here : slice whole (start + m) n
          ≡ slice (block i) (4 * skip_pointers_in_block i + skip) n =
        ap (λ (k : ℕ). slice whole k n) (sym e) ∙ piece in
      rw (← here) (
        copy_join out (slice whole start m) (slice whole (start + m) n) m
          (sym (length-range m (omega arith)))
        ∙ ap (copy_at out 0) (slice-append whole start m n))

  content_step-eq :
      (i m : ℕ)
      → i ≤ top
      → m ≡ done_before i
      → m < target
      → content_step s addrs start target window_len i (at_block i m)
        ≡ ok (at_block (suc i) (done_before (suc i)))
  unfolding content_step content_before
  content_step-eq i m h em lt =
      let bs = s.block_size in
      let header = 4 * skip_pointers_in_block i in
      let before = content_before bs i in
      let cb = content_bytes_in_block i bs in
      let skip = start - before in
      let n = min (cb - skip) (target - m) in
      let (filled, pos) = fits bs i wide word (omega arith) in
      let below = content_before_mono bs i (suc top) (omega arith) in
      let size : u32 bs ≡ bs = omega arith in
      let room : bs - header ≡ cb = omega arith in
      let end : u32 (before + cb) ≡ before + cb = omega arith in
      elim (Bool-cases (leb (before + cb) start)) [
        | inl past ↦
            let same : m ≡ min target (before + cb - start) = ground arith in
            rw (size, room, end, past) (ap (λ k. ok (at_block (suc i) k)) same)
        | inr reached ↦
            let offset : u32 (header + skip) ≡ header + skip = ground arith in
            let some_bytes : (n == 0) ≡ false = ground arith in
            let next : m + n ≡ min target (before + cb - start) = ground arith in
            let place : before + skip ≡ start + m = ground arith in
            let read =
              read_range-eq s (addr i) (block i) (f.holds i h) (header + skip) n window_len window
                (ground arith) in
            rw (size, room, end, reached, some_bytes, offset, found i h, read)
              (ap (λ o. ok (record { out = o; out_off = m + n; logical_off = before + cb }))
                  (copied_on i m n h (omega arith) skip place (ground arith))
                ∙ ap (λ k. ok (at_block (suc i) k)) next)
      ]

  -- From block `i` on, the walk copies the rest of the range.
  content_walk-eq :
      (left i m : ℕ)
      → i + left ≡ suc top
      → m ≡ done_before i
      → (st : ReadState) × (content_walk s addrs start target window_len i left (at_block i m)
          ≡ ok st)
        × (st.out ≡ copy_at out 0 (slice whole start target))
        × (st.out_off ≡ target)
  unfolding content_walk
  content_walk-eq zero i m e em =
      let last : i ≡ suc top = omega arith in
      let all : m ≡ target =
        em ∙ ap (λ k. min target (content_before s.block_size k - start)) last ∙ omega arith in
      (at_block i m, refl, ap (λ k. copy_at out 0 (slice whole start k)) all, all)
  content_walk-eq (suc left) i m e em = elim (Bool-cases (leb target m)) [
    | inl full ↦
        let all : m ≡ target = ground arith in
        (
          at_block i m,
          rw (full, content_walk) refl,
          ap (λ k. copy_at out 0 (slice whole start k)) all,
          all,
        )
    | inr more ↦
        let step = content_step-eq i m (omega arith) em (ground arith) in
        let (st, walks, copied, count) =
          content_walk-eq left (suc i) (done_before (suc i)) (omega arith) refl in
        (st, rw (more, step, content_walk) walks, copied, count)
  ]

nothing_before : (bs : ℕ) → content_before bs 0 ≡ 0
unfolding content_before
nothing_before bs = refl

from_start :
    (s : Storage) (block : ℕ → List ℕ) (top : ℕ) (out : List ℕ) (start : ℕ)
    → ◌≡◌ {A = ReadState}
        (record { out = out; out_off = 0; logical_off = 0 })
        (record {
          out = copy_at out 0 (slice (contents s.block_size block (suc top)) start 0);
          out_off = 0;
          logical_off = content_before s.block_size 0;
        })
unfolding copy_at slice content_before
from_start s block top out start = refl

-- On a device that holds a file's blocks, a read from an offset inside the file copies the file's
-- bytes from there to the front of the buffer, as many as the buffer and the file have, and reports
-- how many.
pub read_ctz_at-eq :
    (s : Storage) (addr : ℕ → BlockAddress) (block : ℕ → List ℕ) (top size start : ℕ) (out : List ℕ)
    (scratch_len : ℕ)
    → IsFile s addr block top
    → 128 ≤ s.block_size
    → s.block_size < 2 ^ 32
    → s.read_size ≤ scratch_len
    → s.block_size ≤ scratch_len
    → block_count size s.block_size ≡ suc top
    → suc top ≤ max_ctz_blocks
    → size < 2 ^ 32
    → content_before s.block_size (suc top) < 2 ^ 32
    → start < size
    → 0 < length out
    → length out < 2 ^ 32
    → read_ctz_at s (record { head_block = addr top; size = size }) start out scratch_len
      ≡ ok (
        copy_at out 0
            (slice (contents s.block_size block (suc top)) start (min (size - start) (length out))),
        min (size - start) (length out),
      )
unfolding read_ctz_at
read_ctz_at-eq s addr block top size start out scratch_len f wide word window scratch count few fit
      small before room short =
    let covered : size ≤ content_before s.block_size (suc top) =
      subst (λ (k : ℕ). size ≤ content_before s.block_size k) count
        (covers s.block_size size wide word fit (omega arith) (omega arith)) in
    let target = min (size - start) (length out) in
    let empty = replicate max_ctz_blocks address_none in
    let addrs = fill addr top empty in
    let places = length-replicate max_ctz_blocks address_none in
    let bs : u32 s.block_size ≡ s.block_size = omega arith in
    let enough : (ltb scratch_len s.block_size || ltb s.block_size block_size_min) ≡ false =
      ground arith in
    let some_bytes : (size == 0 || (length out == 0 || leb size start)) ≡ false = ground arith in
    let within : ltb max_ctz_blocks (suc top) ≡ false = ground arith in
    let range : min size (min u32_max (start + u32 (length out))) - start ≡ target = omega arith in
    let blocks =
      collect_chain_blocks-eq s addr block top scratch_len f window (omega arith) empty
        (omega arith) (omega arith) in
    let (st, walks, copied, all) =
      content_walk-eq s addr block top scratch_len f window wide word (omega arith) small addrs
        (λ i le. get_or-fill addr top i empty address_none le (omega arith)) out start target
        (omega arith) (suc top) 0 0 (omega arith) (omega (arith, nothing_before s.block_size)) in
    rw (bs, count, enough, some_bytes, within, range, blocks)
      (rw (from_start s block top out start, walks) (λ i. ok (copied i, all i)))
