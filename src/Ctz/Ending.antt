-- ===== src/Ctz/Ending.antt =====
-- The place in a chain where a shorter file ends.
use littlefs2_pure.Prelude.{
  ℕ, suc, ◌+◌, ◌-◌, ◌*◌, ◌^◌, ◌≤◌, ◌<◌, ◌≡◌, inl, inr, subst, Bool-cases, leb, arith,
}
use littlefs2_pure.Prelude.Words.{sub32, sub32_exact}
use littlefs2_pure.Prelude.Counts.{trailing_zeros}
use littlefs2_pure.Ctz.{
  block_count, block_index_at_offset, skip_pointers_in_block, content_bytes_in_block,
}
use littlefs2_pure.Ctz.Index.{content_before, block_index_at_offset-content_before}
use littlefs2_pure.Ctz.Contents.{by_count, covers, fits}
use littlefs2_pure.Ctz.Cut.{content_before_le}

-- The words of the skip pointers lie in front of the content.
pub pointer_in :
    (n j used : ℕ) → 0 < n → j ≤ trailing_zeros n → 4 * j + 4 ≤ 4 * skip_pointers_in_block n + used
unfolding skip_pointers_in_block
pointer_in n j used p few = ground arith

-- The place where a shorter file ends: its last block, and the bytes of it that are kept.
pub record EndsAt (bs new top n used : ℕ) : Type 0 where
  pub within : n ≤ top
  pub counted : block_count new bs ≡ suc n
  pub bytes : new ≡ content_before bs n + used
  pub room : used ≤ content_bytes_in_block n bs
  pub short : 4 * skip_pointers_in_block n + used ≤ bs
  pub some_bytes : 0 < used

pub end_of :
    (bs old new top : ℕ)
    → 128 ≤ bs
    → bs < 2 ^ 32
    → old < 2 ^ 32
    → 0 < new
    → new ≤ old
    → block_count old bs ≡ suc top
    → suc top < 2 ^ 26
    → EndsAt bs new top (block_index_at_offset (sub32 new 1) bs).0 (
        sub32
          ((block_index_at_offset (sub32 new 1) bs).1 + 1)
          (4 * skip_pointers_in_block (block_index_at_offset (sub32 new 1) bs).0))
end_of bs old new top wide word small pos le count few =
    let back = sub32_exact new 1 pos (omega arith) in
    let n = (block_index_at_offset (new - 1) bs).0 in
    let off = (block_index_at_offset (new - 1) bs).1 in
    let (at, past, inside) =
      block_index_at_offset-content_before (new - 1) bs wide word (omega arith) in
    let room : old ≤ content_before bs (suc top) =
      subst (λ (k : ℕ). old ≤ content_before bs k) count
        (covers bs old wide word small (omega arith) (omega arith)) in
    let within : n ≤ top = elim (Bool-cases (leb n top)) [
      | inl e ↦ ground arith
      | inr e ↦
          let above : suc top ≤ n = ground arith in
          absurd (omega (arith, content_before_le bs (suc top) n above))
    ] in
    let (filled, some_room) = fits bs n wide word (omega arith) in
    let used = sub32_exact (off + 1) (4 * skip_pointers_in_block n) (omega arith) (omega arith) in
    rw (back, used)
      (record {
        within = within;
        counted = by_count new bs pos;
        bytes = omega arith;
        room = omega arith;
        short = omega arith;
        some_bytes = omega arith;
      })
