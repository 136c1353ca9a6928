-- ===== src/Chase.antt =====
-- How src/fs.rs reads a metadata pair and follows the tails from pair to pair: the bounds check, the
-- one fetch of both blocks, and `BrentTailWalk`, which rejects a cyclic chain.
pub mod Cycle
pub mod Forest
pub mod Tree
use littlefs2_pure.Prelude.{
  ℕ, ◌+◌, ◌*◌, min, Bool, ◌&&◌, List, ltb, ◌==◌, not, if◌then◌else◌, Result, ok, err, ◌>>=◌,
  corrupt,
}
use littlefs2_pure.Prelude.Words.{u32_max}
use littlefs2_pure.Block.{BlockPair}
use littlefs2_pure.Storage.{Storage, read_or_io}

unfoldable pub pair_in_bounds : Storage → BlockPair → Bool
pair_in_bounds s pair = ltb pair.a s.block_count && ltb pair.b s.block_count

-- Both blocks of a pair, by two reads of a whole block.
unfoldable pub read_pair_blocks : Storage → BlockPair → Result (List ℕ × List ℕ)
unfolding pair_in_bounds read_or_io
read_pair_blocks s pair =
    if not (pair_in_bounds s pair)
    then err corrupt
    else read_or_io s pair.a 0 s.block_size >>= λ block_a.
        read_or_io s pair.b 0 s.block_size >>= λ block_b. ok (block_a, block_b)

-- The derived `==` on pairs, which heeds the order.
unfoldable pub eq_pair : BlockPair → BlockPair → Bool
eq_pair p q = p.a == q.a && p.b == q.b

pub record BrentTailWalk : Type 0 where
  pub saved : BlockPair
  pub power : ℕ
  pub steps : ℕ

-- `BrentTailWalk::new`
unfoldable pub start_at : BlockPair → BrentTailWalk
start_at start = record { saved = start; power = 1; steps = 0 }

unfoldable pub advance : BlockPair → BrentTailWalk → Result BrentTailWalk
unfolding eq_pair
advance next w =
    if eq_pair next w.saved
    then err corrupt
    else if w.steps + 1 == w.power
    then ok (record { saved = next; power = min u32_max (w.power * 2); steps = 0 })
    else ok (record w { steps = w.steps + 1 })
