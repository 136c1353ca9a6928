-- ===== src/Block.antt =====
-- src/block.rs: block addresses and pairs of blocks. A `BlockAddress` is its u32 index.
pub mod Laws
use littlefs2_pure.Prelude.{
  ℕ, Bool, true, false, ◌&&◌, ◌||◌, List, [], ◌∷◌, ◌==◌, leb, if◌then◌else◌,
}
use littlefs2_pure.Prelude.Words.{u32_max}

abbrev pub BlockAddress : Type 0
BlockAddress = ℕ

-- `BlockAddress::NONE`
abbrev pub address_none : BlockAddress
address_none = u32_max

unfoldable pub is_none : BlockAddress → Bool
is_none address = address == u32_max

pub record BlockPair : Type 0 where
  pub a : BlockAddress
  pub b : BlockAddress

unfoldable pub sorted : BlockPair → BlockAddress × BlockAddress
sorted p = if leb p.a p.b then (p.a, p.b) else (p.b, p.a)

unfoldable pub is_same_pair : BlockPair → BlockPair → Bool
unfolding sorted
is_same_pair p q = (sorted p).0 == (sorted q).0 && (sorted p).1 == (sorted q).1

unfoldable pub is_null : BlockPair → Bool
unfolding is_none
is_null p = is_none p.a || is_none p.b

unfoldable pub contains_pair : List BlockPair → BlockPair → Bool
contains_pair [] pair = false
contains_pair (p ∷ pairs) pair = is_same_pair p pair || contains_pair pairs pair
