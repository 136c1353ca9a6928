-- ===== src/Block/Laws.antt =====
-- Two pairs are the same exactly when they name the same two blocks, in either order.
use littlefs2_pure.Prelude.{◌≡◌, ◌↔◌, ◌⊎◌, inl, inr, true, false, List, [], ◌∷◌, arith, Bool-cases}
use littlefs2_pure.Block.{BlockPair, is_same_pair, contains_pair}

abbrev pub SameBlocks : BlockPair → BlockPair → Type 0
SameBlocks p q = ((p.a ≡ q.a) × (p.b ≡ q.b)) ⊎ ((p.a ≡ q.b) × (p.b ≡ q.a))

-- `is_same_pair` decides whether two pairs name the same two blocks, whatever the order.
pub is_same_pair_iff : (p q : BlockPair) → (is_same_pair p q ≡ true) ↔ SameBlocks p q
unfolding is_same_pair
is_same_pair_iff p q = (to p q, from p q)
  where
    to : (p q : BlockPair) → is_same_pair p q ≡ true → SameBlocks p q
    to p q h = grind arith

    from : (p q : BlockPair) → SameBlocks p q → is_same_pair p q ≡ true
    from p q (inl h) = ground arith
    from p q (inr h) = ground arith

abbrev pub HasSame : BlockPair → List BlockPair → Type 0
HasSame pair [] = ⊥
HasSame pair (p ∷ pairs) = SameBlocks p pair ⊎ HasSame pair pairs

-- `contains_pair` holds exactly when some member of the slice names the same two blocks.
contains_pair_iff :
    (pairs : List BlockPair) (pair : BlockPair)
    → (contains_pair pairs pair ≡ true) ↔ HasSame pair pairs
unfolding contains_pair
contains_pair_iff [] pair = (λ h. cc, λ h. absurd h)
contains_pair_iff (p ∷ pairs) pair = (
  to (Bool-cases (is_same_pair p pair)) (contains_pair_iff pairs pair).0,
  from (contains_pair_iff pairs pair).1,
)
  where
    to :
        (is_same_pair p pair ≡ true) ⊎ (is_same_pair p pair ≡ false)
        → (contains_pair pairs pair ≡ true → HasSame pair pairs)
        → contains_pair (p ∷ pairs) pair ≡ true
        → HasSame pair (p ∷ pairs)
    to (inl same) ih h = inl ((is_same_pair_iff p pair).0 same)
    to (inr other) ih h = inr (ih (rw other at h))

    from :
        (HasSame pair pairs → contains_pair pairs pair ≡ true)
        → HasSame pair (p ∷ pairs)
        → contains_pair (p ∷ pairs) pair ≡ true
    from ih (inl s) = rw ((is_same_pair_iff p pair).1 s)
    from ih (inr s) = ground (arith, ih s)
