-- ===== src/Resolve/Ring.antt =====
-- The tail of a fetched pair depends on its active block alone, so among one pair more than the
-- device has blocks, the tails begin to repeat, and Brent's walk rejects the ring within the steps
-- of `chain_fuel`.
use littlefs2_pure.Prelude.{
  ℕ, zero, suc, ◌+◌, ◌-◌, ◌^◌, ◌≤◌, ◌<◌, ◌≡◌, refl, sym, ap, subst, ◌∙◌, inl, inr, true, ◌>>=◌,
  Bool-cases, none, some, List, if◌then◌else◌, ok, err, Result-cases, chain_ok, corrupt, arith,
}
use littlefs2_pure.Block.{BlockAddress, BlockPair}
use littlefs2_pure.Storage.{Storage, read_or_io}
use littlefs2_pure.Meta.Reader
use littlefs2_pure.Meta.Reader.{MetadataReader}
use littlefs2_pure.Meta.Pair.{MetadataPair, parse}
use littlefs2_pure.Meta.Pair.Choice.{parse-IsChosen}
use littlefs2_pure.Prelude.Pigeonhole.{pigeonhole}
use littlefs2_pure.Chase.{pair_in_bounds, read_pair_blocks, start_at}
use littlefs2_pure.Chase.Cycle.{follow, follow_catches}
use littlefs2_pure.Chase.Forest.{fetch_pair, hard_tail_of}
use littlefs2_pure.Resolve.{chain_fuel}

-- The reader of a fetched pair is that of the active block, which lies on the device.
pub record IsRead (s : Storage) (pair : MetadataPair) : Type 0 where
  pub within : pair.active_block < s.block_count
  pub block : List ℕ
  pub reads : read_or_io s pair.active_block 0 s.block_size ≡ ok block
  pub read : Reader.new block ≡ ok pair.reader

in_bounds_both :
    (s : Storage) (p : BlockPair)
    → pair_in_bounds s p ≡ true
    → (p.a < s.block_count) × (p.b < s.block_count)
unfolding pair_in_bounds
in_bounds_both s p h = ground arith

-- What a fetch that succeeds has read.
fetched :
    (s : Storage) (p : BlockPair) (pair : MetadataPair)
    → fetch_pair s p ≡ ok pair
    → (blocks : List ℕ × List ℕ) × (pair_in_bounds s p ≡ true)
      × (read_or_io s p.a 0 s.block_size ≡ ok blocks.0)
      × (read_or_io s p.b 0 s.block_size ≡ ok blocks.1)
      × (parse p.a blocks.0 p.b blocks.1 ≡ ok pair)
unfolding fetch_pair read_pair_blocks
fetched s p pair h = elim (Bool-cases (pair_in_bounds s p)) [
  | inr out ↦ let failed : err corrupt ≡ ok pair = rw (out, read_pair_blocks) at h in absurd (cc)
  | inl inside ↦
      let (blocks, r, m) = chain_ok (read_pair_blocks s p) (λ b. parse p.a b.0 p.b b.1) h in
      let (block_a, ra, k) =
        chain_ok (read_or_io s p.a 0 s.block_size)
          (λ block_a. read_or_io s p.b 0 s.block_size >>= λ block_b. ok (block_a, block_b))
          (rw (inside, read_pair_blocks) at r) in
      let (block_b, rb, e) =
        chain_ok (read_or_io s p.b 0 s.block_size) (λ block_b. ok (block_a, block_b)) k in
      ((block_a, block_b), inside, ra, rb, ground arith)
]

-- The two blocks of a pair that parses have readers.
both_readers :
    (a : BlockAddress) (block_a : List ℕ) (b : BlockAddress) (block_b : List ℕ)
    (pair : MetadataPair)
    → parse a block_a b block_b ≡ ok pair
    → (ra : MetadataReader) × (rb : MetadataReader) × (Reader.new block_a ≡ ok ra)
      × (Reader.new block_b ≡ ok rb)
unfolding parse
both_readers a block_a b block_b pair m = elim (Result-cases (Reader.new block_a)) [
  | inr (e, n) ↦ let failed : err e ≡ ok pair = rw (n, parse) at m in absurd (cc)
  | inl (ra, na) ↦ elim (Result-cases (Reader.new block_b)) [
    | inr (e, n) ↦ let failed : err e ≡ ok pair = rw (na, n, parse) at m in absurd (cc)
    | inl (rb, nb) ↦ (ra, rb, na, nb)
  ]
]

pub fetch_pair-IsRead :
    (s : Storage) (p : BlockPair) (pair : MetadataPair) → fetch_pair s p ≡ ok pair → IsRead s pair
fetch_pair-IsRead s p pair h =
    let ((block_a, block_b), inside, ra, rb, m) = fetched s p pair h in
    let (in_a, in_b) = in_bounds_both s p inside in
    let (reader_a, reader_b, na, nb) = both_readers p.a block_a p.b block_b pair m in
    elim (parse-IsChosen p.a block_a p.b block_b reader_a reader_b pair na nb m).from_pair [
      | inl (act, alt, same) ↦ record {
        within = subst (λ (k : ℕ). k < s.block_count) (sym act) in_a;
        block = block_a;
        reads = ap (λ k. read_or_io s k 0 s.block_size) act ∙ ra;
        read = na ∙ ap ok (sym same);
      }
      | inr (act, alt, same) ↦ record {
        within = subst (λ (k : ℕ). k < s.block_count) (sym act) in_b;
        block = block_b;
        reads = ap (λ k. read_or_io s k 0 s.block_size) act ∙ rb;
        read = nb ∙ ap ok (sym same);
      }
    ]

-- Two pairs that are active at the same block have the same reader.
same_reader :
    (s : Storage) (pair pair' : MetadataPair)
    → IsRead s pair
    → IsRead s pair'
    → pair.active_block ≡ pair'.active_block
    → hard_tail_of pair ≡ hard_tail_of pair'
unfolding hard_tail_of
same_reader s pair pair' r r' e =
    let blocks : ok r.block ≡ ok r'.block =
      sym r.reads ∙ ap (λ k. read_or_io s k 0 s.block_size) e ∙ r'.reads in
    let same : r.block ≡ r'.block = cc in
    let readers : ok pair.reader ≡ ok pair'.reader = sym r.read ∙ ap Reader.new same ∙ r'.read in
    let reader : pair.reader ≡ pair'.reader = cc in
    λ i. if (reader i).is_hard_tail then (reader i).tail else none

-- The pair after `p` along the hard tails, and `p` itself where there is none.
unfoldable pub next_pair : Storage → BlockPair → BlockPair
next_pair s p = elim (fetch_pair s p) [
  | err e ↦ p
  | ok pair ↦ elim (hard_tail_of pair) [ none ↦ p | some t ↦ t ]
]

pub next_pair_lem :
    (s : Storage) (p : BlockPair) (pair : MetadataPair) (t : BlockPair)
    → fetch_pair s p ≡ ok pair
    → hard_tail_of pair ≡ some t
    → next_pair s p ≡ t
unfolding next_pair
next_pair_lem s p pair t f h = rw (f, h, next_pair) refl

module _ (s : Storage) (first : BlockPair) where
  -- The sequence of the pairs.
  unfoldable pub along : ℕ → BlockPair
  unfolding next_pair
  along zero = first
  along (suc i) = next_pair s (along i)

  -- A pair that is fetched and has a hard tail.
  pub record IsLive (p : BlockPair) : Type 0 where
    pub pair : MetadataPair
    pub fetches : fetch_pair s p ≡ ok pair
    pub tail : BlockPair
    pub goes_on : hard_tail_of pair ≡ some tail

  active_at : ℕ → ℕ
  active_at i = elim (fetch_pair s (along i)) [ err e ↦ 0 | ok pair ↦ pair.active_block ]

  active_at_lem : (i : ℕ) (l : IsLive (along i)) → active_at i ≡ l.pair.active_block
  unfolding active_at
  active_at_lem i l = rw (l.fetches, active_at) refl

  again :
      (a b : ℕ) (la : IsLive (along a)) (lb : IsLive (along b))
      → active_at a ≡ active_at b
      → along (suc a) ≡ along (suc b)
  unfolding along
  again a b la lb e =
      let blocks = sym (active_at_lem a la) ∙ e ∙ active_at_lem b lb in
      let tails : some la.tail ≡ some lb.tail =
        sym la.goes_on
        ∙ same_reader s la.pair lb.pair (fetch_pair-IsRead s (along a) la.pair la.fetches)
            (fetch_pair-IsRead s (along b) lb.pair lb.fetches) blocks
        ∙ lb.goes_on in
      let tail : la.tail ≡ lb.tail = cc in
      next_pair_lem s (along a) la.pair la.tail la.fetches la.goes_on
      ∙ tail
      ∙ sym (next_pair_lem s (along b) lb.pair lb.tail lb.fetches lb.goes_on)

  cyclic_by :
      (a b : ℕ)
      → along (suc a) ≡ along (suc b)
      → (d i j : ℕ) → i ≡ d + suc a
      → j ≡ d + suc b
      → along j ≡ along i
  unfolding along
  cyclic_by a b e zero i j ei ej =
      let at_i : i ≡ suc a = omega arith in
      let at_j : j ≡ suc b = omega arith in ap along at_j ∙ sym e ∙ sym (ap along at_i)
  cyclic_by a b e (suc d) i j ei ej =
      let at_i : i ≡ suc (i - 1) = omega arith in
      let at_j : j ≡ suc (j - 1) = omega arith in
      ap along at_j
      ∙ ap (next_pair s) (cyclic_by a b e d (i - 1) (j - 1) (omega arith) (omega arith))
      ∙ sym (ap along at_i)

  -- The walk cannot take as many steps as `chain_fuel` allows.
  module _ (small : s.block_count < 2 ^ 31)
      (live : (i : ℕ) → i < chain_fuel s → IsLive (along i)) where
    active_at-lt : (i : ℕ) → i ≤ s.block_count → active_at i < s.block_count
    active_at-lt i le =
        let l = live i (omega arith) in
        subst (λ (k : ℕ). k < s.block_count) (sym (active_at_lem i l))
          (fetch_pair-IsRead s (along i) l.pair l.fetches).within

    pub ring_rejected : follow along (chain_fuel s) 0 (start_at first) ≡ err corrupt
    unfolding along
    ring_rejected =
        let (a, b, lt, le, e) = pigeonhole s.block_count active_at active_at-lt in
        let joins = again a b (live a (omega arith)) (live b (omega arith)) e in
        follow_catches along (suc a) (b - a) (omega arith) (omega arith)
          (λ i le_i. cyclic_by a b joins (i - suc a) i (i + (b - a)) (omega arith) (omega arith))
          (chain_fuel s) (omega arith)
