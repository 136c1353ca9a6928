-- ===== src/Resolve/Search.antt =====
-- The search for a name in the pairs of a directory, and the resolution of a path by it.
use littlefs2_pure.Prelude.{
  ℕ, zero, suc, ◌≡◌, refl, sym, ap, ◌∙◌, subst, inl, inr, Option, none, some, List, Result, ok, err,
  Result-cases, chain_ok, ◌>>=◌,
}
use littlefs2_pure.Block.{BlockPair}
use littlefs2_pure.Storage.{Storage}
use littlefs2_pure.Meta.Pair.{MetadataPair}
use littlefs2_pure.Dir.{Resolved, Roster, lookup_checked}
use littlefs2_pure.Compact.Plan.{SlotOffsets, gather_live_slots}
use littlefs2_pure.Chase.{BrentTailWalk, advance}
use littlefs2_pure.Chase.Forest.{fetch_pair, hard_tail_of}
use littlefs2_pure.Resolve.{
  panics, returns, Round, done, panic, onward, chase, chase_from, ChainSeek, found, absent,
  seek_round, visit_seek, seek_entry_in_chain,
}

-- The pairs that the hard tails lead to.
pub data OnChain (s : Storage) : BlockPair → BlockPair → Type 0 where
  here : {p : BlockPair} → OnChain s p p
  next :
      {p t q : BlockPair} (pair : MetadataPair)
      → fetch_pair s p ≡ ok pair
      → hard_tail_of pair ≡ some t
      → OnChain s t q
      → OnChain s p q

-- A rule for a loop that returns a value: a predicate that holds where a round ends, and that a
-- round passes back, holds at the start.
module _ {S B : Type 0} (s : Storage) (visit : BlockPair → MetadataPair → S → Result (Round S B))
    (P : BlockPair → S → B → Type 0)
    (ends : (p : BlockPair) (pair : MetadataPair) (st : S) (b : B)
      → fetch_pair s p ≡ ok pair
      → visit p pair st ≡ ok (done b)
      → P p st b)
    (back : (p : BlockPair) (pair : MetadataPair) (st st' : S) (t : BlockPair) (b : B)
      → fetch_pair s p ≡ ok pair
      → visit p pair st ≡ ok (onward st' t)
      → P t st' b
      → P p st b) where
  chase_rule :
      (fuel : ℕ) (p : BlockPair) (walk : BrentTailWalk) (st : S) (b : B)
      → chase s visit fuel p walk st ≡ returns (ok b)
      → P p st b
  unfolding chase
  chase_rule zero p walk st b h = cc
  chase_rule (suc fuel) p walk st b h = elim (Result-cases (fetch_pair s p)) [
    | inr (e, f) ↦ let failed : returns (err e) ≡ returns (ok b) = rw (f, chase) at h in absurd (cc)
    | inl (pair, f) ↦ elim (Result-cases (visit p pair st)) [
      | inr (e, v) ↦
          let failed : returns (err e) ≡ returns (ok b) = rw (f, v, chase) at h in absurd (cc)
      | inl (r, v) ↦ by_round pair f r v (λ t walk' st'. chase_rule fuel t walk' st' b)
    ]
  ]
    where
      by_round :
          (pair : MetadataPair)
          → fetch_pair s p ≡ ok pair
          → (r : Round S B) → visit p pair st ≡ ok r
          → ((t : BlockPair) (walk' : BrentTailWalk) (st' : S)
              → chase s visit fuel t walk' st' ≡ returns (ok b)
              → P t st' b)
          → P p st b
      by_round pair f (done b') v again =
          let same : returns (ok b') ≡ returns (ok b) = rw (f, v, chase) at h in
          ends p pair st b f (v ∙ cc)
      by_round pair f panic v again =
          let failed : panics ≡ returns (ok b) = rw (f, v, chase) at h in absurd (cc)
      by_round pair f (onward st' t) v again = elim (Result-cases (advance t walk)) [
        | inr (e, a) ↦
            let failed : returns (err e) ≡ returns (ok b) = rw (f, v, a, chase) at h in absurd (cc)
        | inl (walk', a) ↦ back p pair st st' t b f v (again t walk' st' (rw (f, v, a, chase) at h))
      ]

-- What a search of the chain from `first` says.
abbrev pub Seeks : Storage → List ℕ → BlockPair → ChainSeek → Type 0
Seeks s name first (found q id kind) =
    (pair : MetadataPair) × (r : Resolved) × OnChain s first q
    × (fetch_pair s q ≡ ok pair)
    × (lookup_checked pair name ≡ ok (some r))
    × (r.entry.id ≡ id)
    × (r.entry.kind ≡ kind)
Seeks s name first (absent q count) =
    (pair : MetadataPair) × (roster : Roster SlotOffsets) × OnChain s first q
    × (fetch_pair s q ≡ ok pair)
    × (hard_tail_of pair ≡ none)
    × (gather_live_slots pair.reader ≡ ok roster)
    × (roster.count ≡ count)
    × ((p : BlockPair)
        → OnChain s first p
        → (m : MetadataPair) × (fetch_pair s p ≡ ok m) × (lookup_checked m name ≡ ok none))

-- What a visit has found where it does not fail.
pub visited :
    (name : List ℕ) (p : BlockPair) (pair : MetadataPair) (r : Round (Unit {0}) ChainSeek)
    → visit_seek name p pair tt ≡ ok r
    → (hit : Option Resolved) × (roster : Roster SlotOffsets) × (lookup_checked pair name ≡ ok hit)
      × (gather_live_slots pair.reader ≡ ok roster)
      × (seek_round p (hard_tail_of pair) roster.count hit ≡ r)
unfolding visit_seek
visited name p pair r h =
    let (hit, l, k) =
      chain_ok (lookup_checked pair name)
        (λ hit. gather_live_slots pair.reader >>= λ roster.
          ok (seek_round p (hard_tail_of pair) roster.count hit))
        h in
    let (roster, g, e) =
      chain_ok (gather_live_slots pair.reader)
        (λ roster. ok (seek_round p (hard_tail_of pair) roster.count hit)) k in
    (hit, roster, l, g, cc)

only_here :
    (s : Storage) (name : List ℕ) (p : BlockPair) (pair : MetadataPair)
    → fetch_pair s p ≡ ok pair
    → hard_tail_of pair ≡ none
    → lookup_checked pair name ≡ ok none
    → (q : BlockPair) → OnChain s p q
    → (m : MetadataPair) × (fetch_pair s q ≡ ok m) × (lookup_checked m name ≡ ok none)
only_here s name p pair f h l q here = (pair, f, l)
only_here s name p pair f h l q (next m f' h' rest) =
    let same : ok pair ≡ ok m = sym f ∙ f' in
    let pairs : pair ≡ m = cc in
    let failed : none ≡ some _ = sym h ∙ ap hard_tail_of pairs ∙ h' in absurd (cc)

-- `Seeks` at the end of the loop, and one pair further to the front.
seek_ends :
    (s : Storage) (name : List ℕ) (p : BlockPair) (pair : MetadataPair) (b : ChainSeek)
    → fetch_pair s p ≡ ok pair
    → (hit : Option Resolved) (roster : Roster SlotOffsets) → lookup_checked pair name ≡ ok hit
    → gather_live_slots pair.reader ≡ ok roster
    → (tail : Option BlockPair) → hard_tail_of pair ≡ tail
    → seek_round p tail roster.count hit ≡ done b
    → Seeks s name p b
unfolding seek_round
seek_ends s name p pair b f (some r) roster l g tail h e =
    let same : found p r.entry.id r.entry.kind ≡ b = cc in
    subst (Seeks s name p) same (pair, r, here, f, l, refl, refl)
seek_ends s name p pair b f none roster l g (some t) h e =
    let failed : onward tt t ≡ done b = e in absurd (cc)
seek_ends s name p pair b f none roster l g none h e =
    let same : absent p roster.count ≡ b = cc in
    subst (Seeks s name p) same (pair, roster, here, f, h, g, refl, only_here s name p pair f h l)

seek_goes_on :
    (p : BlockPair) (tail : Option BlockPair) (count : ℕ) (hit : Option Resolved) (t : BlockPair)
    → seek_round p tail count hit ≡ onward tt t
    → (hit ≡ none) × (tail ≡ some t)
unfolding seek_round
seek_goes_on p tail count (some r) t e = cc
seek_goes_on p (some t') count none t e = (refl, cc)
seek_goes_on p none count none t e = cc

-- The pairs from `p` on are `p` and those from its tail on.
all_from :
    (s : Storage) (name : List ℕ) (p : BlockPair) (pair : MetadataPair) (t : BlockPair)
    → fetch_pair s p ≡ ok pair
    → hard_tail_of pair ≡ some t
    → lookup_checked pair name ≡ ok none
    → ((q : BlockPair)
        → OnChain s t q
        → (m : MetadataPair) × (fetch_pair s q ≡ ok m) × (lookup_checked m name ≡ ok none))
    → (q : BlockPair) → OnChain s p q
    → (m : MetadataPair) × (fetch_pair s q ≡ ok m) × (lookup_checked m name ≡ ok none)
all_from s name p pair t f h l rest q here = (pair, f, l)
all_from s name p pair t f h l rest q (next {t = t'} m f' h' on) =
    let same : ok pair ≡ ok m = sym f ∙ f' in
    let pairs : pair ≡ m = cc in
    let tails : some t ≡ some t' = sym h ∙ ap hard_tail_of pairs ∙ h' in
    let tail : t ≡ t' = cc in rest q (subst (λ (k : BlockPair). OnChain s k q) (sym tail) on)

seek_back :
    (s : Storage) (name : List ℕ) (p : BlockPair) (pair : MetadataPair) (t : BlockPair)
    → fetch_pair s p ≡ ok pair
    → hard_tail_of pair ≡ some t
    → lookup_checked pair name ≡ ok none
    → (b : ChainSeek) → Seeks s name t b
    → Seeks s name p b
seek_back s name p pair t f h l (found q id kind) (m, r, on, fq, lq, ei, ek) =
    (m, r, next pair f h on, fq, lq, ei, ek)
seek_back s name p pair t f h l (absent q count) (m, roster, on, fq, hq, g, ec, all) =
    (m, roster, next pair f h on, fq, hq, g, ec, all_from s name p pair t f h l all)

-- A search that returns is right: a name is found in a pair of the chain that resolves it to the id
-- and the kind reported, and it is reported absent only where no pair of the chain has it, with the
-- chain's last pair and that pair's count of live entries.
pub seek_entry_in_chain-Seeks :
    (s : Storage) (first : BlockPair) (name : List ℕ) (v : ChainSeek)
    → seek_entry_in_chain s first name ≡ returns (ok v)
    → Seeks s name first v
unfolding seek_entry_in_chain chase_from
seek_entry_in_chain-Seeks s first name v h =
    chase_rule s (visit_seek name) (λ p st b. Seeks s name p b)
      (λ p pair st b f k.
        let (hit, roster, l, g, e) = visited name p pair (done b) k in
        seek_ends s name p pair b f hit roster l g (hard_tail_of pair) refl e)
      (λ p pair st st' t b f k rest.
        let (hit, roster, l, g, e) = visited name p pair (onward tt t) k in
        let (missed, tail) = seek_goes_on p (hard_tail_of pair) roster.count hit t e in
        seek_back s name p pair t f tail (l ∙ ap ok missed) b rest)
      _ first _ tt v h
