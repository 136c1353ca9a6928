-- ===== src/Chase/Tree.antt =====
-- The walks over the forest that keep a queue end: the one that collects the pairs of the tree, with
-- what its queue promises, and the one that aggregates the global state.
use littlefs2_pure.Prelude.{
  ℕ, zero, suc, ◌+◌, ◌≤◌, ◌<◌, ◌≡◌, refl, ap, subst, ◌∙◌, inl, inr, true, false, ◌||◌, Bool-cases,
  Option, none, some, Option-cases, List, [], ◌∷◌, ◌++◌, leb, length, length-append, take,
  get_elem?, All, Result, ok, err, chain_ok, corrupt, out_of_range, Result-cases, arith,
}
use littlefs2_pure.Block.{BlockPair, is_same_pair, contains_pair}
use littlefs2_pure.Storage.{Storage}
use littlefs2_pure.Gstate.{Gstate, gstate_zero, xor_body, xor_relocate_body}
use littlefs2_pure.Alloc.Scan.{max_queued_pairs}
use littlefs2_pure.Compact.Plan.{SlotOffsets, gather_live_slots}
use littlefs2_pure.Chase.{pair_in_bounds}
use littlefs2_pure.Chase.Forest.{
  Visit, go_on, fetch_pair, hard_tail_of, child_of, enqueue_pair, enqueue_tail, enqueue_children,
  visit_tree, walk_queue, visit_gstate, accumulate_gstate, scan_pair_move_state,
  scan_pair_relocate_state, collect_live_tree_pairs,
}

-- No two pairs of the list name the same two blocks.
abbrev pub AreApart : List BlockPair → Type 0
AreApart [] = Unit
AreApart (p ∷ rest) = (contains_pair rest p ≡ false) × AreApart rest

is_same_pair_sym : (p q : BlockPair) → is_same_pair p q ≡ is_same_pair q p
unfolding is_same_pair
is_same_pair_sym p q = ground arith

contains_pair-append :
    (pairs : List BlockPair) (x p : BlockPair)
    → contains_pair (pairs ++ (x ∷ [])) p ≡ (contains_pair pairs p || is_same_pair x p)
unfolding contains_pair
contains_pair-append [] x p = ground arith
contains_pair-append (y ∷ pairs) x p = ground (arith, contains_pair-append pairs x p)

AreApart-append :
    (pairs : List BlockPair) (x : BlockPair)
    → AreApart pairs
    → contains_pair pairs x ≡ false
    → AreApart (pairs ++ (x ∷ []))
unfolding contains_pair
AreApart-append [] x h new = (refl, tt)
AreApart-append (p ∷ pairs) x h new = (
  contains_pair-append pairs x p ∙ ground (arith, is_same_pair_sym p x, h.0),
  AreApart-append pairs x h.1 (ground arith),
)

All-append {κ} :
    {A : Type 0} (P : A → Type κ) (xs : List A) (x : A) → All P xs → P x → All P (xs ++ (x ∷ []))
All-append P [] x h k = (k, tt)
All-append P (y ∷ xs) x h k = (h.0, All-append P xs x h.1 k)

module _ (s : Storage) (root : BlockPair) where
  -- The root and pairs on the device behind it, 32 in all at most, no two with the same blocks.
  pub record IsQueue (queue : List BlockPair) : Type 0 where
    pub rest : List BlockPair
    pub from_root : queue ≡ root ∷ rest
    pub on_device : All (λ p. pair_in_bounds s p ≡ true) rest
    pub apart : AreApart queue
    pub short : length queue ≤ max_queued_pairs

  enqueue_pair-IsQueue :
      (pair : BlockPair) (queue queue' : List BlockPair)
      → IsQueue queue
      → enqueue_pair s pair queue ≡ ok queue'
      → IsQueue queue'
  unfolding enqueue_pair
  enqueue_pair-IsQueue pair queue queue' w e = elim (Bool-cases (pair_in_bounds s pair)) [
    | inr out ↦ let failed : err corrupt ≡ ok queue' = rw (out, enqueue_pair) at e in absurd (cc)
    | inl inside ↦ elim (Bool-cases (contains_pair queue pair)) [
      | inl old ↦
          let kept : ok queue ≡ ok queue' = rw (inside, old, enqueue_pair) at e in
          subst IsQueue (cc) w
      | inr new ↦ elim (Bool-cases (leb max_queued_pairs (length queue))) [
        | inl full ↦
            let failed : err out_of_range ≡ ok queue' = rw (inside, new, full, enqueue_pair) at e in
            absurd (cc)
        | inr room ↦
            let grown : ok (queue ++ (pair ∷ [])) ≡ ok queue' =
              rw (inside, new, room, enqueue_pair) at e in
            let longer : IsQueue (queue ++ (pair ∷ [])) = record {
              rest = w.rest ++ (pair ∷ []);
              from_root = ap (λ q. q ++ (pair ∷ [])) w.from_root;
              on_device =
                  All-append (λ p. pair_in_bounds s p ≡ true) w.rest pair w.on_device inside;
              apart = AreApart-append queue pair w.apart new;
              short =
                  (let below : length queue < max_queued_pairs = ground arith in
                    omega (arith, length-append queue (pair ∷ [])));
            } in
            subst IsQueue (cc) longer
      ]
    ]
  ]

  enqueue_tail-IsQueue :
      (pair : Option BlockPair) (queue queue' : List BlockPair)
      → IsQueue queue
      → enqueue_tail s pair queue ≡ ok queue'
      → IsQueue queue'
  unfolding enqueue_tail
  enqueue_tail-IsQueue none queue queue' w e = subst IsQueue (cc) w
  enqueue_tail-IsQueue (some pair) queue queue' w e = enqueue_pair-IsQueue pair queue queue' w e

  enqueue_children-IsQueue :
      (source : List ℕ) (slots : List SlotOffsets) (queue queue' : List BlockPair)
      → IsQueue queue
      → enqueue_children s source slots queue ≡ ok queue'
      → IsQueue queue'
  unfolding enqueue_children
  enqueue_children-IsQueue source [] queue queue' w e = subst IsQueue (cc) w
  enqueue_children-IsQueue source (slot ∷ rest) queue queue' w e =
      let (q1, one, more) =
        chain_ok (enqueue_tail s (child_of source slot) queue) (enqueue_children s source rest) e in
      enqueue_children-IsQueue source rest q1 queue'
        (enqueue_tail-IsQueue (child_of source slot) queue q1 w one) more

  past_end :
      (queue : List BlockPair) (head : ℕ) (p : BlockPair)
      → get_elem? queue head ≡ some p
      → head < length queue
  past_end [] head p e = cc
  past_end (q ∷ queue) zero p e = omega arith
  past_end (q ∷ queue) (suc head) p e = omega (arith, past_end queue head p e)

  -- A rule for a walk that never stops early: it ends, and fails or keeps the invariant.
  module _ {A : Type 0} (visit : BlockPair → List BlockPair → A → Result (Visit A))
      (Inv : List BlockPair → A → Type 0)
      (keeps : (p : BlockPair) (queue : List BlockPair) (a : A) (v : Visit A)
        → IsQueue queue
        → Inv queue a
        → visit p queue a ≡ ok v
        → (out : A) × (queue' : List BlockPair) × (v ≡ go_on out queue')
          × IsQueue queue'
          × Inv queue' out) where
    abbrev Ended : Result A → Type 0
    Ended (ok out) = (queue : List BlockPair) × IsQueue queue × Inv queue out
    Ended (err e) = Unit

    walk_ends :
        (fuel : ℕ) (queue : List BlockPair) (head : ℕ) (a : A)
        → IsQueue queue
        → Inv queue a
        → head ≤ max_queued_pairs
        → max_queued_pairs < fuel + head
        → (r : Result A) × (walk_queue visit fuel queue head a ≡ some r) × Ended r
    unfolding walk_queue
    walk_ends zero queue head a w i le h = absurd (omega arith)
    walk_ends (suc fuel) queue head a w i le h = elim (Option-cases (get_elem? queue head)) [
      | inl done ↦ (ok a, rw (done, walk_queue) refl, (queue, w, i))
      | inr (p, at) ↦ elim (Result-cases (visit p queue a)) [
        | inr (e, v) ↦ (err e, rw (at, v, walk_queue) refl, tt)
        | inl (next, v) ↦
            let (out, queue', same, w', i') = keeps p queue a next w i v in
            let (r, ends, good) =
              walk_ends fuel queue' (suc head) out w' i'
                (omega (arith, past_end queue head p at, w.short)) (omega arith) in
            (r, rw (at, v, same, walk_queue) ends, good)
      ]
    ]

  only_root : IsQueue (root ∷ [])
  only_root = record {
    rest = [];
    from_root = refl;
    on_device = tt;
    apart = (unfold contains_pair in refl, tt);
    short = omega arith;
  }

  ok_same : {A : Type 0} (u v : A) → ok u ≡ ok v → v ≡ u
  ok_same u v h = cc

  visit_tree-keeps :
      (p : BlockPair) (queue out : List BlockPair) (v : Visit (List BlockPair))
      → IsQueue queue
      → out ≡ queue
      → visit_tree s p queue out ≡ ok v
      → (out' : List BlockPair) × (queue' : List BlockPair) × (v ≡ go_on out' queue')
        × IsQueue queue'
        × (out' ≡ queue')
  unfolding visit_tree
  visit_tree-keeps p queue out v w same e =
      let (pair, e1, r1) = chain_ok (fetch_pair s p) _ e in
      let (q1, e2, r2) = chain_ok (enqueue_tail s (hard_tail_of pair) queue) _ r1 in
      let (roster, e3, r3) = chain_ok (gather_live_slots pair.reader) _ r2 in
      let slots = take roster.count roster.slots in
      let (q2, e4, r4) = chain_ok (enqueue_children s pair.reader.block slots q1) _ r3 in
      let w1 = enqueue_tail-IsQueue (hard_tail_of pair) queue q1 w e2 in
      let w2 = enqueue_children-IsQueue pair.reader.block slots q1 q2 w1 e4 in
      (q2, q2, ok_same (go_on q2 q2) v r4, w2, refl)

  visit_gstate-keeps :
      (p : BlockPair) (queue : List BlockPair) (g : Gstate) (v : Visit Gstate)
      → IsQueue queue
      → Unit {0}
      → visit_gstate s p queue g ≡ ok v
      → (g' : Gstate) × (queue' : List BlockPair) × (v ≡ go_on g' queue')
        × IsQueue queue'
        × Unit {0}
  unfolding visit_gstate
  visit_gstate-keeps p queue g v w u e =
      let (pair, e1, r1) = chain_ok (fetch_pair s p) _ e in
      let g' =
        xor_relocate_body (xor_body g (scan_pair_move_state pair))
          (scan_pair_relocate_state pair) in
      let (roster, e2, r2) = chain_ok (gather_live_slots pair.reader) _ r1 in
      let slots = take roster.count roster.slots in
      let (q1, e3, r3) = chain_ok (enqueue_tail s pair.reader.tail queue) _ r2 in
      let (q2, e4, r4) = chain_ok (enqueue_children s pair.reader.block slots q1) _ r3 in
      let w1 = enqueue_tail-IsQueue pair.reader.tail queue q1 w e3 in
      let w2 = enqueue_children-IsQueue pair.reader.block slots q1 q2 w1 e4 in
      (g', q2, ok_same (go_on g' q2) v r4, w2, tt)

  -- The aggregation of the global state ends, whatever the device holds.
  pub accumulate_gstate_ends : (r : Result Gstate) × (accumulate_gstate s root ≡ some r)
  unfolding accumulate_gstate
  accumulate_gstate_ends =
      let (r, ends, good) =
        walk_ends (visit_gstate s) (λ queue g. Unit {0}) visit_gstate-keeps (suc max_queued_pairs)
          (root ∷ []) 0 gstate_zero only_root tt (omega arith) (omega arith) in
      (r, ends)

  -- What is collected, unless the walk fails.
  abbrev pub Collects : Result (List BlockPair) → Type 0
  Collects (ok out) = IsQueue out
  Collects (err e) = Unit

  collected :
      (r : Result (List BlockPair))
      → Ended (visit_tree s) (λ queue out. out ≡ queue) visit_tree-keeps r
      → Collects r
  collected (ok out) (queue, w, same) = rw same w
  collected (err e) u = tt

  -- Whatever the device holds, the collection of the tree's pairs ends; it fails, or its pairs are the
  -- root and pairs on the device behind it, 32 in all at most, no two with the same blocks.
  pub collect_live_tree_pairs-Collects :
      (r : Result (List BlockPair)) × (collect_live_tree_pairs s root ≡ some r) × Collects r
  unfolding collect_live_tree_pairs
  collect_live_tree_pairs-Collects =
      let (r, ends, good) =
        walk_ends (visit_tree s) (λ queue out. out ≡ queue) visit_tree-keeps (suc max_queued_pairs)
          (root ∷ []) 0 (root ∷ []) only_root refl (omega arith) (omega arith) in
      (r, ends, collected r good)
