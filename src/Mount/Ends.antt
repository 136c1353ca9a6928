-- ===== src/Mount/Ends.antt =====
-- `mount` returns, whatever the device holds and whatever its commits do, as long as these leave the
-- size of the device.
use littlefs2_pure.Prelude.{
  ℕ, zero, suc, ◌*◌, ◌^◌, ◌<◌, ◌≡◌, refl, inl, inr, not, ◌||◌, Bool, true, false, Bool-cases,
  Option, none, some, Option-cases, List, [], ◌∷◌, leb, if◌then◌else◌, Result, ok, err,
  Result-cases, corrupt,
}
use littlefs2_pure.Block.{BlockPair, contains_pair}
use littlefs2_pure.Gstate.{pending_move, pending_relocation, build_move_body, build_relocate_body}
use littlefs2_pure.Meta.Pair.{MetadataPair}
use littlefs2_pure.Alloc.Scan.{max_queued_pairs}
use littlefs2_pure.Compact.{WriteOp, remove, noop}
use littlefs2_pure.Chase.{pair_in_bounds}
use littlefs2_pure.Chase.Forest.{
  fetch_pair, hard_tail_of, accumulate_gstate, collect_live_tree_pairs,
}
use littlefs2_pure.Chase.Tree.{collect_live_tree_pairs-Collects, accumulate_gstate_ends}
use littlefs2_pure.Resolve.{Run, stuck, panics, returns}
use littlefs2_pure.Resolve.Ends.{Returns, GoesAlong, chase_from-Returns}
use littlefs2_pure.Mount.{
  FsCommits, root_block_pair, Stolen, steal_round, visit_steal, as_run, and_with, commit_run,
  unthread_and_steal, repair, sweep, deorphan_sweep, recover_pending_move,
  recover_pending_relocation, settle_move, settle_relocation, recover, mount,
}

steal_round-GoesAlong :
    (pair : MetadataPair) (st : Stolen) → GoesAlong pair (ok (steal_round pair st))
unfolding steal_round hard_tail_of
steal_round-GoesAlong pair st = elim (Bool-cases pair.reader.is_hard_tail) [
  | inr soft ↦ rw soft tt
  | inl hard ↦ elim (Option-cases pair.reader.tail) [
    | inl gone ↦ rw (hard, gone) tt
    | inr (t, e) ↦ rw (hard, e) refl
  ]
]

-- A commit, and the drop of the allocator's cache, leave the number of the device's blocks.
pub record IsFixed {σ : Type 0} (fs : FsCommits σ) : Type 0 where
  pub commit_keeps :
      (p : BlockPair) (op : WriteOp) (ms rs : Option (List ℕ)) (t : Option (BlockPair × Bool))
      (st : σ)
      → (fs.storage (fs.commit p op ms rs t st).1).block_count ≡ (fs.storage st).block_count
  pub drop_keeps :
      (st : σ) → (fs.storage (fs.drop_cache st)).block_count ≡ (fs.storage st).block_count

module _ {σ : Type 0} (fs : FsCommits σ) (fixed : IsFixed fs) where
  abbrev pub IsSmall : σ → Type 0
  IsSmall st = (fs.storage st).block_count < 2 ^ 31

  -- The step returns, and leaves a device of fewer than 2 ^ 31 blocks.
  pub record Ends {A : Type 0} (out : Run A × σ) : Type 0 where
    pub returned : Returns out.0
    pub small : IsSmall out.1

  and_with-Ends :
      {A B : Type 0} (m : Run A × σ) (k : A → σ → Run B × σ)
      → Ends m
      → ((a : A) (st : σ) → IsSmall st → Ends (k a st))
      → Ends (and_with m k)
  unfolding and_with
  and_with-Ends (stuck, st) k h next = let e = h.returned.1 in absurd (cc)
  and_with-Ends (panics, st) k h next = let e = h.returned.1 in absurd (cc)
  and_with-Ends (returns (err e), st) k h next = record {
    returned = (err e, refl);
    small = h.small;
  }
  and_with-Ends (returns (ok a), st) k h next = next a st h.small

  returned-Ends : {A : Type 0} (r : Result A) (st : σ) → IsSmall st → Ends (returns r, st)
  returned-Ends r st small = record { returned = (r, refl); small = small }

  if_Ends : {A : Type 0} (b : Bool) (x y : Run A × σ) → Ends x → Ends y → Ends (if b then x else y)
  if_Ends true x y h k = h
  if_Ends false x y h k = k

  commit_run-Ends :
      (p : BlockPair) (op : WriteOp) (ms rs : Option (List ℕ)) (t : Option (BlockPair × Bool))
      (st : σ)
      → IsSmall st
      → Ends (commit_run fs p op ms rs t st)
  unfolding commit_run
  commit_run-Ends p op ms rs t st small = record {
    returned = ((fs.commit p op ms rs t st).0, refl);
    small = rw fixed.commit_keeps small;
  }

  unthread_and_steal-Ends :
      (pred dropped : BlockPair) (st : σ)
      → IsSmall st
      → Ends (unthread_and_steal fs pred dropped st)
  unfolding unthread_and_steal visit_steal
  unthread_and_steal-Ends pred dropped st small =
      and_with-Ends _ _
        (record {
          returned =
              chase_from-Returns (fs.storage st) visit_steal
                (λ p pair w f. steal_round-GoesAlong pair _) dropped small _;
          small = small;
        })
        (λ w st' small'. commit_run-Ends pred noop _ _ _ st' small')

  repair-Ends :
      (tree : List BlockPair) (cur : BlockPair) (hard : Bool) (next : BlockPair) (st : σ)
      → IsSmall st
      → Ends (repair fs tree cur hard next st)
  unfolding repair
  repair-Ends tree cur hard next st small =
      and_with-Ends _ _ (returned-Ends _ st small) (λ twin st' small'.
        and_with-Ends _ _ (by_twin twin st' small')
          (λ u st2 small2. returned-Ends (ok tt) (fs.drop_cache st2) (rw fixed.drop_keeps small2)))
    where
      by_twin :
          (twin : Option BlockPair) (st' : σ)
          → IsSmall st'
          → Ends {A = Unit {0}} (elim twin [
            | some t ↦ commit_run fs cur noop none none (some (t, hard)) st'
            | none ↦ unthread_and_steal fs cur next st'
          ])
      by_twin none st' small' = unthread_and_steal-Ends cur next st' small'
      by_twin (some t) st' small' = commit_run-Ends cur noop none none (some (t, hard)) st' small'

  sweep-Ends :
      (steps : ℕ) (tree : List BlockPair) (cur : BlockPair) (visited : List BlockPair) (st : σ)
      → IsSmall st
      → Ends (sweep fs steps tree cur visited st)
  unfolding sweep
  sweep-Ends zero tree cur visited st small = returned-Ends (ok tt) st small
  sweep-Ends (suc steps) tree cur visited st small =
      elim (Result-cases (fetch_pair (fs.storage st) cur)) [
        | inr (e, f) ↦ rw (f, sweep) (returned-Ends (err e) st small)
        | inl (pair, f) ↦ elim (Option-cases pair.reader.tail) [
          | inl last ↦ rw (f, last, sweep) (returned-Ends (ok tt) st small)
          | inr (next, t) ↦ elim (Bool-cases (contains_pair tree next)) [
            | inr orphan ↦
                rw (f, t, orphan, sweep)
                  (and_with-Ends _ _ (repair-Ends tree cur pair.reader.is_hard_tail next st small)
                    (λ u st' small'. sweep-Ends steps tree cur visited st' small'))
            | inl live ↦ elim (Bool-cases (contains_pair visited next)) [
              | inl again ↦ rw (f, t, live, again, sweep) (returned-Ends (ok tt) st small)
              | inr new ↦ rw (f, t, live, new, sweep) (sweep-Ends steps tree next _ st small)
            ]
          ]
        ]
      ]

  as_run-Ends :
      {A : Type 0} (m : Option (Result A)) (st : σ)
      → (r : Result A) × (m ≡ some r)
      → IsSmall st
      → Ends (as_run m, st)
  unfolding as_run
  as_run-Ends m st (r, e) small = record { returned = (r, rw e refl); small = small }

  tree-Ends :
      (st : σ)
      → IsSmall st
      → Ends (as_run (collect_live_tree_pairs (fs.storage st) root_block_pair), st)
  tree-Ends st small =
      let (r, e, good) = collect_live_tree_pairs-Collects (fs.storage st) root_block_pair in
      as_run-Ends (collect_live_tree_pairs (fs.storage st) root_block_pair) st (r, e) small

  deorphan_sweep-Ends : (st : σ) → IsSmall st → Ends (deorphan_sweep fs st)
  unfolding deorphan_sweep
  deorphan_sweep-Ends st small = and_with-Ends _ _ (tree-Ends st small) (λ tree st' small'.
      sweep-Ends (4 * max_queued_pairs) tree root_block_pair (root_block_pair ∷ []) st' small')

  recover_pending_move-Ends :
      (p : BlockPair) (id : ℕ) (st : σ) → IsSmall st → Ends (recover_pending_move fs p id st)
  unfolding recover_pending_move
  recover_pending_move-Ends p id st small =
      and_with-Ends _ _ (tree-Ends st small) (λ tree st1 small1.
        and_with-Ends _ _ (returned-Ends _ st1 small1) (λ target st2 small2.
          and_with-Ends _ _ (returned-Ends _ st2 small2) (λ roster st3 small3.
            if_Ends (leb roster.count id) _ _ (returned-Ends (err corrupt) st3 small3) (
              commit_run-Ends target (remove id) (some (build_move_body p id)) none none st3
                small3))))

  settle_move-Ends : (m : Option (BlockPair × ℕ)) (st : σ) → IsSmall st → Ends (settle_move fs m st)
  unfolding settle_move
  settle_move-Ends none st small = returned-Ends (ok tt) st small
  settle_move-Ends (some (p, id)) st small =
      if_Ends (not (pair_in_bounds (fs.storage st) p)) _ _ (returned-Ends (err corrupt) st small)
        (recover_pending_move-Ends p id st small)

  settle_relocation-Ends :
      (m : Option (BlockPair × BlockPair)) (st : σ) → IsSmall st → Ends (settle_relocation fs m st)
  unfolding settle_relocation recover_pending_relocation
  settle_relocation-Ends none st small = returned-Ends (ok tt) st small
  settle_relocation-Ends (some (p, q)) st small =
      if_Ends (not (pair_in_bounds (fs.storage st) p) || not (pair_in_bounds (fs.storage st) q)) _ _
        (returned-Ends (err corrupt) st small)
        (commit_run-Ends p noop none (some (build_relocate_body p q)) none st small)

  recover-Ends : (st : σ) → IsSmall st → Ends (recover fs st)
  unfolding recover
  recover-Ends st small =
      and_with-Ends _ _
        (as_run-Ends (accumulate_gstate (fs.storage st) root_block_pair) st
          (accumulate_gstate_ends (fs.storage st) root_block_pair) small)
        (λ g st0 small0.
          and_with-Ends _ _ (settle_move-Ends (pending_move g) st0 small0) (λ u st1 small1.
            and_with-Ends _ _ (settle_relocation-Ends (pending_relocation g) st1 small1)
              (λ v st2 small2. deorphan_sweep-Ends st2 small2)))

  -- On a device of fewer than 2 ^ 31 blocks, whatever it holds and whatever the commits of the
  -- recovery make of it, `mount` returns: each of its walks ends within its fuel.
  pub mount-Ends : (len_a len_b : ℕ) (st : σ) → IsSmall st → Ends (mount fs len_a len_b st)
  unfolding mount
  mount-Ends len_a len_b st small = and_with-Ends _ _ (returned-Ends _ st small) (λ sb st' small'.
      and_with-Ends _ _ (recover-Ends st' small')
        (λ u st'' small''. returned-Ends (ok sb) st'' small''))
