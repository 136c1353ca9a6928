-- ===== src/Mount/Healthy.antt =====
-- `mount` of a device that needs no recovery.
use littlefs2_pure.Prelude.{
  ℕ, zero, suc, ◌*◌, ◌≡◌, refl, inl, inr, true, none, some, Option, Option-cases, List, [], ◌∷◌,
  ◌++◌, ltb, if◌then◌else◌, length, Bool-cases, Result, ok, err, Result-cases,
}
use littlefs2_pure.Block.{BlockPair, contains_pair}
use littlefs2_pure.Storage.{Storage}
use littlefs2_pure.Gstate.{Gstate, pending_move, pending_relocation}
use littlefs2_pure.Meta.Pair.{MetadataPair}
use littlefs2_pure.Superblock.{Superblock}
use littlefs2_pure.Alloc.Scan.{max_queued_pairs}
use littlefs2_pure.Chase.Forest.{fetch_pair, accumulate_gstate, collect_live_tree_pairs}
use littlefs2_pure.Resolve.{Run, stuck, panics, returns}
use littlefs2_pure.Mount.{
  FsCommits, root_block_pair, open_volume, as_run, and_with, sweep, deorphan_sweep, settle_move,
  settle_relocation, recover, mount,
}

-- The pairs that the tails lead to, hard and soft.
pub data OnThread (s : Storage) : BlockPair → Type 0 where
  root : OnThread s root_block_pair
  behind :
      {p t : BlockPair} (pair : MetadataPair)
      → OnThread s p
      → fetch_pair s p ≡ ok pair
      → pair.reader.tail ≡ some t
      → OnThread s t

-- Nothing is pending, and every pair of the thread but the root is in the tree, as far as the device
-- can be read.
pub record IsSettled (s : Storage) : Type 0 where
  pub no_move :
      (g : Gstate) → accumulate_gstate s root_block_pair ≡ some (ok g) → pending_move g ≡ none
  pub no_relocation :
      (g : Gstate) → accumulate_gstate s root_block_pair ≡ some (ok g) → pending_relocation g ≡ none
  pub threaded :
      (tree : List BlockPair) (p t : BlockPair) (pair : MetadataPair)
      → collect_live_tree_pairs s root_block_pair ≡ some (ok tree)
      → OnThread s p
      → fetch_pair s p ≡ ok pair
      → pair.reader.tail ≡ some t
      → contains_pair tree t ≡ true

-- A step that keeps the state, behind one that does.
and_with-kept :
    {A B σ : Type 0} (m : Run A) (st : σ) (k : A → σ → Run B × σ)
    → ((a : A) → m ≡ returns (ok a) → (k a st).1 ≡ st)
    → (and_with (m, st) k).1 ≡ st
unfolding and_with
and_with-kept stuck st k h = refl
and_with-kept panics st k h = refl
and_with-kept (returns (err e)) st k h = refl
and_with-kept (returns (ok a)) st k h = h a refl

returning-kept :
    {A B σ : Type 0} (m : Run A × σ) (st : σ) (b : B)
    → m.1 ≡ st
    → (and_with m (λ a st'. (returns (ok b), st'))).1 ≡ st
unfolding and_with
returning-kept (stuck, st') st b h = h
returning-kept (panics, st') st b h = h
returning-kept (returns (err e), st') st b h = h
returning-kept (returns (ok a), st') st b h = h

as_run_ok :
    {A : Type 0} (r : Option (Result A)) (a : A) → as_run r ≡ returns (ok a) → r ≡ some (ok a)
unfolding as_run
as_run_ok none a h = absurd (cc)
as_run_ok (some r) a h = cc

module _ {σ : Type 0} (fs : FsCommits σ) where
  sweep_kept :
      (steps : ℕ) (tree : List BlockPair) (cur : BlockPair) (visited : List BlockPair) (st : σ)
      → IsSettled (fs.storage st)
      → collect_live_tree_pairs (fs.storage st) root_block_pair ≡ some (ok tree)
      → OnThread (fs.storage st) cur
      → (sweep fs steps tree cur visited st).1 ≡ st
  unfolding sweep
  sweep_kept zero tree cur visited st h c on = refl
  sweep_kept (suc steps) tree cur visited st h c on =
      elim (Result-cases (fetch_pair (fs.storage st) cur)) [
        | inr (e, f) ↦ rw (f, sweep) refl
        | inl (pair, f) ↦ elim (Option-cases pair.reader.tail) [
          | inl last ↦ rw (f, last, sweep) refl
          | inr (t, next) ↦
              let live = h.threaded tree cur t pair c on f next in
              elim (Bool-cases (contains_pair visited t)) [
                | inl again ↦ rw (f, next, live, again, sweep) refl
                | inr new ↦
                    rw (f, next, live, new, sweep)
                      (sweep_kept steps tree t
                        (if ltb (length visited) max_queued_pairs
                          then visited ++ (t ∷ [])
                          else visited)
                        st h c (behind pair on f next))
              ]
        ]
      ]

  sweep_alone :
      (steps : ℕ) (tree visited : List BlockPair) (st : σ) (pair : MetadataPair)
      → fetch_pair (fs.storage st) root_block_pair ≡ ok pair
      → pair.reader.tail ≡ none
      → sweep fs steps tree root_block_pair visited st ≡ (returns (ok tt), st)
  unfolding sweep
  sweep_alone zero tree visited st pair f last = refl
  sweep_alone (suc steps) tree visited st pair f last = rw (f, last, sweep) refl

  deorphan_sweep_kept : (st : σ) → IsSettled (fs.storage st) → (deorphan_sweep fs st).1 ≡ st
  unfolding deorphan_sweep
  deorphan_sweep_kept st h =
      and_with-kept (as_run (collect_live_tree_pairs (fs.storage st) root_block_pair)) st _
        (λ tree e.
          sweep_kept (4 * max_queued_pairs) tree root_block_pair (root_block_pair ∷ []) st h
            (as_run_ok _ tree e) root)

  recover_kept : (st : σ) → IsSettled (fs.storage st) → (recover fs st).1 ≡ st
  unfolding recover settle_move settle_relocation and_with
  recover_kept st h =
      and_with-kept (as_run (accumulate_gstate (fs.storage st) root_block_pair)) st _ (λ g e.
        let at = as_run_ok _ g e in
        rw (h.no_move g at, h.no_relocation g at) (deorphan_sweep_kept st h))

  -- The mount of a device on which no move and no relocation is pending, and on which every pair
  -- that a tail of the thread leads to is in the tree, makes no commit and leaves the state as it
  -- is, whatever it returns: reads that fail, a superblock that is refused and a thread that comes
  -- back to one of its pairs included.
  pub mount_kept :
      (len_a len_b : ℕ) (st : σ) → IsSettled (fs.storage st) → (mount fs len_a len_b st).1 ≡ st
  unfolding mount
  mount_kept len_a len_b st h =
      and_with-kept (returns (open_volume (fs.storage st) fs.prog_size len_a len_b)) st _
        (λ sb e. returning-kept (recover fs st) st sb (recover_kept st h))

  -- The mount of a device whose root pair has no tail.
  pub mount_alone :
      (len_a len_b : ℕ) (st : σ) (sb : Superblock) (g : Gstate) (tree : List BlockPair)
      (pair : MetadataPair)
      → open_volume (fs.storage st) fs.prog_size len_a len_b ≡ ok sb
      → accumulate_gstate (fs.storage st) root_block_pair ≡ some (ok g)
      → pending_move g ≡ none
      → pending_relocation g ≡ none
      → collect_live_tree_pairs (fs.storage st) root_block_pair ≡ some (ok tree)
      → fetch_pair (fs.storage st) root_block_pair ≡ ok pair
      → pair.reader.tail ≡ none
      → mount fs len_a len_b st ≡ (returns (ok sb), st)
  unfolding mount recover deorphan_sweep as_run and_with settle_move settle_relocation
  mount_alone len_a len_b st sb g tree pair opened aggregated no_move no_relocation collected f
        last =
      let swept = sweep_alone (4 * max_queued_pairs) tree (root_block_pair ∷ []) st pair f last in
      rw (opened, aggregated, no_move, no_relocation, collected, swept) refl
