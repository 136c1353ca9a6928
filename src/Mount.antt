-- ===== src/Mount.antt =====
-- src/fs.rs: `Fs::mount`, with the recovery of a pending move and of a pending relocation and the
-- sweep that drops orphans from the thread. The commit of an operation to a pair,
-- `apply_op_to_pair_inner` with `Inflight::NONE`, is an operation on the mounted state, and a step
-- returns its outcome with the state that it leaves, also where it fails.
pub mod Gate
pub mod Ends
pub mod Healthy
use littlefs2_pure.Prelude.{
  ℕ, zero, suc, ◌*◌, Bool, true, false, not, ◌&&◌, ◌||◌, Option, none, some, List, [], ◌∷◌, ◌++◌,
  ltb, leb, ◌==◌, if◌then◌else◌, length, replicate, bit_xor, Result, ok, err, ◌>>=◌, ◌>>◌, corrupt,
  unformatted, geometry_mismatch,
}
use littlefs2_pure.Block.{BlockPair, address_none, contains_pair}
use littlefs2_pure.Geometry
use littlefs2_pure.Geometry.{validate}
use littlefs2_pure.Storage.{Storage, read_or_io}
use littlefs2_pure.Gstate.{
  pending_move, pending_relocation, build_move_body, build_relocate_body, move_state_body_size,
  relocate_state_body_size,
}
use littlefs2_pure.Meta.Pair.{MetadataPair, parse}
use littlefs2_pure.Superblock.{Superblock, from_pair}
use littlefs2_pure.Alloc.Scan.{max_queued_pairs}
use littlefs2_pure.Compact.{WriteOp, remove, noop}
use littlefs2_pure.Compact.Plan.{gather_live_slots}
use littlefs2_pure.Chase.{pair_in_bounds}
use littlefs2_pure.Chase.Forest.{
  fetch_pair, scan_pair_move_state, scan_pair_relocate_state, accumulate_gstate,
  collect_live_tree_pairs, relocated_twin_in,
}
use littlefs2_pure.Resolve.{Run, stuck, panics, returns, Round, done, onward, chase_from}

-- What recovery uses of `Fs`: the device, and the commit of an operation to a pair, with the deltas
-- of the two kinds of global state and a new tail with its hardness.
pub record FsCommits (σ : Type 0) : Type 0 where
  pub prog_size : ℕ
  pub storage : σ → Storage
  pub commit :
      BlockPair
      → WriteOp
      → Option (List ℕ)
      → Option (List ℕ)
      → Option (BlockPair × Bool)
      → σ
      → Result (Unit {0}) × σ
  pub drop_cache : σ → σ

-- `ROOT_BLOCK_PAIR`
abbrev pub root_block_pair : BlockPair
root_block_pair = record { a = 0; b = 1 }

unfoldable pub is_all_erased : List ℕ → Bool
is_all_erased [] = true
is_all_erased (b ∷ rest) = b == 0xff && is_all_erased rest

-- The part of `mount` that writes nothing, up to the handle: the geometry, the two buffers, the
-- root pair and its superblock.
unfoldable pub open_volume : Storage → ℕ → ℕ → ℕ → Result Superblock
unfolding read_or_io is_all_erased
open_volume s prog_size len_a len_b =
    let device : Geometry.Device = record {
      read_size = s.read_size;
      prog_size = prog_size;
      block_size = s.block_size;
      block_count = s.block_count;
    } in
    validate device
    >> (if not (len_a == s.block_size && len_b == s.block_size)
        then err geometry_mismatch
        else read_or_io s 0 0 s.block_size >>= λ block_a.
            read_or_io s 1 0 s.block_size >>= λ block_b.
            if is_all_erased block_a && is_all_erased block_b
            then err unformatted
            else parse 0 block_a 1 block_b >>= λ pair. from_pair pair >>= λ sb.
                if not (sb.block_size == s.block_size)
                then err geometry_mismatch
                else if not (sb.block_count == s.block_count)
                then err geometry_mismatch
                else ok sb)

-- `for (d, s) in stolen.iter_mut().zip(state.iter()) { *d ^= *s }`
unfoldable pub xor_into : List ℕ → List ℕ → List ℕ
xor_into [] state = []
xor_into (d ∷ rest) [] = d ∷ rest
xor_into (d ∷ rest) (s ∷ state) = bit_xor d s ∷ xor_into rest state

pub all_zero : List ℕ → Bool
all_zero [] = true
all_zero (d ∷ rest) = d == 0 && all_zero rest

-- `(stolen != [0; N]).then_some(stolen)`
unfoldable pub some_state : List ℕ → Option (List ℕ)
unfolding all_zero
some_state stolen = if all_zero stolen then none else some stolen

-- The two states that are stolen, and the successor of the last pair.
abbrev pub Stolen : Type 0
Stolen = List ℕ × List ℕ

unfoldable pub steal_round : MetadataPair → Stolen → Round Stolen (Stolen × Option BlockPair)
steal_round pair st =
    if pair.reader.is_hard_tail
    then elim pair.reader.tail [ none ↦ done (st, none) | some t ↦ onward st t ]
    else done (st, pair.reader.tail)

-- A round of the walk of `unthread_and_steal` along a directory.
unfoldable pub visit_steal :
    BlockPair → MetadataPair → Stolen → Result (Round Stolen (Stolen × Option BlockPair))
unfolding xor_into steal_round scan_pair_move_state scan_pair_relocate_state
visit_steal current pair st = ok (
    steal_round pair
      (xor_into st.0 (scan_pair_move_state pair), xor_into st.1 (scan_pair_relocate_state pair)))

-- `successor.unwrap_or(BlockPair::new(NONE, NONE))`
unfoldable pub thread_link : Option BlockPair → BlockPair
thread_link none = record { a = address_none; b = address_none }
thread_link (some t) = t

-- A walk on fuel as a run.
unfoldable pub as_run : {A : Type 0} → Option (Result A) → Run A
as_run none = stuck
as_run (some r) = returns r

-- `?` on a step that leaves a state.
unfoldable pub and_with : {A B σ : Type 0} → Run A × σ → (A → σ → Run B × σ) → Run B × σ
and_with (stuck, st) next = (stuck, st)
and_with (panics, st) next = (panics, st)
and_with (returns (err e), st) next = (returns (err e), st)
and_with (returns (ok a), st) next = next a st

module _ {σ : Type 0} (fs : FsCommits σ) where
  open fs use {storage, commit, drop_cache}

  unfoldable pub commit_run :
      BlockPair
      → WriteOp
      → Option (List ℕ)
      → Option (List ℕ)
      → Option (BlockPair × Bool)
      → σ
      → Run (Unit {0}) × σ
  commit_run pair op ms rs tail st =
      let out = commit pair op ms rs tail st in (returns out.0, out.1)

  unfoldable pub unthread_and_steal : BlockPair → BlockPair → σ → Run (Unit {0}) × σ
  unfolding visit_steal some_state thread_link commit_run
  unthread_and_steal pred_pair dropped st =
      let zeros : Stolen =
        (replicate move_state_body_size 0, replicate relocate_state_body_size 0) in
      and_with (chase_from (storage st) visit_steal dropped zeros, st)
        λ w st'.
          commit_run pred_pair noop (some_state w.0.0) (some_state w.0.1)
            (some (thread_link w.1, false)) st'

  -- What the sweep does at a pair behind `cur` that is in the thread and not in the tree.
  unfoldable pub repair : List BlockPair → BlockPair → Bool → BlockPair → σ → Run (Unit {0}) × σ
  unfolding relocated_twin_in unthread_and_steal commit_run
  repair tree cur cur_is_hard next st =
      and_with (returns (relocated_twin_in (storage st) tree next), st)
        λ twin st'.
          and_with {A = Unit {0}}
            (elim twin [
              | some t ↦ commit_run cur noop none none (some (t, cur_is_hard)) st'
              | none ↦ unthread_and_steal cur next st'
            ])
            λ u st''. (returns (ok tt), drop_cache st'')

  -- The loop of `deorphan_sweep`, for the steps that are left.
  unfoldable pub sweep : ℕ → List BlockPair → BlockPair → List BlockPair → σ → Run (Unit {0}) × σ
  unfolding repair
  sweep zero tree cur visited st = (returns (ok tt), st)
  sweep (suc steps) tree cur visited st = elim (fetch_pair (storage st) cur) [
    | err e ↦ (returns (err e), st)
    | ok pair ↦ elim pair.reader.tail [
      | none ↦ (returns (ok tt), st)
      | some next ↦ elim (contains_pair tree next) [
        | false ↦
            and_with (repair tree cur pair.reader.is_hard_tail next st)
              λ u st'. sweep steps tree cur visited st'
        | true ↦ elim (contains_pair visited next) [
          | true ↦ (returns (ok tt), st)
          | false ↦
              sweep steps tree next
                (if ltb (length visited) max_queued_pairs then visited ++ (next ∷ []) else visited)
                st
        ]
      ]
    ]
  ]

  unfoldable pub deorphan_sweep : σ → Run (Unit {0}) × σ
  unfolding as_run collect_live_tree_pairs sweep
  deorphan_sweep st =
      and_with (as_run (collect_live_tree_pairs (storage st) root_block_pair), st)
        λ tree st'. sweep (4 * max_queued_pairs) tree root_block_pair (root_block_pair ∷ []) st'

  -- The live address of the pair that a pending move names.
  unfoldable pub live_address : List BlockPair → BlockPair → σ → Result BlockPair
  unfolding relocated_twin_in
  live_address tree src_pair st =
      if contains_pair tree src_pair
      then ok src_pair
      else relocated_twin_in (storage st) tree src_pair >>= λ twin.
          ok (elim twin [ none ↦ src_pair | some t ↦ t ])

  unfoldable pub recover_pending_move : BlockPair → ℕ → σ → Run (Unit {0}) × σ
  unfolding as_run collect_live_tree_pairs live_address fetch_pair gather_live_slots commit_run
      build_move_body
  recover_pending_move src_pair src_id st =
      and_with (as_run (collect_live_tree_pairs (storage st) root_block_pair), st)
        λ tree st'.
          and_with (returns (live_address tree src_pair st'), st')
            λ target st''.
              and_with
                (
                  returns
                      (fetch_pair (storage st'') target >>= λ pair. gather_live_slots pair.reader),
                  st'',
                )
                λ roster st3.
                  if leb roster.count src_id
                  then (returns (err corrupt), st3)
                  else commit_run target (remove src_id) (some (build_move_body src_pair src_id))
                      none none st3

  unfoldable pub recover_pending_relocation : BlockPair → BlockPair → σ → Run (Unit {0}) × σ
  unfolding commit_run build_relocate_body
  recover_pending_relocation old_pair new_pair st =
      commit_run old_pair noop none (some (build_relocate_body old_pair new_pair)) none st

  -- The two recoveries of `mount`, each behind the check of the pairs that it is given.
  unfoldable pub settle_move : Option (BlockPair × ℕ) → σ → Run (Unit {0}) × σ
  unfolding pair_in_bounds recover_pending_move
  settle_move none st = (returns (ok tt), st)
  settle_move (some (src_pair, src_id)) st =
      if not (pair_in_bounds (storage st) src_pair)
      then (returns (err corrupt), st)
      else recover_pending_move src_pair src_id st

  unfoldable pub settle_relocation : Option (BlockPair × BlockPair) → σ → Run (Unit {0}) × σ
  unfolding pair_in_bounds recover_pending_relocation
  settle_relocation none st = (returns (ok tt), st)
  settle_relocation (some (old_pair, new_pair)) st =
      if not (pair_in_bounds (storage st) old_pair) || not (pair_in_bounds (storage st) new_pair)
      then (returns (err corrupt), st)
      else recover_pending_relocation old_pair new_pair st

  unfoldable pub recover : σ → Run (Unit {0}) × σ
  unfolding as_run accumulate_gstate settle_move settle_relocation deorphan_sweep
  recover st =
      and_with (as_run (accumulate_gstate (storage st) root_block_pair), st)
        λ g st0. and_with (settle_move (pending_move g) st0) λ u st1.
          and_with (settle_relocation (pending_relocation g) st1) λ v st2. deorphan_sweep st2

  -- `Fs::mount`, from the state of the handle that it builds.
  unfoldable pub mount : ℕ → ℕ → σ → Run Superblock × σ
  unfolding open_volume recover
  mount len_a len_b st =
      and_with (returns (open_volume (storage st) fs.prog_size len_a len_b), st)
        λ sb st'. and_with (recover st') λ u st''. (returns (ok sb), st'')
