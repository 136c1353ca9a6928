-- ===== src/Resolve.antt =====
-- The reading side of src/fs.rs: a walk along the hard tails of a directory, the search for a name
-- in them, and the descent of a path. A loop along the tails takes fuel (`chain_fuel`), and a run
-- tells apart the fuel that gave out, a panic and a result.
pub mod Ring
pub mod Ends
pub mod Total
pub mod Search
pub mod Agree
pub mod Contents
use littlefs2_pure.Prelude.{
  ℕ, zero, suc, ◌+◌, ◌*◌, Bool, true, false, not, ◌||◌, Option, none, some, List, [], ◌∷◌, ◌==◌,
  if◌then◌else◌, length, Result, ok, err, ◌>>=◌, corrupt, not_found, invalid_path,
  geometry_mismatch,
}
use littlefs2_pure.Prelude.Bytes.{le32_at}
use littlefs2_pure.Block.{BlockPair}
use littlefs2_pure.Storage.{Storage}
use littlefs2_pure.Tag.Kind.{TagType}
use littlefs2_pure.Meta.Pair.{MetadataPair}
use littlefs2_pure.Dir.{
  EntryKind, regular_entry, directory_entry, DirEntry, Resolved, lookup_checked, live_entries,
}
use littlefs2_pure.FilePath.{FilePath, is_root, components, collect}
use littlefs2_pure.Compact.Plan.{gather_live_slots}
use littlefs2_pure.Chase.{BrentTailWalk, start_at, advance}
use littlefs2_pure.Chase.Forest.{fetch_pair, hard_tail_of}

-- `stuck` means that the fuel ran out, and `panics` that an `expect` failed.
pub data Run (A : Type 0) : Type 0 where
  stuck panics : Run A
  returns : Result A → Run A

-- `?` on a run
abbrev pub and_then : {A B : Type 0} → Run A → (A → Run B) → Run B
and_then stuck next = stuck
and_then panics next = panics
and_then (returns (err e)) next = returns (err e)
and_then (returns (ok a)) next = next a

-- How a round of a loop along the tails ends.
pub data Round (S B : Type 0) : Type 0 where
  done : B → Round S B
  panic : Round S B
  onward : S → BlockPair → Round S B

-- The loops of `seek_entry_in_chain`, `find_dir_pair`, `resolve` and `list_pair_chain`: fetch the
-- pair, visit it, and go on at the tail that the visit names.
module _ {S B : Type 0} (s : Storage)
    (visit : BlockPair → MetadataPair → S → Result (Round S B)) where
  unfoldable pub chase : ℕ → BlockPair → BrentTailWalk → S → Run B
  unfolding fetch_pair advance
  chase zero current walk st = stuck
  chase (suc fuel) current walk st = elim (fetch_pair s current) [
    | err e ↦ returns (err e)
    | ok pair ↦ elim (visit current pair st) [
      | err e ↦ returns (err e)
      | ok r ↦ elim r [
        | done b ↦ returns (ok b)
        | panic ↦ panics
        | onward st' t ↦ elim (advance t walk) [
          | err e ↦ returns (err e)
          | ok walk' ↦ chase fuel t walk' st'
        ]
      ]
    ]
  ]

abbrev pub chain_fuel : Storage → ℕ
chain_fuel s = 3 * (s.block_count + 1)

unfoldable pub chase_from :
    {S B : Type 0}
    → (s : Storage) → (BlockPair → MetadataPair → S → Result (Round S B))
    → BlockPair
    → S
    → Run B
unfolding chase start_at
chase_from s visit first st = chase s visit (chain_fuel s) first (start_at first) st

pub data ChainSeek : Type 0 where
  found : BlockPair → ℕ → EntryKind → ChainSeek
  absent : BlockPair → ℕ → ChainSeek

unfoldable pub seek_round :
    BlockPair → Option BlockPair → ℕ → Option Resolved → Round (Unit {0}) ChainSeek
seek_round current next count (some r) = done (found current r.entry.id r.entry.kind)
seek_round current (some t) count none = onward tt t
seek_round current none count none = done (absent current count)

unfoldable pub visit_seek :
    List ℕ → BlockPair → MetadataPair → Unit {0} → Result (Round (Unit {0}) ChainSeek)
unfolding lookup_checked gather_live_slots hard_tail_of seek_round
visit_seek name current pair st = do
  hit ← lookup_checked pair name
  roster ← gather_live_slots pair.reader
  ok (seek_round current (hard_tail_of pair) roster.count hit)

unfoldable pub seek_entry_in_chain : Storage → BlockPair → List ℕ → Run ChainSeek
unfolding chase_from visit_seek
seek_entry_in_chain s first name = chase_from s (visit_seek name) first tt

unfoldable pub is_directory : EntryKind → Bool
is_directory directory_entry = true
is_directory regular_entry = false

pub is_dir_struct : TagType → Bool
is_dir_struct TagType.dir_struct = true
is_dir_struct t = false

-- The pair that a `DirStruct` body names.
unfoldable pub decode_dir : DirEntry → TagType → List ℕ → Result BlockPair
unfolding is_directory is_dir_struct
decode_dir e t body =
    if not (is_directory e.kind)
    then err not_found
    else if not (is_dir_struct t) || not (length body == 8)
    then err corrupt
    else ok (record { a = le32_at body 0; b = le32_at body 4 })

-- A tail that is followed, or the end of the search.
unfoldable pub tail_or_not_found : {B : Type 0} → Option BlockPair → Result (Round (Unit {0}) B)
tail_or_not_found none = err not_found
tail_or_not_found (some t) = ok (onward tt t)

unfoldable pub dir_round : Option BlockPair → Option Resolved → Result (Round (Unit {0}) BlockPair)
unfolding decode_dir tail_or_not_found
dir_round next (some r) = decode_dir r.entry r.struct_type r.struct_body >>= λ p. ok (done p)
dir_round next none = tail_or_not_found next

unfoldable pub visit_dir :
    List ℕ → BlockPair → MetadataPair → Unit {0} → Result (Round (Unit {0}) BlockPair)
unfolding lookup_checked hard_tail_of dir_round
visit_dir name current pair st = lookup_checked pair name >>= dir_round (hard_tail_of pair)

unfoldable pub find_dir_pair : Storage → BlockPair → List ℕ → Run BlockPair
unfolding chase_from visit_dir
find_dir_pair s first name = chase_from s (visit_dir name) first tt

-- The components but the last, each found in the directory before it, and the last.
unfoldable pub descend : Storage → BlockPair → List (List ℕ) → Run (BlockPair × List ℕ)
unfolding find_dir_pair
descend s current [] = returns (err invalid_path)
descend s current (name ∷ []) = returns (ok (current, name))
descend s current (name ∷ name' ∷ rest) =
    and_then (find_dir_pair s current name) λ next. descend s next (name' ∷ rest)

-- The names that the iterator over the path's components yields.
unfoldable pub path_names : FilePath → Run (List (List ℕ))
unfolding components collect
path_names path = elim (collect (suc (length (components path).remaining)) (components path)) [
  | none ↦ stuck
  | some names ↦ returns (ok names)
]

-- With the root pair of the mount and the lengths of the two buffers.
unfoldable pub resolve_parent : Storage → BlockPair → FilePath → ℕ → ℕ → Run (BlockPair × List ℕ)
unfolding is_root path_names descend
resolve_parent s root path len_a len_b =
    if not (len_a == s.block_size) || not (len_b == s.block_size)
    then returns (err geometry_mismatch)
    else if is_root path
    then returns (err invalid_path)
    else and_then (path_names path) (descend s root)

pub record ResolvedPath : Type 0 where
  pub pair : BlockPair
  pub entry : DirEntry
  pub struct_type : TagType
  pub struct_body : List ℕ

-- The second lookup, on bytes that have not changed, and its `expect`.
unfoldable pub land : MetadataPair → Option Resolved → Round (Unit {0}) ResolvedPath
land pair none = panic
land pair (some r) = done (record {
  pair = record { a = pair.active_block; b = pair.alternate_block };
  entry = r.entry;
  struct_type = r.struct_type;
  struct_body = r.struct_body;
})

-- `tail_to_follow`
unfoldable pub tail_to_follow : MetadataPair → Option Resolved → Result (Option BlockPair)
tail_to_follow pair (some r) = ok none
tail_to_follow pair none = if pair.reader.is_hard_tail then ok pair.reader.tail else err not_found

unfoldable pub follow_or_land :
    List ℕ → MetadataPair → Option BlockPair → Result (Round (Unit {0}) ResolvedPath)
unfolding lookup_checked land
follow_or_land name pair (some t) = ok (onward tt t)
follow_or_land name pair none = lookup_checked pair name >>= λ hit. ok (land pair hit)

unfoldable pub visit_leaf :
    List ℕ → BlockPair → MetadataPair → Unit {0} → Result (Round (Unit {0}) ResolvedPath)
unfolding lookup_checked tail_to_follow follow_or_land
visit_leaf name current pair st = do
  hit ← lookup_checked pair name
  next ← tail_to_follow pair hit
  follow_or_land name pair next

unfoldable pub find_leaf : Storage → BlockPair → List ℕ → Run ResolvedPath
unfolding chase_from visit_leaf
find_leaf s first name = chase_from s (visit_leaf name) first tt

unfoldable pub resolve : Storage → BlockPair → FilePath → ℕ → ℕ → Run ResolvedPath
unfolding is_root path_names descend find_leaf
resolve s root path len_a len_b =
    if not (len_a == s.block_size) || not (len_b == s.block_size)
    then returns (err geometry_mismatch)
    else if is_root path
    then returns (err invalid_path)
    else and_then (path_names path)
        λ names. and_then (descend s root names) λ p. find_leaf s p.0 p.1

-- The callback of `list_pair_chain`, with the count of its calls.
module _ {S : Type 0} (f : DirEntry → S → S) where
  unfoldable pub list_round : Option BlockPair → S × ℕ → Round (S × ℕ) (S × ℕ)
  list_round none st = done st
  list_round (some t) st = onward st t

  unfoldable pub visit_list : BlockPair → MetadataPair → S × ℕ → Result (Round (S × ℕ) (S × ℕ))
  unfolding live_entries hard_tail_of list_round
  visit_list current pair st = live_entries pair (λ e t. ok (f e t.0, t.1 + 1)) st >>= λ p.
      ok (list_round (hard_tail_of pair) p.1)

  unfoldable pub list_pair_chain : Storage → BlockPair → S → Run (S × ℕ)
  unfolding chase_from visit_list
  list_pair_chain s start st = chase_from s visit_list start (st, 0)

  unfoldable pub list_dir : Storage → BlockPair → FilePath → ℕ → ℕ → S → Run (S × ℕ)
  unfolding is_root resolve decode_dir list_pair_chain
  list_dir s root path len_a len_b st =
      if not (len_a == s.block_size) || not (len_b == s.block_size)
      then returns (err geometry_mismatch)
      else if is_root path
      then list_pair_chain s root st
      else and_then (resolve s root path len_a len_b) λ r.
        and_then (returns (decode_dir r.entry r.struct_type r.struct_body))
          λ p. list_pair_chain s p st

-- The verdict of `exists` on the outcome of `resolve`.
unfoldable pub exists_result : Bool → Result ResolvedPath → Result Bool
exists_result at_root (ok r) = ok true
exists_result at_root (err not_found) = ok false
exists_result at_root (err invalid_path) = if at_root then ok true else err invalid_path
exists_result at_root (err e) = err e

unfoldable pub exists_run : Bool → Run ResolvedPath → Run Bool
unfolding exists_result
exists_run at_root stuck = stuck
exists_run at_root panics = panics
exists_run at_root (returns r) = returns (exists_result at_root r)

-- `Fs::exists`
unfoldable pub path_exists : Storage → BlockPair → FilePath → ℕ → ℕ → Run Bool
unfolding is_root resolve exists_run
path_exists s root path len_a len_b = exists_run (is_root path) (resolve s root path len_a len_b)
