-- ===== src/Resolve/Total.antt =====
-- The entry points of Resolve return, and never reach the `expect` of `resolve`.
use littlefs2_pure.Prelude.{
  ℕ, ◌+◌, ◌^◌, ◌<◌, ◌≡◌, ◌≢◌, refl, inl, inr, true, false, not, ◌||◌, Bool-cases, Bool, Option,
  none, some, List, [], ◌∷◌, ◌==◌, Option-cases, ok, err, ◌>>=◌, arith, if◌then◌else◌,
  geometry_mismatch, invalid_path,
}
use littlefs2_pure.Block.{BlockPair}
use littlefs2_pure.Storage.{Storage}
use littlefs2_pure.Meta.Reader
use littlefs2_pure.Meta.Reader.{MetadataReader, new, scan_for_tail, collapse_null}
use littlefs2_pure.Meta.Pair.{MetadataPair}
use littlefs2_pure.Dir.{Resolved, lookup_checked, live_entries, DirEntry}
use littlefs2_pure.FilePath.{FilePath, new_path, is_root}
use littlefs2_pure.FilePath.Render.{new_path_sound}
use littlefs2_pure.Compact.Plan.{gather_live_slots}
use littlefs2_pure.Chase.Forest.{hard_tail_of}
use littlefs2_pure.Resolve.{
  Run, returns, and_then, seek_round, visit_seek, seek_entry_in_chain, tail_or_not_found, dir_round,
  visit_dir, find_dir_pair, descend, path_names, decode_dir, land, tail_to_follow, follow_or_land,
  visit_leaf, find_leaf, resolve, visit_list, list_round, list_pair_chain, list_dir,
}
use littlefs2_pure.Resolve.Ring.{fetch_pair-IsRead}
use littlefs2_pure.Resolve.Ends.{Returns, GoesAlong, GoesAlong-bind, chase_from-Returns}

-- A reader that announces a hard tail has a tail.
pub new-hard_tail :
    (block : List ℕ) (r : MetadataReader)
    → Reader.new block ≡ ok r
    → r.is_hard_tail ≡ true
    → r.tail ≢ none
unfolding new scan_for_tail collapse_null
new-hard_tail block r h k t = ground arith

if_Returns :
    {A : Type 0} (b : Bool) (x y : Run A) → Returns x → Returns y → Returns (if b then x else y)
if_Returns true x y h k = h
if_Returns false x y h k = k

module _ (s : Storage) (small : s.block_count < 2 ^ 31) where
  seek_round-GoesAlong :
      (current : BlockPair) (pair : MetadataPair) (next : Option BlockPair) (count : ℕ)
      (hit : Option Resolved)
      → hard_tail_of pair ≡ next
      → GoesAlong pair (ok (seek_round current next count hit))
  unfolding seek_round
  seek_round-GoesAlong current pair next count (some r) e = tt
  seek_round-GoesAlong current pair (some t) count none e = e
  seek_round-GoesAlong current pair none count none e = tt

  -- The search for a name in the pairs of a directory returns, whatever the device holds.
  seek_entry_in_chain-Returns :
      (first : BlockPair) (name : List ℕ) → Returns (seek_entry_in_chain s first name)
  unfolding seek_entry_in_chain visit_seek
  seek_entry_in_chain-Returns first name =
      chase_from-Returns s (visit_seek name)
        (λ p pair st f. GoesAlong-bind pair (lookup_checked pair name) _ (λ hit h.
          GoesAlong-bind pair (gather_live_slots pair.reader) _
            (λ roster g. seek_round-GoesAlong p pair (hard_tail_of pair) roster.count hit refl)))
        first small tt

  dir_round-GoesAlong :
      (pair : MetadataPair) (next : Option BlockPair) (hit : Option Resolved)
      → hard_tail_of pair ≡ next
      → GoesAlong pair (dir_round next hit)
  unfolding dir_round tail_or_not_found
  dir_round-GoesAlong pair next (some r) e =
      GoesAlong-bind pair (decode_dir r.entry r.struct_type r.struct_body) _ (λ p d. tt)
  dir_round-GoesAlong pair (some t) none e = e
  dir_round-GoesAlong pair none none e = tt

  find_dir_pair-Returns : (first : BlockPair) (name : List ℕ) → Returns (find_dir_pair s first name)
  unfolding find_dir_pair visit_dir
  find_dir_pair-Returns first name =
      chase_from-Returns s (visit_dir name)
        (λ p pair st f.
          GoesAlong-bind pair (lookup_checked pair name) _
            (λ hit h. dir_round-GoesAlong pair (hard_tail_of pair) hit refl))
        first small tt

  -- Where the first lookup found the name, the second one does; where it did not, the tail of a
  -- hard tail is there.
  leaf-GoesAlong :
      (name : List ℕ) (pair : MetadataPair)
      → (pair.reader.is_hard_tail ≡ true → pair.reader.tail ≢ none)
      → (hit : Option Resolved) → lookup_checked pair name ≡ ok hit
      → GoesAlong pair (tail_to_follow pair hit >>= follow_or_land name pair)
  unfolding tail_to_follow follow_or_land land hard_tail_of
  leaf-GoesAlong name pair tailed (some r) h = rw h tt
  leaf-GoesAlong name pair tailed none h = elim (Bool-cases pair.reader.is_hard_tail) [
    | inr soft ↦ rw soft tt
    | inl hard ↦ elim (Option-cases pair.reader.tail) [
      | inl gone ↦ absurd (tailed hard gone)
      | inr (t, e) ↦ rw (hard, e) refl
    ]
  ]

  find_leaf-Returns : (first : BlockPair) (name : List ℕ) → Returns (find_leaf s first name)
  unfolding find_leaf visit_leaf
  find_leaf-Returns first name =
      chase_from-Returns s (visit_leaf name)
        (λ p pair st f. GoesAlong-bind pair (lookup_checked pair name) _ (λ hit h.
          let r = fetch_pair-IsRead s p pair f in
          leaf-GoesAlong name pair (new-hard_tail r.block pair.reader r.read) hit h))
        first small tt

  list_round-GoesAlong :
      {S : Type 0} (f : DirEntry → S → S) (pair : MetadataPair) (next : Option BlockPair)
      (st : S × ℕ)
      → hard_tail_of pair ≡ next
      → GoesAlong pair (ok (list_round f next st))
  unfolding list_round
  list_round-GoesAlong f pair none st e = tt
  list_round-GoesAlong f pair (some t) st e = e

  list_pair_chain-Returns :
      {S : Type 0} (f : DirEntry → S → S) (start : BlockPair) (st : S)
      → Returns (list_pair_chain f s start st)
  unfolding list_pair_chain visit_list
  list_pair_chain-Returns {S} f start st =
      chase_from-Returns s (visit_list f)
        (λ p pair st' g.
          GoesAlong-bind pair (live_entries pair (λ e t. ok (f e t.0, t.1 + 1)) st')
            (λ q. ok (list_round f (hard_tail_of pair) q.1))
            (λ q l. list_round-GoesAlong f pair (hard_tail_of pair) q.1 refl))
        start small (st, 0)

  and_then-Returns :
      {A B : Type 0} (m : Run A) (k : A → Run B)
      → Returns m
      → ((a : A) → Returns (k a))
      → Returns (and_then m k)
  and_then-Returns m k (err e, h) after = (err e, rw h refl)
  and_then-Returns m k (ok a, h) after = let (v, g) = after a in (v, rw h g)

  descend-Returns :
      (current : BlockPair) (names : List (List ℕ)) → Returns (descend s current names)
  unfolding descend
  descend-Returns current [] = (err invalid_path, refl)
  descend-Returns current (name ∷ []) = (ok (current, name), refl)
  descend-Returns current (name ∷ name' ∷ rest) =
      and_then-Returns (find_dir_pair s current name) (λ next. descend s next (name' ∷ rest))
        (find_dir_pair-Returns current name) (λ next. descend-Returns next (name' ∷ rest))

  module _ (str : List ℕ) (path : FilePath) (valid : new_path str ≡ ok path) where
    path_names-Returns : Returns (path_names path)
    unfolding path_names
    path_names-Returns =
        let (absolute, cs, made, shown) = new_path_sound str path valid in
        (ok cs, rw (shown.names, path_names) refl)

    -- On a device of fewer than 2 ^ 31 blocks, whatever they hold, `resolve` of a valid path
    -- returns: its loops end, and its `expect` does not fail.
    pub resolve-Returns :
        (root : BlockPair) (len_a len_b : ℕ) → Returns (resolve s root path len_a len_b)
    unfolding resolve
    resolve-Returns root len_a len_b =
        if_Returns (not (len_a == s.block_size) || not (len_b == s.block_size)) _ _
          (err geometry_mismatch, refl)
          (if_Returns (is_root path) _ _ (err invalid_path, refl)
            (and_then-Returns (path_names path) _ path_names-Returns (λ names.
              and_then-Returns (descend s root names) _ (descend-Returns root names)
                (λ p. find_leaf-Returns p.0 p.1))))

    -- So does the listing of a directory, with any callback.
    list_dir-Returns :
        {S : Type 0} (f : DirEntry → S → S) (root : BlockPair) (len_a len_b : ℕ) (st : S)
        → Returns (list_dir f s root path len_a len_b st)
    unfolding list_dir
    list_dir-Returns f root len_a len_b st =
        if_Returns (not (len_a == s.block_size) || not (len_b == s.block_size)) _ _
          (err geometry_mismatch, refl)
          (if_Returns (is_root path) _ _ (list_pair_chain-Returns f root st) (
            and_then-Returns (resolve s root path len_a len_b) _ (resolve-Returns root len_a len_b)
              (λ r.
                and_then-Returns (returns (decode_dir r.entry r.struct_type r.struct_body)) _
                  (decode_dir r.entry r.struct_type r.struct_body, refl)
                  (λ p. list_pair_chain-Returns f p st))))
