-- ===== src/Resolve/Agree.antt =====
-- `resolve` walks the directory of a leaf by itself; it comes to what `resolve_parent` and
-- `seek_entry_in_chain` come to.
use littlefs2_pure.Prelude.{
  ℕ, zero, suc, ◌≡◌, refl, sym, subst, ap, ◌∙◌, inl, inr, not, ◌||◌, Bool-cases, Option, none, some,
  List, ◌==◌, ok, err, Result-cases, not_found, geometry_mismatch, invalid_path,
}
use littlefs2_pure.Block.{BlockPair}
use littlefs2_pure.Storage.{Storage}
use littlefs2_pure.Meta.Pair.{MetadataPair}
use littlefs2_pure.Dir.{Resolved, Roster, lookup_checked}
use littlefs2_pure.FilePath.{FilePath, is_root}
use littlefs2_pure.Compact.Plan.{SlotOffsets}
use littlefs2_pure.Chase.{BrentTailWalk, start_at, advance}
use littlefs2_pure.Chase.Forest.{fetch_pair, hard_tail_of}
use littlefs2_pure.Resolve.{
  Run, stuck, panics, returns, and_then, done, onward, chase, chase_from, chain_fuel, ChainSeek,
  found, absent, seek_round, visit_seek, seek_entry_in_chain, descend, path_names, resolve_parent,
  ResolvedPath, land, tail_to_follow, follow_or_land, visit_leaf, find_leaf, resolve,
}
use littlefs2_pure.Resolve.Ring.{fetch_pair-IsRead}
use littlefs2_pure.Resolve.Total.{new-hard_tail}
use littlefs2_pure.Resolve.Search.{visited}

-- What the verdict of the search makes of the resolution.
abbrev pub Agrees : ChainSeek → Run ResolvedPath → Type 0
Agrees (found q id kind) run =
    (r : ResolvedPath) × (run ≡ returns (ok r)) × (r.entry.id ≡ id) × (r.entry.kind ≡ kind)
Agrees (absent q count) run = run ≡ returns (err not_found)

landing :
    (name : List ℕ) (p : BlockPair) (pair : MetadataPair) (r : Resolved)
    → lookup_checked pair name ≡ ok (some r)
    → (out : ResolvedPath) × (visit_leaf name p pair tt ≡ ok (done out)) × (out.entry ≡ r.entry)
unfolding visit_leaf tail_to_follow follow_or_land land
landing name p pair r l = (
  record {
    pair = record { a = pair.active_block; b = pair.alternate_block };
    entry = r.entry;
    struct_type = r.struct_type;
    struct_body = r.struct_body;
  },
  rw (l, l) refl,
  refl,
)

passing :
    (name : List ℕ) (p : BlockPair) (pair : MetadataPair) (t : BlockPair)
    → lookup_checked pair name ≡ ok none
    → hard_tail_of pair ≡ some t
    → visit_leaf name p pair tt ≡ ok (onward tt t)
unfolding visit_leaf tail_to_follow follow_or_land hard_tail_of
passing name p pair t l h = elim (Bool-cases pair.reader.is_hard_tail) [
  | inr soft ↦ let failed : none ≡ some t = rw soft at h in absurd (cc)
  | inl hard ↦ let tail : pair.reader.tail ≡ some t = rw hard at h in rw (l, hard, tail) refl
]

missing :
    (s : Storage) (name : List ℕ) (p : BlockPair) (pair : MetadataPair)
    → fetch_pair s p ≡ ok pair
    → lookup_checked pair name ≡ ok none
    → hard_tail_of pair ≡ none
    → visit_leaf name p pair tt ≡ err not_found
unfolding visit_leaf tail_to_follow follow_or_land hard_tail_of
missing s name p pair f l h = elim (Bool-cases pair.reader.is_hard_tail) [
  | inr soft ↦ rw (l, soft) refl
  | inl hard ↦
      let r = fetch_pair-IsRead s p pair f in
      absurd (new-hard_tail r.block pair.reader r.read hard (rw hard at h))
]

module _ (s : Storage) (name : List ℕ) where
  agree_chase :
      (fuel : ℕ) (p : BlockPair) (walk : BrentTailWalk) (v : ChainSeek)
      → chase s (visit_seek name) fuel p walk tt ≡ returns (ok v)
      → Agrees v (chase s (visit_leaf name) fuel p walk tt)
  unfolding chase seek_round
  agree_chase zero p walk v h = cc
  agree_chase (suc fuel) p walk v h = elim (Result-cases (fetch_pair s p)) [
    | inr (e, f) ↦ let failed : returns (err e) ≡ returns (ok v) = rw (f, chase) at h in absurd (cc)
    | inl (pair, f) ↦ elim (Result-cases (visit_seek name p pair tt)) [
      | inr (e, k) ↦
          let failed : returns (err e) ≡ returns (ok v) = rw (f, k, chase) at h in absurd (cc)
      | inl (r, k) ↦
          let (hit, roster, l, g, e) = visited name p pair r k in
          by_hit pair f roster hit l (hard_tail_of pair) refl (k ∙ ap ok (sym e)) (agree_chase fuel)
    ]
  ]
    where
      by_hit :
          (pair : MetadataPair)
          → fetch_pair s p ≡ ok pair
          → (roster : Roster SlotOffsets) → (hit : Option Resolved)
          → lookup_checked pair name ≡ ok hit
          → (tail : Option BlockPair) → hard_tail_of pair ≡ tail
          → visit_seek name p pair tt ≡ ok (seek_round p tail roster.count hit)
          → ((t : BlockPair) (w : BrentTailWalk) (v' : ChainSeek)
              → chase s (visit_seek name) fuel t w tt ≡ returns (ok v')
              → Agrees v' (chase s (visit_leaf name) fuel t w tt))
          → Agrees v (chase s (visit_leaf name) (suc fuel) p walk tt)
      by_hit pair f roster (some r) l tail ht k ih =
          let same : returns (ok (found p r.entry.id r.entry.kind)) ≡ returns (ok v) =
            rw (f, k, chase) at h in
          let verdict : found p r.entry.id r.entry.kind ≡ v = cc in
          let (out, lands, entry) = landing name p pair r l in
          subst (λ w. Agrees w (chase s (visit_leaf name) (suc fuel) p walk tt)) verdict
            (out, rw (f, lands, chase) refl, ap (λ e. e.id) entry, ap (λ e. e.kind) entry)
      by_hit pair f roster none l none ht k ih =
          let same : returns (ok (absent p roster.count)) ≡ returns (ok v) =
            rw (f, k, chase) at h in
          let verdict : absent p roster.count ≡ v = cc in
          let misses = missing s name p pair f l ht in
          subst (λ w. Agrees w (chase s (visit_leaf name) (suc fuel) p walk tt)) verdict
            (rw (f, misses, chase) refl)
      by_hit pair f roster none l (some t) ht k ih = elim (Result-cases (advance t walk)) [
        | inr (e, a) ↦
            let failed : returns (err e) ≡ returns (ok v) = rw (f, k, a, chase) at h in absurd (cc)
        | inl (walk', a) ↦
            let passes = passing name p pair t l ht in
            let later : chase s (visit_seek name) fuel t walk' tt ≡ returns (ok v) =
              rw (f, k, a, chase) at h in
            rw (f, passes, a, chase) (ih t walk' v later)
      ]

and_then_ok :
    {A B : Type 0} {b : B} (m : Run A) (k : A → Run B)
    → and_then m k ≡ returns (ok b)
    → (a : A) × (m ≡ returns (ok a)) × (k a ≡ returns (ok b))
and_then_ok stuck k h = absurd (cc)
and_then_ok panics k h = absurd (cc)
and_then_ok (returns (err e)) k h = absurd (cc)
and_then_ok (returns (ok a)) k h = (a, refl, h)

-- Where `resolve_parent` names a directory and a leaf, and the search of the directory for the leaf
-- returns, `resolve` returns the entry that the search has found, by its id and its kind, and
-- fails as not found where it has found none.
pub resolve-seek :
    (s : Storage) (root : BlockPair) (path : FilePath) (len_a len_b : ℕ) (parent : BlockPair)
    (leaf : List ℕ) (v : ChainSeek)
    → resolve_parent s root path len_a len_b ≡ returns (ok (parent, leaf))
    → seek_entry_in_chain s parent leaf ≡ returns (ok v)
    → Agrees v (resolve s root path len_a len_b)
unfolding resolve resolve_parent seek_entry_in_chain find_leaf chase_from
resolve-seek s root path len_a len_b parent leaf v h k =
    elim (Bool-cases (not (len_a == s.block_size) || not (len_b == s.block_size))) [
      | inl bad ↦
          let failed : returns (err geometry_mismatch) ≡ returns (ok (parent, leaf)) =
            rw (bad, resolve_parent) at h in
          absurd (cc)
      | inr good ↦ elim (Bool-cases (is_root path)) [
        | inl top ↦
            let failed : returns (err invalid_path) ≡ returns (ok (parent, leaf)) =
              rw (good, top, resolve_parent) at h in
            absurd (cc)
        | inr below ↦
            let (names, n, d) =
              and_then_ok (path_names path) (descend s root)
                (rw (good, below, resolve_parent) at h) in
            rw (good, below, n, d, resolve)
              (agree_chase s leaf (chain_fuel s) parent (start_at parent) v k)
      ]
    ]
