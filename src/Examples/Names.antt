-- ===== src/Examples/Names.antt =====
-- Paths and the attributes of an entry.
use littlefs2_pure.Prelude.{
  ℕ, ◌+◌, ◌≤◌, ◌≡◌, ◌≢◌, ◌↔◌, refl, arith, Bool, true, false, Option, some, none, List, [], ◌∷◌,
  Result, ok, err, All,
}
use mathlib.Core.List.{reverse}
use littlefs2_pure.FilePath.{FilePath, new_path, components, collect}
use littlefs2_pure.FilePath.Valid.{IsName, render}
use littlefs2_pure.FilePath.Render
use littlefs2_pure.FilePath.Render.{Shows, IsPath, all_components}
use littlefs2_pure.FilePath.Ancestor
use littlefs2_pure.FilePath.Ancestor.{IsStrictPrefix, path_is_strict_ancestor}
use littlefs2_pure.Meta.Reader.{MetadataReader}
use littlefs2_pure.Meta.Iter.{iter_tags_rev}
use littlefs2_pure.Dir.Attrs.{attr_get, for_each_live_attr}
use littlefs2_pure.Dir.Attrs.Replay
use littlefs2_pure.Dir.Attrs.Replay.{replay_attr}
use littlefs2_pure.Dir.Attrs.Each
use littlefs2_pure.Dir.Attrs.Each.{gather, lookup_attr, Gathered}

-- The names "ab" and "c".
abbrev ab : List ℕ
ab = 0x61 ∷ 0x62 ∷ []

abbrev c_only : List ℕ
c_only = 0x63 ∷ []

ab-IsName : IsName ab
ab-IsName = record {
  some_byte = omega arith;
  short = omega arith;
  no_slash = (refl, (refl, tt));
  not_dot = λ e. ground arith;
  not_dots = λ e. ground arith;
}

c_only-IsName : IsName c_only
c_only-IsName = record {
  some_byte = omega arith;
  short = omega arith;
  no_slash = (refl, tt);
  not_dot = λ e. ground arith;
  not_dots = λ e. ground arith;
}

new_path-render_example :
    (p : FilePath) × (new_path (render true (ab ∷ c_only ∷ [])) ≡ ok p)
    × Shows true (ab ∷ c_only ∷ []) p
new_path-render_example =
    Render.new_path-render true (ab ∷ c_only ∷ []) (ab-IsName, (c_only-IsName, tt)) (omega arith)
      (omega arith)

-- "/ab/c" and "ab".
abbrev slash_ab_c : FilePath
slash_ab_c = record { inner = 0x2F ∷ 0x61 ∷ 0x62 ∷ 0x2F ∷ 0x63 ∷ [] }

abbrev bare_ab : FilePath
bare_ab = record { inner = ab }

slash_ab_c_new : new_path (0x2F ∷ 0x61 ∷ 0x62 ∷ 0x2F ∷ 0x63 ∷ []) ≡ ok slash_ab_c
unfolding new_path
slash_ab_c_new = refl

new_path_sound_example :
    (absolute : Bool) × (cs : List (List ℕ)) × IsPath
      (0x2F ∷ 0x61 ∷ 0x62 ∷ 0x2F ∷ 0x63 ∷ [])
      absolute
      cs
    × Shows absolute cs slash_ab_c
new_path_sound_example =
    Render.new_path_sound (0x2F ∷ 0x61 ∷ 0x62 ∷ 0x2F ∷ 0x63 ∷ []) slash_ab_c slash_ab_c_new

shows_ab_c : all_components slash_ab_c ≡ some (ab ∷ c_only ∷ [])
unfolding components collect
shows_ab_c = refl

shows_ab : all_components bare_ab ≡ some (ab ∷ [])
unfolding components collect
shows_ab = refl

path_is_strict_ancestor_lem_example :
    (b : Bool) × (path_is_strict_ancestor bare_ab slash_ab_c ≡ some b)
    × ((b ≡ true) ↔ IsStrictPrefix (ab ∷ []) (ab ∷ c_only ∷ []))
path_is_strict_ancestor_lem_example =
    Ancestor.path_is_strict_ancestor_lem bare_ab slash_ab_c (ab ∷ []) (ab ∷ c_only ∷ []) shows_ab
      shows_ab_c

-- A log whose one tag sets attribute 0x74 of the entry with id 1.
abbrev one_attr : MetadataReader
one_attr = record {
  block = 1 ∷ 0 ∷ 0 ∷ 0 ∷ 0xc8 ∷ 0xbf ∷ 0xfb ∷ 0xfb ∷ 1 ∷ 2 ∷ 3 ∷ 4 ∷ [];
  revision = 1;
  committed_end = 12;
  next_ptag = 0x3740_0404;
  tail = none;
  is_hard_tail = false;
  erased = false;
}

attr_value_read : attr_get one_attr 1 0x74 ≡ some (1 ∷ 2 ∷ 3 ∷ 4 ∷ [])
unfolding attr_get iter_tags_rev littlefs2_pure.Meta.Iter.collect_rev
    littlefs2_pure.Meta.Iter.next_rev littlefs2_pure.Tag.dsize littlefs2_pure.Tag.body_len
    littlefs2_pure.Tag.tag_type littlefs2_pure.Tag.Kind.from_bits littlefs2_pure.Tag.id
    littlefs2_pure.Prelude.Bytes.slice
attr_value_read = refl

attr_get-replay_attr_example :
    attr_get one_attr 1 0x74 ≡ replay_attr 0x74 (reverse (iter_tags_rev one_attr)) 1
attr_get-replay_attr_example = Replay.attr_get-replay_attr one_attr 1 0x74

for_each_live_attr-attr_get_example :
    (out : Gathered) × (for_each_live_attr gather one_attr 1 [] ≡ ok out)
    × ((a : ℕ) → lookup_attr a out ≡ attr_get one_attr 1 a)
for_each_live_attr-attr_get_example = Each.for_each_live_attr-attr_get one_attr 1
