-- ===== src/Dir/Attrs.antt =====
-- The attribute walks of src/dir.rs, `attr_get` and `for_each_live_attr`. They read the log from its
-- newest tag back and carry `gdiff`, the splices that they have passed; a log has too few tags for
-- an i32 to overflow.
pub mod Replay
pub mod Each
mod Seen
use littlefs2_pure.Prelude.{
  ℕ, ◌/◌, ◌%◌, bit_or, Bool, true, false, ◌&&◌, Option, none, some, List, [], ◌∷◌, ◌==◌,
  if◌then◌else◌, get_or, set, replicate, Result, ok, err, ◌>>=◌,
}
use littlefs2_pure.Prelude.Bits.Digits.{has_bit}
use littlefs2_pure.Prelude.Words.{◌<<<◌}
use littlefs2_pure.Prelude.Int.{ℤ, pos, ◌+ℤ◌, ◌-ℤ◌, leb_ℤ, eq_ℤ}
use littlefs2_pure.Tag
use littlefs2_pure.Tag.Kind.{TagType, create, delete, user_attr}
use littlefs2_pure.Meta.Reader.{MetadataReader}
use littlefs2_pure.Meta.Iter.{TagEntry, iter_tags_rev}

-- What one tag does to the walk: it returns, or goes on to the older tags with a new `gdiff`.
pub data AttrStep : Type 0 where
  found : Option (List ℕ) → AttrStep
  older : ℤ → AttrStep

-- `if tag.is_special_length() { None } else { Some(entry.body) }`
unfoldable pub attr_value : TagEntry → Option (List ℕ)
attr_value e = if Tag.is_special_length e.tag then none else some e.body

unfoldable pub attr_arm : ℕ → TagType → ℤ → ℤ → ℤ → TagEntry → AttrStep
unfolding leb_ℤ eq_ℤ ◌+ℤ◌ ◌-ℤ◌ attr_value
attr_arm attr create id adj gdiff e =
    if leb_ℤ id adj
    then (if eq_ℤ id adj then found none else older (gdiff +ℤ pos 1))
    else older gdiff
attr_arm attr delete id adj gdiff e = if leb_ℤ id adj then older (gdiff -ℤ pos 1) else older gdiff
attr_arm attr (user_attr a) id adj gdiff e =
    if (a == attr) && eq_ℤ id adj then found (attr_value e) else older gdiff
attr_arm attr t id adj gdiff e = older gdiff

-- The loop over the tags, newest first.
unfoldable pub attr_walk : ℕ → ℕ → List TagEntry → ℤ → Option (List ℕ)
unfolding attr_arm
attr_walk live attr [] gdiff = none
attr_walk live attr (e ∷ tags) gdiff =
    elim (attr_arm attr (Tag.tag_type e.tag) (pos (Tag.id e.tag)) (pos live -ℤ gdiff) gdiff e) [
      | found value ↦ value
      | older gdiff' ↦ attr_walk live attr tags gdiff'
    ]

unfoldable pub attr_get : MetadataReader → ℕ → ℕ → Option (List ℕ)
unfolding attr_walk
attr_get r live attr = attr_walk live attr (iter_tags_rev r) (pos 0)

-- `seen[word] & bit == 0`, negated, and `seen[word] |= bit`.
unfoldable pub is_seen : List ℕ → ℕ → Bool
unfolding has_bit
is_seen seen a = has_bit (get_or seen (a / 32) 0) (a % 32)

unfoldable pub see : List ℕ → ℕ → List ℕ
see seen a = set seen (a / 32) (bit_or (get_or seen (a / 32) 0) (1 <<< (a % 32)))

-- What one tag does to the walk over all attributes: it breaks, goes on, or considers an attribute.
pub data EachStep : Type 0 where
  stop : EachStep
  past : ℤ → EachStep
  consider : ℕ → EachStep

unfoldable pub each_arm : TagType → ℤ → ℤ → ℤ → EachStep
unfolding leb_ℤ eq_ℤ ◌+ℤ◌ ◌-ℤ◌
each_arm create id adj gdiff =
    if leb_ℤ id adj then (if eq_ℤ id adj then stop else past (gdiff +ℤ pos 1)) else past gdiff
each_arm delete id adj gdiff = if leb_ℤ id adj then past (gdiff -ℤ pos 1) else past gdiff
each_arm (user_attr a) id adj gdiff = if eq_ℤ id adj then consider a else past gdiff
each_arm t id adj gdiff = past gdiff

module _ {σ : Type 0} (f : ℕ → List ℕ → σ → Result σ) where
  -- `if !tag.is_special_length() { f(a, entry.body)? }`
  unfoldable pub visit_attr : ℕ → TagEntry → σ → Result σ
  visit_attr a e st = if Tag.is_special_length e.tag then ok st else f a e.body st

  -- The loop over the tags, newest first; `f` is a callback on a state.
  unfoldable pub each_walk : ℕ → List TagEntry → List ℕ → ℤ → σ → Result σ
  unfolding each_arm is_seen see visit_attr
  each_walk live [] seen gdiff st = ok st
  each_walk live (e ∷ tags) seen gdiff st =
      elim (each_arm (Tag.tag_type e.tag) (pos (Tag.id e.tag)) (pos live -ℤ gdiff) gdiff) [
        | stop ↦ ok st
        | past gdiff' ↦ each_walk live tags seen gdiff' st
        | consider a ↦ elim (is_seen seen a) [
          | true ↦ each_walk live tags seen gdiff st
          | false ↦ visit_attr a e st >>= each_walk live tags (see seen a) gdiff
        ]
      ]

  unfoldable pub for_each_live_attr : MetadataReader → ℕ → σ → Result σ
  unfolding each_walk
  for_each_live_attr r live st = each_walk live (iter_tags_rev r) (replicate 8 0) (pos 0) st
