-- ===== src/FilePath.antt =====
-- src/path.rs: the validated path and the iterator over its components. A string is the list of its
-- bytes; that they are UTF-8 is the type `str`'s promise, and nothing here depends on it. The
-- `split`, `find` and `trim` of strings are those of the language's library, at the byte `/`.
pub mod Strings
pub mod Split
pub mod Valid
pub mod Render
pub mod Ancestor
use littlefs2_pure.Prelude.{
  ℕ, zero, suc, ◌+◌, Bool, true, false, ◌||◌, Option, none, some, List, [], ◌∷◌, ltb, length, take,
  drop, if◌then◌else◌, Result, ok, err, ◌>>◌, invalid_path,
}
use littlefs2_pure.FilePath.Strings.{
  slash, dot, eq_str, is_empty_str, starts_with_slash, strip_slash, ends_with_slash, split_slash,
  find_slash, trim_start_slashes, trim_end_slashes,
}

abbrev pub max_path : ℕ
max_path = 4096

-- src/lib.rs
abbrev pub name_max : ℕ
name_max = 255

pub record FilePath : Type 0 where
  pub inner : List ℕ

-- One round of the loop over the components.
unfoldable pub is_bad_component : List ℕ → Bool
unfolding is_empty_str eq_str
is_bad_component c =
    is_empty_str c || ltb name_max (length c) || eq_str c (dot ∷ []) || eq_str c (dot ∷ dot ∷ [])

unfoldable pub check_components : List (List ℕ) → Result (Unit {0})
unfolding is_bad_component
check_components [] = ok tt
check_components (c ∷ cs) =
    let rest = check_components cs in if is_bad_component c then err invalid_path else rest

unfoldable pub validate : List ℕ → Result (Unit {0})
unfolding is_empty_str eq_str strip_slash ends_with_slash split_slash check_components
validate s =
    if is_empty_str s || ltb max_path (length s)
    then err invalid_path
    else if eq_str s (slash ∷ [])
    then ok tt
    else if ends_with_slash (strip_slash s)
    then err invalid_path
    else check_components (split_slash (strip_slash s))

-- `Path::new`
unfoldable pub new_path : List ℕ → Result FilePath
unfolding validate
new_path s = validate s >> ok (record { inner = s })

unfoldable pub is_absolute : FilePath → Bool
unfolding starts_with_slash
is_absolute p = starts_with_slash p.inner

unfoldable pub is_root : FilePath → Bool
unfolding eq_str
is_root p = eq_str p.inner (slash ∷ [])

pub record Components : Type 0 where
  pub remaining : List ℕ

unfoldable pub components : FilePath → Components
unfolding trim_start_slashes trim_end_slashes
components p = record { remaining = trim_end_slashes (trim_start_slashes p.inner) }

-- `Components::next`: the item, if there is one, and the iterator afterwards.
split_at_slash : Option ℕ → List ℕ → List ℕ × Components
split_at_slash (some idx) s = (take idx s, record { remaining = drop 1 (drop idx s) })
split_at_slash none s = (s, record { remaining = [] })

unfoldable pub next_component : Components → Option (List ℕ × Components)
unfolding is_empty_str find_slash split_at_slash
next_component c =
    if is_empty_str c.remaining
    then none
    else some (split_at_slash (find_slash c.remaining) c.remaining)

-- The items in order, until there is no next one. A component shortens what remains.
unfoldable pub collect : ℕ → Components → Option (List (List ℕ))
unfolding next_component
collect zero c = none
collect (suc fuel) c = elim (next_component c) [
  | none ↦ some []
  | some (item, c') ↦ elim (collect fuel c') [ none ↦ none | some items ↦ some (item ∷ items) ]
]
