-- ===== src/FilePath/Strings.antt =====
-- The operations on strings that src/path.rs uses, at the byte `/`.
use littlefs2_pure.Prelude.{
  ℕ, suc, Bool, true, false, ◌&&◌, Option, none, some, List, [], ◌∷◌, ◌==◌, if◌then◌else◌,
}

abbrev pub slash : ℕ
slash = 0x2F

abbrev pub dot : ℕ
dot = 0x2E

unfoldable pub eq_str : List ℕ → List ℕ → Bool
eq_str [] [] = true
eq_str [] (y ∷ ys) = false
eq_str (x ∷ xs) [] = false
eq_str (x ∷ xs) (y ∷ ys) = x == y && eq_str xs ys

unfoldable pub is_empty_str : List ℕ → Bool
is_empty_str [] = true
is_empty_str (c ∷ cs) = false

unfoldable pub starts_with_slash : List ℕ → Bool
starts_with_slash [] = false
starts_with_slash (c ∷ cs) = c == slash

-- `strip_prefix('/').unwrap_or(s)`
unfoldable pub strip_slash : List ℕ → List ℕ
strip_slash [] = []
strip_slash (c ∷ cs) = if c == slash then cs else c ∷ cs

unfoldable pub ends_with_slash : List ℕ → Bool
ends_with_slash [] = false
ends_with_slash (c ∷ []) = c == slash
ends_with_slash (c ∷ d ∷ cs) = ends_with_slash (d ∷ cs)

abbrev pub push_head : ℕ → List (List ℕ) → List (List ℕ)
push_head c [] = (c ∷ []) ∷ []
push_head c (p ∷ ps) = (c ∷ p) ∷ ps

-- `split('/')`: one piece more than there are slashes.
unfoldable pub split_slash : List ℕ → List (List ℕ)
split_slash [] = [] ∷ []
split_slash (c ∷ cs) =
    let rest = split_slash cs in if c == slash then [] ∷ rest else push_head c rest

unfoldable pub find_slash : List ℕ → Option ℕ
find_slash [] = none
find_slash (c ∷ cs) =
    let rest = find_slash cs in
    if c == slash then some 0 else elim rest [ none ↦ none | some i ↦ some (suc i) ]

unfoldable pub trim_start_slashes : List ℕ → List ℕ
trim_start_slashes [] = []
trim_start_slashes (c ∷ cs) =
    let rest = trim_start_slashes cs in if c == slash then rest else c ∷ cs

unfoldable pub trim_end_slashes : List ℕ → List ℕ
unfolding is_empty_str
trim_end_slashes [] = []
trim_end_slashes (c ∷ cs) =
    let rest = trim_end_slashes cs in if is_empty_str rest && c == slash then [] else c ∷ rest
