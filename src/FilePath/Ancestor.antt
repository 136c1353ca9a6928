-- ===== src/FilePath/Ancestor.antt =====
-- src/fs.rs, `path_is_strict_ancestor`, which guards a rename of a directory into itself: two
-- iterators in step, and the strict prefixes of a sequence of names.
use littlefs2_pure.Prelude.{
  ℕ, zero, suc, ◌≡◌, ◌↔◌, ◌⊎◌, refl, sym, subst, inl, inr, Bool, true, false, Bool-cases, Option,
  none, some, Option-cases, List, [], ◌∷◌, ◌++◌, length, if◌then◌else◌, arith,
}
use littlefs2_pure.FilePath.{FilePath, Components, next_component, components, collect}
use littlefs2_pure.FilePath.Strings.{eq_str}
use littlefs2_pure.FilePath.Valid.{eq_str→eq, eq_str_refl}
use littlefs2_pure.FilePath.Render.{all_components}

-- One round: both iterators have been asked for the next component.
abbrev pub match_names :
    (Components → Components → Option Bool)
    → Option (List ℕ × Components)
    → Option (List ℕ × Components)
    → Option Bool
match_names again (some (ac, a)) (some (dc, d)) =
    let rest = again a d in if eq_str ac dc then rest else some false
match_names again none (some d) = some true
match_names again none none = some false
match_names again (some a) none = some false

unfoldable pub in_step : ℕ → Components → Components → Option Bool
unfolding eq_str next_component
in_step zero a d = none
in_step (suc fuel) a d = match_names (in_step fuel) (next_component a) (next_component d)

-- `path_is_strict_ancestor`; the fuel counts the components of the first path, and one more.
unfoldable pub path_is_strict_ancestor : FilePath → FilePath → Option Bool
unfolding in_step components
path_is_strict_ancestor ancestor descendant =
    in_step (suc (length (components ancestor).remaining)) (components ancestor)
      (components descendant)

-- The second sequence is the first with at least one more name.
abbrev pub IsStrictPrefix : List (List ℕ) → List (List ℕ) → Type 0
IsStrictPrefix cs ds = (x : List ℕ) × (rest : List (List ℕ)) × (ds ≡ cs ++ x ∷ rest)

strict_prefix : List (List ℕ) → List (List ℕ) → Bool
strict_prefix [] [] = false
strict_prefix [] (d ∷ ds) = true
strict_prefix (c ∷ cs) [] = false
strict_prefix (c ∷ cs) (d ∷ ds) =
    let rest = strict_prefix cs ds in if eq_str c d then rest else false

strict_prefix→ : (cs ds : List (List ℕ)) → strict_prefix cs ds ≡ true → IsStrictPrefix cs ds
unfolding strict_prefix
strict_prefix→ [] [] h = cc
strict_prefix→ [] (d ∷ ds) h = (d, ds, refl)
strict_prefix→ (c ∷ cs) [] h = cc
strict_prefix→ (c ∷ cs) (d ∷ ds) h = elim (Bool-cases (eq_str c d)) [
  | inl e ↦
      let (x, rest, same) = strict_prefix→ cs ds (rw (e, strict_prefix) at h) in
      (x, rest, λ i. sym (eq_str→eq c d e) i ∷ same i)
  | inr e ↦ let no_prefix : false ≡ true = rw (e, strict_prefix) at h in cc
]

strict_prefix-append :
    (cs : List (List ℕ)) (x : List ℕ) (rest : List (List ℕ))
    → strict_prefix cs (cs ++ x ∷ rest) ≡ true
unfolding strict_prefix
strict_prefix-append [] x rest = refl
strict_prefix-append (c ∷ cs) x rest =
    rw (eq_str_refl c, strict_prefix-append cs x rest, strict_prefix) refl

-- What `collect` says of the next component.
collect_next :
    (fuel : ℕ) (c : Components) (items : List (List ℕ))
    → collect (suc fuel) c ≡ some items
    → (next_component c ≡ none) × (items ≡ [])
      ⊎ ((x : List ℕ) × (c' : Components) × (xs : List (List ℕ)) × (next_component c ≡ some (x, c'))
          × (collect fuel c' ≡ some xs)
          × (items ≡ x ∷ xs))
unfolding collect
collect_next fuel c items e = elim (Option-cases (next_component c)) [
  | inl stop ↦ inl (stop, let done : some [] ≡ some items = rw (stop, collect) at e in cc)
  | inr ((x, c'), go) ↦ elim (Option-cases (collect fuel c')) [
    | inl out ↦ let failed : none ≡ some items = rw (go, out, collect) at e in absurd (cc)
    | inr (xs, more) ↦ inr (
      x,
      c',
      xs,
      go,
      more,
      let done : some (x ∷ xs) ≡ some items = rw (go, more, collect) at e in cc,
    )
  ]
]

in_step_lem :
    (fuel fuel' : ℕ) (a d : Components) (cs ds : List (List ℕ))
    → collect fuel a ≡ some cs
    → collect fuel' d ≡ some ds
    → in_step fuel a d ≡ some (strict_prefix cs ds)
unfolding in_step strict_prefix
in_step_lem zero fuel' a d cs ds p q = let out : none ≡ some cs = unfold collect in p in absurd (cc)
in_step_lem (suc fuel) zero a d cs ds p q =
    let out : none ≡ some ds = unfold collect in q in absurd (cc)
in_step_lem (suc fuel) (suc fuel') a d cs ds p q = elim (collect_next fuel a cs p) [
  | inl (stop, is_nil) ↦ elim (collect_next fuel' d ds q) [
    | inl (stop', is_nil') ↦ rw (stop, stop', is_nil, is_nil', in_step, strict_prefix) refl
    | inr (y, d', ys, go', more', is_cons') ↦
        rw (stop, go', is_nil, is_cons', in_step, strict_prefix) refl
  ]
  | inr (x, a', xs, go, more, is_cons) ↦ elim (collect_next fuel' d ds q) [
    | inl (stop', is_nil') ↦ rw (go, stop', is_cons, is_nil', in_step, strict_prefix) refl
    | inr (y, d', ys, go', more', is_cons') ↦
        rw
          (
            go,
            go',
            is_cons,
            is_cons',
            in_step_lem fuel fuel' a' d' xs ys more more',
            in_step,
            strict_prefix,
          )
          (ground arith)
  ]
]

-- Where the two paths show their names, the test answers, and it answers yes exactly when the names
-- of the second are those of the first and at least one more.
pub path_is_strict_ancestor_lem :
    (p q : FilePath) (cs ds : List (List ℕ))
    → all_components p ≡ some cs
    → all_components q ≡ some ds
    → (b : Bool) × (path_is_strict_ancestor p q ≡ some b) × ((b ≡ true) ↔ IsStrictPrefix cs ds)
unfolding path_is_strict_ancestor
path_is_strict_ancestor_lem p q cs ds h k = (
  strict_prefix cs ds,
  in_step_lem (suc (length (components p).remaining)) (suc (length (components q).remaining))
      (components p) (components q) cs ds h k,
  (
    strict_prefix→ cs ds,
    λ (x, rest, same).
        subst (λ t. strict_prefix cs t ≡ true) (sym same) (strict_prefix-append cs x rest),
  ),
)
