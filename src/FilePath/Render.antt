-- ===== src/FilePath/Render.antt =====
-- `Path::new` and `components` against the strings that sequences of names make.
use littlefs2_pure.Prelude.{
  ℕ, suc, ◌≤◌, ◌<◌, ◌≡◌, refl, sym, ap, subst, ◌∙◌, inl, inr, Bool, true, false, ◌||◌, Bool-cases,
  Option, some, List, [], ◌∷◌, ◌==◌, ltb, ltb-false, All, length, arith, ok, err, invalid_path,
  Result-cases,
}
use littlefs2_pure.FilePath.{
  FilePath, check_components, validate, new_path, is_absolute, is_root, components, collect,
  max_path,
}
use littlefs2_pure.FilePath.Strings.{
  slash, eq_str, is_empty_str, starts_with_slash, strip_slash, ends_with_slash, split_slash,
  trim_start_slashes, trim_end_slashes,
}
use littlefs2_pure.FilePath.Split.{
  join, join-split_slash, split_slash-HasNoSlash, split_slash-join, collect-join,
}
use littlefs2_pure.FilePath.Valid.{
  IsName, render, check-IsName, check_sound, pieces, no_slashes, ends_with-join, trim_end_lem,
  eq_str→eq,
}

-- All the components, with fuel for the string that remains.
abbrev pub all_components : FilePath → Option (List (List ℕ))
all_components p = collect (suc (length (components p).remaining)) (components p)

abbrev no_names : List (List ℕ) → Bool
no_names [] = true
no_names (c ∷ cs) = false

-- The path of a rendering: what the observers say of it.
pub record Shows (absolute : Bool) (cs : List (List ℕ)) (p : FilePath) : Type 0 where
  pub inner : p.inner ≡ render absolute cs
  pub names : all_components p ≡ some cs
  pub is_abs : is_absolute p ≡ absolute
  pub root : is_root p ≡ no_names cs

module _ (c : List ℕ) (cs : List (List ℕ)) (n : IsName c) (ns : All IsName cs) where
  first_byte : (b : ℕ) × (r : List ℕ) × (join (c ∷ cs) ≡ b ∷ r) × ((b == slash) ≡ false)
  first_byte = by_first c n
    where
      by_first :
          (c : List ℕ)
          → IsName c
          → (b : ℕ) × (r : List ℕ) × (join (c ∷ cs) ≡ b ∷ r) × ((b == slash) ≡ false)
      by_first [] n = absurd (omega (arith, n.some_byte))
      by_first (b ∷ r) n = (b, join (r ∷ cs), refl, n.no_slash.0)

  not_root : (absolute : Bool) → eq_str (render absolute (c ∷ cs)) (slash ∷ []) ≡ false
  unfolding eq_str
  not_root true = let (b, r, same, other) = first_byte in rw (same, eq_str) refl
  not_root false = let (b, r, same, other) = first_byte in rw (same, other, eq_str) refl

  strip_lem : (absolute : Bool) → strip_slash (render absolute (c ∷ cs)) ≡ join (c ∷ cs)
  unfolding strip_slash
  strip_lem true = refl
  strip_lem false = let (b, r, same, other) = first_byte in rw (same, other, strip_slash) refl

  trim_lem :
      (absolute : Bool)
      → trim_end_slashes (trim_start_slashes (render absolute (c ∷ cs))) ≡ join (c ∷ cs)
  trim_lem absolute =
      ap trim_end_slashes (trim_start absolute)
      ∙ trim_end_lem (join (c ∷ cs)) (ends_with-join c cs (n.some_byte, n.no_slash) (pieces cs ns))
    where
      bare : trim_start_slashes (join (c ∷ cs)) ≡ join (c ∷ cs)
      bare =
          let (b, r, same, other) = first_byte in
          unfold trim_start_slashes in rw (same, other, trim_start_slashes) refl

      trim_start : (absolute : Bool) → trim_start_slashes (render absolute (c ∷ cs)) ≡ join (c ∷ cs)
      trim_start true = unfold trim_start_slashes in bare
      trim_start false = bare

  checks : check_components (split_slash (join (c ∷ cs))) ≡ ok tt
  checks =
      ap check_components (split_slash-join c cs n.no_slash (no_slashes cs ns))
      ∙ check-IsName (c ∷ cs) (n, ns)

  starts : (absolute : Bool) → starts_with_slash (render absolute (c ∷ cs)) ≡ absolute
  unfolding starts_with_slash
  starts true = refl
  starts false = let (b, r, same, other) = first_byte in rw (same, other, starts_with_slash) refl

  shows : (absolute : Bool) → Shows absolute (c ∷ cs) (record { inner = render absolute (c ∷ cs) })
  unfolding components is_absolute is_root
  shows absolute = record {
    inner = refl;
    names = rw (trim_lem absolute) (
        collect-join (suc (length (join (c ∷ cs)))) c cs (n.some_byte, n.no_slash) (pieces cs ns)
          (omega arith));
    is_abs = starts absolute;
    root = not_root absolute;
  }

  accepted :
      (absolute : Bool)
      → length (render absolute (c ∷ cs)) ≤ max_path
      → validate (render absolute (c ∷ cs)) ≡ ok tt
  unfolding validate
  accepted absolute h =
      rw
        (
          not_empty absolute,
          ltb-false max_path (length (render absolute (c ∷ cs))) h,
          not_root absolute,
          strip_lem absolute,
          ends_with-join c cs (n.some_byte, n.no_slash) (pieces cs ns),
          checks,
          validate,
        )
        refl
    where
      not_empty : (absolute : Bool) → is_empty_str (render absolute (c ∷ cs)) ≡ false
      not_empty true = unfold is_empty_str in refl
      not_empty false =
          let (b, r, same, other) = first_byte in
          unfold is_empty_str in rw (same, is_empty_str) refl

root-Shows : Shows true [] (record { inner = slash ∷ [] })
unfolding components is_absolute is_root collect trim_start_slashes trim_end_slashes
    starts_with_slash eq_str is_empty_str
root-Shows = record { inner = refl; names = refl; is_abs = refl; root = refl }

-- A sequence of names whose string has at least one byte and at most 4096 makes a path, and the path
-- shows the names, whether it is absolute, and whether it is the root.
pub new_path-render :
    (absolute : Bool) (cs : List (List ℕ))
    → All IsName cs
    → 0 < length (render absolute cs)
    → length (render absolute cs) ≤ max_path
    → (p : FilePath) × (new_path (render absolute cs) ≡ ok p) × Shows absolute cs p
unfolding new_path
new_path-render true [] ns some_byte h =
    (record { inner = slash ∷ [] }, unfold validate is_empty_str eq_str in refl, root-Shows)
new_path-render false [] ns some_byte h = absurd (omega arith)
new_path-render absolute (c ∷ cs) ns some_byte h = (
  record { inner = render absolute (c ∷ cs) },
  rw (accepted c cs ns.0 ns.1 absolute h, new_path) refl,
  shows c cs ns.0 ns.1 absolute,
)

strip_back : (s : List ℕ) → (absolute : Bool) × (s ≡ render absolute (split_slash (strip_slash s)))
unfolding strip_slash
strip_back [] = (false, sym (join-split_slash []))
strip_back (b ∷ s) = elim (Bool-cases (b == slash)) [
  | inl e ↦
      let at : b ≡ slash = ground arith in
      (true, rw (e, strip_slash) (λ i. at i ∷ sym (join-split_slash s) i))
  | inr e ↦ (false, rw (e, strip_slash) (sym (join-split_slash (b ∷ s))))
]

-- What a path is made from: names, and one slash in front where it is absolute.
pub record IsPath (s : List ℕ) (absolute : Bool) (cs : List (List ℕ)) : Type 0 where
  pub names : All IsName cs
  pub whole : s ≡ render absolute cs
  pub some_byte : 0 < length s
  pub short : length s ≤ max_path

some_length : (s : List ℕ) → (is_empty_str s || ltb max_path (length s)) ≡ false → 0 < length s
unfolding is_empty_str
some_length [] h = cc
some_length (b ∷ s) h = omega arith

validate_sound :
    (s : List ℕ)
    → validate s ≡ ok tt
    → (absolute : Bool) × (cs : List (List ℕ)) × IsPath s absolute cs
unfolding validate
validate_sound s e = elim (Bool-cases (is_empty_str s || ltb max_path (length s))) [
  | inl bad ↦ let failed : err invalid_path ≡ ok tt = rw (bad, validate) at e in absurd (cc)
  | inr sized ↦ elim (Bool-cases (eq_str s (slash ∷ []))) [
    | inl is_slash ↦
        let same = eq_str→eq s (slash ∷ []) is_slash in
        (
          true,
          [],
          record {
            names = tt;
            whole = same;
            some_byte = rw same (omega arith);
            short = rw same (omega arith);
          },
        )
    | inr other ↦ elim (Bool-cases (ends_with_slash (strip_slash s))) [
      | inl ends ↦
          let failed : err invalid_path ≡ ok tt = rw (sized, other, ends, validate) at e in
          absurd (cc)
      | inr open_end ↦
          let (absolute, whole) = strip_back s in
          (
            absolute,
            split_slash (strip_slash s),
            record {
              names =
                  check_sound (split_slash (strip_slash s)) (split_slash-HasNoSlash (strip_slash s))
                    (rw (sized, other, open_end, validate) at e);
              whole = whole;
              some_byte = some_length s sized;
              short = ground arith;
            },
          )
    ]
  ]
]

-- A path that is accepted keeps the string, and the string is made from names, which the path shows.
pub new_path_sound :
    (s : List ℕ) (p : FilePath)
    → new_path s ≡ ok p
    → (absolute : Bool) × (cs : List (List ℕ)) × IsPath s absolute cs × Shows absolute cs p
unfolding new_path
new_path_sound s p e = elim (Result-cases (validate s)) [
  | inr (x, v) ↦ let failed : err x ≡ ok p = rw (v, new_path) at e in absurd (cc)
  | inl (u, v) ↦
      let (absolute, cs, made) = validate_sound s v in
      let (p', again, shown) =
        new_path-render absolute cs made.names (subst (λ t. 0 < length t) made.whole made.some_byte)
          (subst (λ t. length t ≤ max_path) made.whole made.short) in
      let same : ok p ≡ ok p' = sym e ∙ ap new_path made.whole ∙ again in
      (absolute, cs, made, subst (Shows absolute cs) (cc) shown)
]
