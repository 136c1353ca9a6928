-- ===== src/FilePath/Split.antt =====
-- Splitting at the slashes and joining by slashes are inverse, and the iterator of src/path.rs gives
-- the pieces that were joined.
use littlefs2_pure.Prelude.{
  ℕ, zero, suc, ◌<◌, ◌≡◌, refl, sym, ap, ◌∙◌, inl, inr, false, Bool-cases, none, some, List, [],
  ◌∷◌, ◌++◌, ◌==◌, All, length, length-append, take-append, drop-append, arith,
}
use mathlib.Core.List.{append-nil}
use littlefs2_pure.FilePath.{next_component, collect}
use littlefs2_pure.FilePath.Strings.{slash, split_slash, find_slash}

abbrev pub HasNoSlash : List ℕ → Type 0
HasNoSlash c = All (λ b. (b == slash) ≡ false) c

-- Each piece behind a slash.
abbrev pub join_rest : List (List ℕ) → List ℕ
join_rest [] = []
join_rest (c ∷ cs) = slash ∷ (c ++ join_rest cs)

-- The pieces with a slash between neighbours.
abbrev pub join : List (List ℕ) → List ℕ
join [] = []
join (c ∷ cs) = c ++ join_rest cs

split_slash-cons : (s : List ℕ) → (p : List ℕ) × (ps : List (List ℕ)) × (split_slash s ≡ p ∷ ps)
unfolding split_slash
split_slash-cons [] = ([], [], refl)
split_slash-cons (c ∷ cs) = elim (Bool-cases (c == slash)) [
  | inl e ↦ ([], split_slash cs, rw (e, split_slash) refl)
  | inr e ↦ let (p, ps, same) = split_slash-cons cs in (c ∷ p, ps, rw (e, same, split_slash) refl)
]

pub join-split_slash : (s : List ℕ) → join (split_slash s) ≡ s
unfolding split_slash
join-split_slash [] = refl
join-split_slash (c ∷ cs) =
    let (p, ps, same) = split_slash-cons cs in
    let whole : p ++ join_rest ps ≡ cs = (λ i. join (sym same i)) ∙ join-split_slash cs in
    elim (Bool-cases (c == slash)) [
      | inl e ↦
          let at : c ≡ slash = ground arith in rw (e, same, split_slash) (λ i. sym at i ∷ whole i)
      | inr e ↦ rw (e, same, split_slash) (λ i. c ∷ whole i)
    ]

pub split_slash-HasNoSlash : (s : List ℕ) → All HasNoSlash (split_slash s)
unfolding split_slash
split_slash-HasNoSlash [] = (tt, tt)
split_slash-HasNoSlash (c ∷ cs) = elim (Bool-cases (c == slash)) [
  | inl e ↦ rw (e, split_slash) (tt, split_slash-HasNoSlash cs)
  | inr e ↦
      let (p, ps, same) = split_slash-cons cs in
      let each : All HasNoSlash (p ∷ ps) = rw same at (split_slash-HasNoSlash cs) in
      rw (e, same, split_slash) ((e, each.0), each.1)
]

split_slash-alone : (c : List ℕ) → HasNoSlash c → split_slash c ≡ c ∷ []
unfolding split_slash
split_slash-alone [] h = refl
split_slash-alone (b ∷ c) h = rw (h.0, split_slash-alone c h.1, split_slash) refl

split_slash-append :
    (c s : List ℕ) → HasNoSlash c → split_slash (c ++ slash ∷ s) ≡ c ∷ split_slash s
unfolding split_slash
split_slash-append [] s h = refl
split_slash-append (b ∷ c) s h = rw (h.0, split_slash-append c s h.1, split_slash) refl

pub split_slash-join :
    (c : List ℕ) (cs : List (List ℕ))
    → HasNoSlash c
    → All HasNoSlash cs
    → split_slash (join (c ∷ cs)) ≡ c ∷ cs
split_slash-join c [] h hs = ap split_slash (append-nil c) ∙ split_slash-alone c h
split_slash-join c (d ∷ cs) h hs =
    split_slash-append c (join (d ∷ cs)) h ∙ ap (λ r. c ∷ r) (split_slash-join d cs hs.0 hs.1)

find_slash-alone : (c : List ℕ) → HasNoSlash c → find_slash c ≡ none
unfolding find_slash
find_slash-alone [] h = refl
find_slash-alone (b ∷ c) h = rw (h.0, find_slash-alone c h.1, find_slash) refl

find_slash-append : (c s : List ℕ) → HasNoSlash c → find_slash (c ++ slash ∷ s) ≡ some (length c)
unfolding find_slash
find_slash-append [] s h = refl
find_slash-append (b ∷ c) s h = rw (h.0, find_slash-append c s h.1, find_slash) refl

-- A piece is not empty and has no slash.
abbrev pub IsPiece : List ℕ → Type 0
IsPiece c = (0 < length c) × HasNoSlash c

at_last :
    (c : List ℕ)
    → IsPiece c
    → next_component (record { remaining = c }) ≡ some (c, record { remaining = [] })
unfolding next_component
at_last [] h = absurd (omega arith)
at_last (b ∷ c) h = rw (find_slash-alone (b ∷ c) h.1, next_component) refl

at_slash :
    (c s : List ℕ)
    → IsPiece c
    → next_component (record { remaining = c ++ slash ∷ s }) ≡ some (c, record { remaining = s })
unfolding next_component
at_slash [] s h = absurd (omega arith)
at_slash (b ∷ c) s h =
    rw
      (
        find_slash-append (b ∷ c) s h.1,
        take-append (b ∷ c) (slash ∷ s),
        drop-append (b ∷ c) (slash ∷ s),
        next_component,
      )
      refl

ends : (fuel : ℕ) → collect (suc fuel) (record { remaining = [] }) ≡ some []
unfolding collect next_component
ends fuel = refl

pub collect-join :
    (fuel : ℕ) (c : List ℕ) (cs : List (List ℕ))
    → IsPiece c
    → All IsPiece cs
    → length (join (c ∷ cs)) < fuel
    → collect fuel (record { remaining = join (c ∷ cs) }) ≡ some (c ∷ cs)
unfolding collect
collect-join zero c cs h hs lt = absurd (omega arith)
collect-join (suc zero) c cs h hs lt = absurd (omega (arith, length-append c (join_rest cs)))
collect-join (suc (suc fuel)) c [] h hs lt = rw (append-nil c, at_last c h, collect) refl
collect-join (suc (suc fuel)) c (d ∷ cs) h hs lt =
    rw
      (
        at_slash c (join (d ∷ cs)) h,
        collect-join (suc fuel) d cs hs.0 hs.1
            (omega (arith, length-append c (slash ∷ join (d ∷ cs)))),
        collect,
      )
      refl
