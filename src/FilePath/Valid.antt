-- ===== src/FilePath/Valid.antt =====
-- The names that a path may hold and the sequences of them as strings, with what the checks of
-- src/path.rs say of these.
use littlefs2_pure.Prelude.{
  ℕ, ◌≤◌, ◌<◌, ◌≡◌, ◌≢◌, refl, ap, subst, ◌∙◌, inl, inr, Bool, true, false, Bool-cases, List, [],
  ◌∷◌, ◌++◌, All, length, arith, ok, err, invalid_path,
}
use mathlib.Core.List.{append-nil}
use littlefs2_pure.FilePath.{is_bad_component, check_components, name_max}
use littlefs2_pure.FilePath.Strings.{
  slash, dot, eq_str, is_empty_str, ends_with_slash, trim_end_slashes,
}
use littlefs2_pure.FilePath.Split.{HasNoSlash, IsPiece, join}

-- A name that a path may hold: not empty, of 255 bytes at most, with no slash, and no dots.
pub record IsName (c : List ℕ) : Type 0 where
  pub some_byte : 0 < length c
  pub short : length c ≤ name_max
  pub no_slash : HasNoSlash c
  pub not_dot : c ≢ dot ∷ []
  pub not_dots : c ≢ dot ∷ dot ∷ []

-- The names with a slash between neighbours, and one in front where the path is absolute.
abbrev pub render : Bool → List (List ℕ) → List ℕ
render true cs = slash ∷ join cs
render false cs = join cs

pub eq_str_refl : (a : List ℕ) → eq_str a a ≡ true
unfolding eq_str
eq_str_refl [] = refl
eq_str_refl (x ∷ a) = ground (arith, eq_str_refl a)

pub eq_str→eq : (a b : List ℕ) → eq_str a b ≡ true → a ≡ b
unfolding eq_str
eq_str→eq [] [] h = refl
eq_str→eq [] (y ∷ b) h = cc
eq_str→eq (x ∷ a) [] h = cc
eq_str→eq (x ∷ a) (y ∷ b) h = ground (arith, eq_str→eq a b)

pub ne→eq_str : (a b : List ℕ) → a ≢ b → eq_str a b ≡ false
ne→eq_str a b h = elim (Bool-cases (eq_str a b)) [
  | inl e ↦ absurd (h (eq_str→eq a b e))
  | inr e ↦ e
]

eq_str→ne : (a b : List ℕ) → eq_str a b ≡ false → a ≢ b
eq_str→ne a b e h =
    let same : eq_str a b ≡ true = subst (λ c. eq_str a c ≡ true) h (eq_str_refl a) in cc

is_bad_component-IsName : (c : List ℕ) → IsName c → is_bad_component c ≡ false
unfolding is_bad_component is_empty_str
is_bad_component-IsName [] n = absurd (omega arith)
is_bad_component-IsName (b ∷ c) n = ground (
  arith,
  ne→eq_str (b ∷ c) (dot ∷ []) n.not_dot,
  ne→eq_str (b ∷ c) (dot ∷ dot ∷ []) n.not_dots,
  n.short,
)

good-IsName : (c : List ℕ) → HasNoSlash c → is_bad_component c ≡ false → IsName c
unfolding is_bad_component is_empty_str
good-IsName [] h e = cc
good-IsName (b ∷ c) h e = record {
  some_byte = omega arith;
  short = ground arith;
  no_slash = h;
  not_dot = eq_str→ne (b ∷ c) (dot ∷ []) (ground arith);
  not_dots = eq_str→ne (b ∷ c) (dot ∷ dot ∷ []) (ground arith);
}

pub check-IsName : (cs : List (List ℕ)) → All IsName cs → check_components cs ≡ ok tt
unfolding check_components
check-IsName [] h = refl
check-IsName (c ∷ cs) h =
    rw (is_bad_component-IsName c h.0, check-IsName cs h.1, check_components) refl

pub check_sound :
    (cs : List (List ℕ)) → All HasNoSlash cs → check_components cs ≡ ok tt → All IsName cs
unfolding check_components
check_sound [] h e = tt
check_sound (c ∷ cs) h e = elim (Bool-cases (is_bad_component c)) [
  | inl bad ↦ let failed : err invalid_path ≡ ok tt = rw (bad, check_components) at e in absurd (cc)
  | inr good ↦ (good-IsName c h.0 good, check_sound cs h.1 (rw (good, check_components) at e))
]

pub pieces : (cs : List (List ℕ)) → All IsName cs → All IsPiece cs
pieces [] h = tt
pieces (c ∷ cs) h = ((h.0.some_byte, h.0.no_slash), pieces cs h.1)

pub no_slashes : (cs : List (List ℕ)) → All IsName cs → All HasNoSlash cs
no_slashes [] h = tt
no_slashes (c ∷ cs) h = (h.0.no_slash, no_slashes cs h.1)

ends_with-append :
    (a : List ℕ) (b : ℕ) (bs : List ℕ) → ends_with_slash (a ++ b ∷ bs) ≡ ends_with_slash (b ∷ bs)
unfolding ends_with_slash
ends_with-append [] b bs = refl
ends_with-append (x ∷ []) b bs = refl
ends_with-append (x ∷ y ∷ a) b bs = ends_with-append (y ∷ a) b bs

ends_with-HasNoSlash : (c : List ℕ) → HasNoSlash c → ends_with_slash c ≡ false
unfolding ends_with_slash
ends_with-HasNoSlash [] h = refl
ends_with-HasNoSlash (b ∷ []) h = h.0
ends_with-HasNoSlash (b ∷ d ∷ c) h = ends_with-HasNoSlash (d ∷ c) h.1

pub ends_with-join :
    (c : List ℕ) (cs : List (List ℕ))
    → IsPiece c
    → All IsPiece cs
    → ends_with_slash (join (c ∷ cs)) ≡ false
unfolding ends_with_slash
ends_with-join c [] h hs = ap ends_with_slash (append-nil c) ∙ ends_with-HasNoSlash c h.1
ends_with-join c ([] ∷ cs) h hs = absurd (omega arith)
ends_with-join c ((b ∷ d) ∷ cs) h hs =
    ends_with-append c slash (join ((b ∷ d) ∷ cs)) ∙ ends_with-join (b ∷ d) cs hs.0 hs.1

pub trim_end_lem : (s : List ℕ) → ends_with_slash s ≡ false → trim_end_slashes s ≡ s
unfolding trim_end_slashes ends_with_slash is_empty_str
trim_end_lem [] h = refl
trim_end_lem (b ∷ []) h = ground arith
trim_end_lem (b ∷ d ∷ s) h = rw (trim_end_lem (d ∷ s) h, trim_end_slashes, is_empty_str) refl
