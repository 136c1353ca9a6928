-- ===== src/Dir/Attrs/Each.antt =====
-- The walk over all attributes of an entry calls back with the values that `attr_get` finds.
use littlefs2_pure.Prelude.{
  ℕ, ◌<◌, ◌≡◌, refl, sym, ap, ◌∙◌, inl, inr, true, false, Bool-cases, Option, none, some, List, [],
  ◌∷◌, ◌==◌, if◌then◌else◌, length, replicate, Result, ok, ◌>>=◌, arith,
}
use littlefs2_pure.Prelude.Words.{◌>>>◌, low_bits}
use littlefs2_pure.Prelude.Int.{ℤ, pos, ◌-ℤ◌, leb_ℤ, eq_ℤ}
use littlefs2_pure.Tag
use littlefs2_pure.Tag.Kind.{TagType, decode-user_attr, from_bits, user_attr}
use littlefs2_pure.Meta.Reader.{MetadataReader}
use littlefs2_pure.Meta.Iter.{TagEntry, iter_tags_rev}
use littlefs2_pure.Dir.Attrs.Seen.{is_seen-see, length-see, none_seen}
use littlefs2_pure.Dir.Attrs.{
  attr_value, attr_arm, attr_walk, attr_get, AttrStep, found, older, EachStep, stop, past, consider,
  each_arm, each_walk, visit_attr, for_each_live_attr, is_seen, see,
}

attr_bound : (tag a : ℕ) → Tag.tag_type tag ≡ user_attr a → a < 256
unfolding Tag.tag_type from_bits
attr_bound tag a h = omega (
  arith,
  decode-user_attr (low_bits (Tag.type_bits tag >>> 8) 3) (low_bits (Tag.type_bits tag) 8) a h,
)

-- A step over all attributes against the step for one of them.
abbrev Mirrors : ℕ → TagEntry → ℤ → TagType → EachStep → AttrStep → Type 0
Mirrors attr e gdiff t stop s = s ≡ found none
Mirrors attr e gdiff t (past gdiff') s = s ≡ older gdiff'
Mirrors attr e gdiff t (consider a) s =
    (t ≡ user_attr a) × (s ≡ (if a == attr then found (attr_value e) else older gdiff))

mirrors :
    (t : TagType) (attr : ℕ) (id adj gdiff : ℤ) (e : TagEntry)
    → Mirrors attr e gdiff t (each_arm t id adj gdiff) (attr_arm attr t id adj gdiff e)
unfolding each_arm attr_arm
mirrors TagType.create attr id adj gdiff e = elim (Bool-cases (leb_ℤ id adj)) [
  | inl le ↦ elim (Bool-cases (eq_ℤ id adj)) [
    | inl same ↦ rw (le, same) refl
    | inr other ↦ rw (le, other) refl
  ]
  | inr gt ↦ rw gt refl
]
mirrors TagType.delete attr id adj gdiff e = elim (Bool-cases (leb_ℤ id adj)) [
  | inl le ↦ rw le refl
  | inr gt ↦ rw gt refl
]
mirrors (TagType.user_attr a) attr id adj gdiff e = elim (Bool-cases (eq_ℤ id adj)) [
  | inl same ↦
      rw same (refl, elim (Bool-cases (a == attr)) [ inl e' ↦ rw e' refl | inr e' ↦ rw e' refl ])
  | inr other ↦
      rw other (elim (Bool-cases (a == attr)) [ inl e' ↦ rw e' refl | inr e' ↦ rw e' refl ])
]
mirrors t attr id adj gdiff e = refl

-- A callback that gathers what it is given.
abbrev pub Gathered : Type 0
Gathered = List (ℕ × List ℕ)

unfoldable pub gather : ℕ → List ℕ → Gathered → Result Gathered
gather a body acc = ok ((a, body) ∷ acc)

abbrev pub lookup_attr : ℕ → Gathered → Option (List ℕ)
lookup_attr a [] = none
lookup_attr a ((c, body) ∷ acc) = let rest = lookup_attr a acc in if c == a then some body else rest

record Ready (seen : List ℕ) (acc : Gathered) : Type 0 where
  full : length seen ≡ 8
  unseen : (a : ℕ) → is_seen seen a ≡ false → lookup_attr a acc ≡ none

-- What is gathered: what was there of the attributes seen, and what the walks find of the others.
abbrev Finds : ℕ → List TagEntry → List ℕ → ℤ → Gathered → Result Gathered → Type 0
Finds live tags seen gdiff acc r =
    (out : Gathered) × (r ≡ ok out)
    × ((a : ℕ)
        → lookup_attr a out
          ≡ (if is_seen seen a then lookup_attr a acc else attr_walk live a tags gdiff))

module _ (live : ℕ) (e : TagEntry) (tags : List TagEntry) (seen : List ℕ) (gdiff : ℤ)
    (acc : Gathered)
    (again : (seen' : List ℕ) (gdiff' : ℤ) (acc' : Gathered)
      → Ready seen' acc'
      → Finds live tags seen' gdiff' acc' (each_walk gather live tags seen' gdiff' acc'))
    (h : Ready seen acc) where
  -- What the walk for one attribute does after its step.
  abbrev after_step : ℕ → AttrStep → Option (List ℕ)
  after_step a step = elim step [
    | found value ↦ value
    | older gdiff' ↦ attr_walk live a tags gdiff'
  ]

  abbrev after_each : EachStep → Result Gathered
  after_each step = elim step [
    | stop ↦ ok acc
    | past gdiff' ↦ each_walk gather live tags seen gdiff' acc
    | consider a ↦ elim (is_seen seen a) [
      | true ↦ each_walk gather live tags seen gdiff acc
      | false ↦ visit_attr gather a e acc >>= each_walk gather live tags (see seen a) gdiff
    ]
  ]

  abbrev Ends : Result Gathered → (ℕ → AttrStep) → Type 0
  Ends r one =
      (out : Gathered) × (r ≡ ok out)
      × ((a : ℕ)
          → lookup_attr a out
            ≡ (if is_seen seen a then lookup_attr a acc else after_step a (one a)))

  abbrev Considers : ℕ → (ℕ → AttrStep) → Type 0
  Considers a one = (c : ℕ) → one c ≡ (if a == c then found (attr_value e) else older gdiff)

  seen_before :
      (a : ℕ)
      → is_seen seen a ≡ true
      → (one : ℕ → AttrStep) → Considers a one
      → Ends (each_walk gather live tags seen gdiff acc) one
  seen_before a on one m =
      let (out, ends, law) = again seen gdiff acc h in
      (
        out,
        ends,
        λ c. law c ∙ elim (Bool-cases (is_seen seen c)) [
          | inl on' ↦ rw on' refl
          | inr off ↦ elim (Bool-cases (a == c)) [
            | inl same ↦
                let at : a ≡ c = ground arith in
                let on' : is_seen seen c ≡ true = ap (is_seen seen) (sym at) ∙ on in absurd (cc)
            | inr other ↦ rw (off, m c, other) refl
          ]
        ],
      )

  -- An attribute that was not seen before: from the values afterwards.
  seen_now :
      (a : ℕ)
      → is_seen seen a ≡ false
      → a < 256
      → (one : ℕ → AttrStep) → Considers a one
      → (acc' : Gathered)
      → ((c : ℕ) → lookup_attr c acc' ≡ (if a == c then attr_value e else lookup_attr c acc))
      → Ends (each_walk gather live tags (see seen a) gdiff acc') one
  unfolding attr_value
  seen_now a off low one m acc' values =
      let sees = λ (c : ℕ). is_seen-see seen a c h.full low in
      let (out, ends, law) = again (see seen a) gdiff acc' (record {
        full = length-see seen a ∙ h.full;
        unseen = λ c off'. elim (Bool-cases (a == c)) [
          | inl same ↦ let on : is_seen (see seen a) c ≡ true = sees c ∙ rw same refl in absurd (cc)
          | inr other ↦ values c ∙ rw other (h.unseen c (sym (sees c ∙ rw other refl) ∙ off'))
        ];
      }) in
      (
        out,
        ends,
        λ c. law c ∙ elim (Bool-cases (a == c)) [
          | inl same ↦
              let at : a ≡ c = ground arith in
              let off' : is_seen seen c ≡ false = ap (is_seen seen) (sym at) ∙ off in
              rw (sees c, off', m c, values c, same) refl
          | inr other ↦ rw (sees c, m c, values c, other) refl
        ],
      )

  by_each :
      (t : TagType) (step : EachStep) (one : ℕ → AttrStep)
      → ((a : ℕ) → t ≡ user_attr a → a < 256)
      → ((a : ℕ) → Mirrors a e gdiff t step (one a))
      → Ends (after_each step) one
  unfolding visit_attr gather attr_value
  by_each t stop one low m = (
    acc,
    refl,
    λ a. elim (Bool-cases (is_seen seen a)) [
      | inl on ↦ rw on refl
      | inr off ↦ rw (off, m a) (h.unseen a off)
    ],
  )
  by_each t (past gdiff') one low m =
      let (out, ends, law) = again seen gdiff' acc h in (out, ends, λ a. law a ∙ rw (m a) refl)
  by_each t (consider a) one low m = elim (Bool-cases (is_seen seen a)) [
    | inl on ↦ rw (on, after_each) (seen_before a on one (λ c. (m c).1))
    | inr off ↦
        rw (off, after_each)
          (elim (Bool-cases (Tag.is_special_length e.tag)) [
            | inl special ↦
                rw (special, visit_attr)
                  (seen_now a off (low a (m a).0) one (λ c. (m c).1) acc
                    (λ c. elim (Bool-cases (a == c)) [
                      | inl same ↦
                          let at : a ≡ c = ground arith in
                          rw (same, special)
                            (ap (λ (n : ℕ). lookup_attr n acc) (sym at) ∙ h.unseen a off)
                      | inr other ↦ rw other refl
                    ]))
            | inr plain ↦
                rw (plain, visit_attr)
                  (seen_now a off (low a (m a).0) one (λ c. (m c).1) ((a, e.body) ∷ acc)
                    (λ c. rw plain refl))
          ])
  ]

each_lem :
    (live : ℕ) (tags : List TagEntry) (seen : List ℕ) (gdiff : ℤ) (acc : Gathered)
    → Ready seen acc
    → Finds live tags seen gdiff acc (each_walk gather live tags seen gdiff acc)
unfolding each_walk attr_walk
each_lem live [] seen gdiff acc h = (
  acc,
  refl,
  λ a. elim (Bool-cases (is_seen seen a)) [
    | inl on ↦ rw on refl
    | inr off ↦ rw off (h.unseen a off)
  ],
)
each_lem live (e ∷ tags) seen gdiff acc h =
    let arm =
      λ (a : ℕ). attr_arm a (Tag.tag_type e.tag) (pos (Tag.id e.tag)) (pos live -ℤ gdiff) gdiff e in
    by_each live e tags seen gdiff acc
      (λ seen'. λ gdiff'. λ acc'. λ h'. each_lem live tags seen' gdiff' acc' h') h
      (Tag.tag_type e.tag)
      (each_arm (Tag.tag_type e.tag) (pos (Tag.id e.tag)) (pos live -ℤ gdiff) gdiff) arm
      (λ a. attr_bound e.tag a)
      (λ a. mirrors (Tag.tag_type e.tag) a (pos (Tag.id e.tag)) (pos live -ℤ gdiff) gdiff e)

-- A callback that gathers what it is given never fails the walk, and gathers for each attribute the
-- value that `attr_get` finds, and nothing for an attribute that it does not find.
pub for_each_live_attr-attr_get :
    (r : MetadataReader) (live : ℕ)
    → (out : Gathered) × (for_each_live_attr gather r live [] ≡ ok out)
      × ((a : ℕ) → lookup_attr a out ≡ attr_get r live a)
unfolding for_each_live_attr attr_get
for_each_live_attr-attr_get r live =
    let (out, ends, law) =
      each_lem live (iter_tags_rev r) (replicate 8 0) (pos 0) []
        (record { full = refl; unseen = λ a off. refl }) in
    (out, ends, λ a. law a ∙ rw (none_seen a) refl)
