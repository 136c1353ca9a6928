-- ===== src/Dir/Attrs/Replay.antt =====
-- The walk back from the newest tag finds the value that the replay from the oldest leaves.
use littlefs2_pure.Prelude.{
  ℕ, zero, suc, ◌-◌, ◌≡◌, refl, ap, ◌∙◌, inl, inr, true, false, ◌&&◌, Bool-cases, Option, none,
  List, [], ◌∷◌, ltb, ◌==◌, if◌then◌else◌, arith,
}
use mathlib.Core.List.{reverse, foldl, foldl-append, reverse-cons}
use littlefs2_pure.Prelude.Int.{ℤ, pos, sub_ℕ, ◌+ℤ◌, ◌-ℤ◌, leb_ℤ, eq_ℤ}
use littlefs2_pure.Tag
use littlefs2_pure.Tag.Kind.{TagType}
use littlefs2_pure.Meta.Reader.{MetadataReader}
use littlefs2_pure.Meta.Iter.{TagEntry, iter_tags_rev}
use littlefs2_pure.Dir.Attrs.{attr_value, attr_arm, attr_walk, attr_get, AttrStep, found, older}

-- The value of one attribute at each live id.
abbrev pub AttrTable : Type 0
AttrTable = ℕ → Option (List ℕ)

-- What a tag makes of the table: a Create opens an id without the attribute and moves the ids from
-- there up, a Delete closes an id, and an attribute tag sets or removes the value at its id.
unfoldable pub table_arm : ℕ → TagType → ℕ → TagEntry → AttrTable → AttrTable
unfolding attr_value
table_arm attr TagType.create id e f j =
    if ltb j id then f j else if id == j then none else f (j - 1)
table_arm attr TagType.delete id e f j = if ltb j id then f j else f (suc j)
table_arm attr (TagType.user_attr a) id e f j =
    if (a == attr) && (id == j) then attr_value e else f j
table_arm attr t id e f j = f j

abbrev pub table_after : ℕ → AttrTable → TagEntry → AttrTable
table_after attr f e = table_arm attr (Tag.tag_type e.tag) (Tag.id e.tag) e f

-- The table after a log, oldest tag first.
abbrev pub replay_attr : ℕ → List TagEntry → AttrTable
replay_attr attr tags = foldl (table_after attr) (λ j. none) tags

-- The id that the walk looks for, as a number: a splice below it moves it, and none moves it below 0.
abbrev Adjusted : ℕ → ℤ → ℕ → Type 0
Adjusted live gdiff adj = pos live -ℤ gdiff ≡ pos adj

Adjusted-up :
    (live adj : ℕ) (gdiff : ℤ) → Adjusted live gdiff adj → Adjusted live (gdiff -ℤ pos 1) (suc adj)
unfolding ◌-ℤ◌
Adjusted-up live adj gdiff h = ground arith

Adjusted-down :
    (live adj : ℕ) (gdiff : ℤ) → Adjusted live gdiff (suc adj) → Adjusted live (gdiff +ℤ pos 1) adj
unfolding ◌-ℤ◌ ◌+ℤ◌
Adjusted-down live adj gdiff h = ground arith

-- A step of the walk against the new value `w`, where `f` is the table of the older tags.
abbrev Agrees : ℕ → AttrTable → AttrStep → Option (List ℕ) → Type 0
Agrees live f (found value) w = value ≡ w
Agrees live f (older gdiff) w = (adj : ℕ) × Adjusted live gdiff adj × (f adj ≡ w)

module _ (live attr id : ℕ) (gdiff : ℤ) (e : TagEntry) (f : AttrTable) where
  create_lem :
      (adj : ℕ)
      → Adjusted live gdiff adj
      → Agrees live f
          (attr_arm attr TagType.create (pos id) (pos adj) gdiff e)
          (table_arm attr TagType.create id e f adj)
  unfolding attr_arm table_arm
  create_lem zero h = elim (Bool-cases (id == 0)) [
    | inl same ↦
        let le : leb_ℤ (pos id) (pos 0) ≡ true = ground arith in
        let eq : eq_ℤ (pos id) (pos 0) ≡ true = ground arith in
        let lt : ltb 0 id ≡ false = ground arith in rw (le, eq, lt, same) refl
    | inr other ↦
        let le : leb_ℤ (pos id) (pos 0) ≡ false = ground arith in
        let lt : ltb 0 id ≡ true = ground arith in rw (le, lt) (0, h, refl)
  ]
  create_lem (suc adj) h = elim (Bool-cases (ltb (suc adj) id)) [
    | inl lt ↦
        let le : leb_ℤ (pos id) (pos (suc adj)) ≡ false = ground arith in
        rw (le, lt) (suc adj, h, refl)
    | inr ge ↦
        let le : leb_ℤ (pos id) (pos (suc adj)) ≡ true = ground arith in
        elim (Bool-cases (id == suc adj)) [
          | inl same ↦
              let eq : eq_ℤ (pos id) (pos (suc adj)) ≡ true = ground arith in
              rw (le, eq, ge, same) refl
          | inr other ↦
              let eq : eq_ℤ (pos id) (pos (suc adj)) ≡ false = ground arith in
              rw (le, eq, ge, other) (adj, Adjusted-down live adj gdiff h, ap f (omega arith))
        ]
  ]

  delete_lem :
      (adj : ℕ)
      → Adjusted live gdiff adj
      → Agrees live f
          (attr_arm attr TagType.delete (pos id) (pos adj) gdiff e)
          (table_arm attr TagType.delete id e f adj)
  unfolding attr_arm table_arm
  delete_lem adj h = elim (Bool-cases (ltb adj id)) [
    | inl lt ↦
        let le : leb_ℤ (pos id) (pos adj) ≡ false = ground arith in rw (le, lt) (adj, h, refl)
    | inr ge ↦
        let le : leb_ℤ (pos id) (pos adj) ≡ true = ground arith in
        rw (le, ge) (suc adj, Adjusted-up live adj gdiff h, refl)
  ]

  user_attr_lem :
      (a adj : ℕ)
      → Adjusted live gdiff adj
      → Agrees live f
          (attr_arm attr (TagType.user_attr a) (pos id) (pos adj) gdiff e)
          (table_arm attr (TagType.user_attr a) id e f adj)
  unfolding attr_arm table_arm
  user_attr_lem a adj h =
      let eq : eq_ℤ (pos id) (pos adj) ≡ (id == adj) = unfold eq_ℤ in ground arith in
      rw eq (elim (Bool-cases ((a == attr) && (id == adj))) [
        | inl same ↦ rw same refl
        | inr other ↦ rw other (adj, h, refl)
      ])

  arm_lem :
      (t : TagType) (adj : ℕ)
      → Adjusted live gdiff adj
      → Agrees live f (attr_arm attr t (pos id) (pos adj) gdiff e) (table_arm attr t id e f adj)
  unfolding attr_arm table_arm
  arm_lem TagType.create adj h = create_lem adj h
  arm_lem TagType.delete adj h = delete_lem adj h
  arm_lem (TagType.user_attr a) adj h = user_attr_lem a adj h
  arm_lem t adj h = (adj, h, refl)

replay-reverse :
    (attr : ℕ) (e : TagEntry) (tags : List TagEntry)
    → replay_attr attr (reverse (e ∷ tags)) ≡ table_after attr (replay_attr attr (reverse tags)) e
replay-reverse attr e tags =
    ap (replay_attr attr) (reverse-cons e tags)
    ∙ foldl-append (table_after attr) (λ j. none) (reverse tags) (e ∷ [])

pub walk_lem :
    (live attr : ℕ) (newest : List TagEntry) (gdiff : ℤ) (adj : ℕ)
    → Adjusted live gdiff adj
    → attr_walk live attr newest gdiff ≡ replay_attr attr (reverse newest) adj
unfolding attr_walk
walk_lem live attr [] gdiff adj h = refl
walk_lem live attr (e ∷ tags) gdiff adj h =
    rw (h, replay-reverse attr e tags, attr_walk)
      (by_step (attr_arm attr (Tag.tag_type e.tag) (pos (Tag.id e.tag)) (pos adj) gdiff e)
        (arm_lem live attr (Tag.id e.tag) gdiff e (replay_attr attr (reverse tags))
          (Tag.tag_type e.tag) adj h)
        (λ gdiff'. λ adj'. walk_lem live attr tags gdiff' adj'))
  where
    by_step :
        (step : AttrStep) {w : Option (List ℕ)}
        → Agrees live (replay_attr attr (reverse tags)) step w
        → ((gdiff' : ℤ) (adj' : ℕ)
            → Adjusted live gdiff' adj'
            → attr_walk live attr tags gdiff' ≡ replay_attr attr (reverse tags) adj')
        → elim step [ found value ↦ value | older gdiff' ↦ attr_walk live attr tags gdiff' ] ≡ w
    by_step (found value) a again = a
    by_step (older gdiff') (adj', h', same) again = again gdiff' adj' h' ∙ same

-- Whatever the log, `attr_get` returns the value that the attribute has at the live id when the tags
-- of the log are replayed from the oldest, the order in reverse of the one that it reads them in.
pub attr_get-replay_attr :
    (r : MetadataReader) (live attr : ℕ)
    → attr_get r live attr ≡ replay_attr attr (reverse (iter_tags_rev r)) live
unfolding attr_get ◌-ℤ◌ sub_ℕ
attr_get-replay_attr r live attr = walk_lem live attr (iter_tags_rev r) (pos 0) live (ground arith)
