-- ===== src/Dir/Agree.antt =====
-- `live_entries` and `lookup_checked` replay a log to the same names and kinds, or fail alike.
use littlefs2_pure.Prelude.{
  ℕ, zero, suc, ◌≡◌, refl, sym, ap, ◌∙◌, inl, inr, Bool-cases, Option-cases, Option, none, some,
  List, [], ◌∷◌, map, ltb, get_or, set, Result, ok, err, ◌>>=◌,
}
use littlefs2_pure.Prelude.Words.{u16}
use littlefs2_pure.Tag
use littlefs2_pure.Meta.Iter.{TagEntry}
use littlefs2_pure.Dir.{
  Roster, SpliceStep, consumed, name, other, max_live_entries, splice_step, kind_of, EntryKind,
  DirEntry, LookupSlot, empty_slot, is_struct, park, live_after, live_step, lookup_after,
  lookup_step, replay, live_slots, lookup_slots,
}
use littlefs2_pure.Dir.Refine.{map_result}
use littlefs2_pure.Dir.Natural.{map_roster, map_outcome, map-set, map-get_or, map-splice_step}

-- What a caller sees of a slot: the kind and the name, where both are there.
abbrev View : Type 0
View = Option (EntryKind × List ℕ)

abbrev pub live_view : Option DirEntry → View
live_view none = none
live_view (some e) = some (e.kind, e.entry_name)

abbrev pub lookup_view : LookupSlot → View
lookup_view s = elim s.slot_kind [
  | none ↦ none
  | some k ↦ elim s.slot_name [ none ↦ none | some n ↦ some (k, n) ]
]

-- A round on the views alone.
view_after : TagEntry → SpliceStep → Roster View → Roster View
unfolding kind_of
view_after e consumed r = r
view_after e other r = r
view_after e (name i) r = record {
  slots =
      set r.slots i
        (elim (kind_of (Tag.tag_type e.tag)) [ none ↦ none | some k ↦ some (k, e.body) ]);
  count = r.count;
}

view_step : TagEntry → Roster View → Result (Roster View)
unfolding splice_step view_after
view_step e r = splice_step none e.tag r >>= λ p. ok (view_after e p.0 p.1)

set-get_or {ℓ} : {A : Type ℓ} (xs : List A) (i : ℕ) (d : A) → set xs i (get_or xs i d) ≡ xs
set-get_or [] i d = refl
set-get_or (x ∷ xs) zero d = refl
set-get_or (x ∷ xs) (suc i) d = ap (λ t. x ∷ t) (set-get_or xs i d)

map-live_after :
    (e : TagEntry) (t : SpliceStep) (r : Roster (Option DirEntry))
    → map_roster live_view (live_after e t r) ≡ view_after e t (map_roster live_view r)
unfolding live_after view_after
map-live_after e consumed r = refl
map-live_after e other r = refl
map-live_after e (name i) r = elim (Option-cases (kind_of (Tag.tag_type e.tag))) [
  | inl n ↦ rw (n, map-set live_view r.slots i none) refl
  | inr (k, n) ↦
      rw
        (
          n,
          map-set live_view r.slots i (some (record { id = u16 i; entry_name = e.body; kind = k })),
        )
        refl
]

map-park :
    (e : TagEntry) (slots : List LookupSlot)
    → map lookup_view (park e slots) ≡ map lookup_view slots
unfolding park
map-park e slots =
    let id = Tag.id e.tag in
    let t = Tag.tag_type e.tag in
    elim (Bool-cases (is_struct t)) [
      | inl s ↦ elim (Bool-cases (ltb id max_live_entries)) [
        | inl b ↦
            rw
              (
                s,
                b,
                map-set lookup_view slots id
                    (record (get_or slots id empty_slot) { struct_data = some (t, e.body) }),
              )
              (ap (λ (w : View). set (map lookup_view slots) id w)
                  (map-get_or lookup_view slots id empty_slot)
                ∙ set-get_or (map lookup_view slots) id none)
        | inr b ↦ rw (s, b) refl
      ]
      | inr s ↦ rw s refl
    ]

map-lookup_after :
    (e : TagEntry) (t : SpliceStep) (r : Roster LookupSlot)
    → map_roster lookup_view (lookup_after e t r) ≡ view_after e t (map_roster lookup_view r)
unfolding lookup_after view_after
map-lookup_after e consumed r = refl
map-lookup_after e other r = rw (map-park e r.slots) refl
map-lookup_after e (name i) r =
    let slot = get_or r.slots i empty_slot in
    elim (Option-cases (kind_of (Tag.tag_type e.tag))) [
      | inl n ↦
          rw
            (
              n,
              map-set lookup_view r.slots i
                  (record slot { slot_name = some e.body; slot_kind = none }),
            )
            refl
      | inr (k, n) ↦
          rw
            (
              n,
              map-set lookup_view r.slots i
                  (record slot { slot_name = some e.body; slot_kind = some k }),
            )
            refl
    ]

-- A step that is a splice and a change of the roster, seen through a function on the slots.
through {ℓ κ} :
    {A : Type ℓ} {B : Type κ} (f : A → B) (m : Result (SpliceStep × Roster A))
    (g : SpliceStep → Roster A → Roster A) (h : SpliceStep → Roster B → Roster B)
    → ((t : SpliceStep) (r : Roster A) → map_roster f (g t r) ≡ h t (map_roster f r))
    → map_result (map_roster f) (m >>= λ p. ok (g p.0 p.1))
      ≡ (map_result (map_outcome f) m >>= λ p. ok (h p.0 p.1))
through f (ok p) g h e = ap ok (e p.0 p.1)
through f (err e) g h _ = refl

map-live_step :
    (e : TagEntry) (r : Roster (Option DirEntry))
    → map_result (map_roster live_view) (live_step e r) ≡ view_step e (map_roster live_view r)
unfolding live_step view_step
map-live_step e r =
    rw (← map-splice_step live_view none e.tag r) (
      through live_view (splice_step none e.tag r) (live_after e) (view_after e) (map-live_after e))

map-lookup_step :
    (e : TagEntry) (r : Roster LookupSlot)
    → map_result (map_roster lookup_view) (lookup_step e r) ≡ view_step e (map_roster lookup_view r)
unfolding lookup_step view_step
map-lookup_step e r = rw (← map-splice_step lookup_view empty_slot e.tag r) (
    through lookup_view (splice_step empty_slot e.tag r) (lookup_after e) (view_after e)
      (map-lookup_after e))

map_bind {ℓ κ} :
    {A : Type ℓ} {B : Type κ} (f : A → B) (m : Result A) (g : A → Result A) (h : B → Result B)
    → ((a : A) → map_result f (g a) ≡ h (f a))
    → map_result f (m >>= g) ≡ (map_result f m >>= h)
map_bind f (ok a) g h same = same a
map_bind f (err e) g h same = refl

map-replay {ℓ κ} :
    {A : Type ℓ} {B : Type κ} (f : A → B) (step : TagEntry → A → Result A)
    (step' : TagEntry → B → Result B)
    → ((e : TagEntry) (a : A) → map_result f (step e a) ≡ step' e (f a))
    → (tags : List TagEntry) (a : A) → map_result f (replay step tags a) ≡ replay step' tags (f a)
unfolding replay
map-replay f step step' same [] a = refl
map-replay f step step' same (e ∷ rest) a = rw (← same e a) (
    map_bind f (step e a) (replay step rest) (replay step' rest)
      (map-replay f step step' same rest))

-- Whatever the tags, both walkers end with the same count and with the same kinds and names in
-- their slots, or fail with the same error.
pub live_slots-lookup_slots :
    (tags : List TagEntry)
    → map_result (map_roster live_view) (live_slots tags)
      ≡ map_result (map_roster lookup_view) (lookup_slots tags)
unfolding live_slots lookup_slots
live_slots-lookup_slots tags =
    map-replay (map_roster live_view) live_step view_step map-live_step tags _
    ∙ sym (map-replay (map_roster lookup_view) lookup_step view_step map-lookup_step tags _)
