-- ===== src/Dir/Natural.antt =====
-- The splice step does not look into the slots: it commutes with every function on them that keeps
-- the empty slot.
use littlefs2_pure.Prelude.{
  ℕ, zero, suc, ◌-◌, ◌≡◌, refl, ap, inl, inr, Bool-cases, List, [], ◌∷◌, map, ltb, leb, get_or, set,
}
use littlefs2_pure.Tag
use littlefs2_pure.Tag.Kind.{
  TagType, regular_file, directory, superblock, from_move, from_user_attrs, dir_struct,
  inline_struct, ctz_struct, user_attr, create, delete, commit_crc, forward_crc, soft_tail,
  hard_tail, move_state, relocate_state, unknown,
}
use littlefs2_pure.Dir.{
  Roster, SpliceStep, max_live_entries, shift_up, shift_down, create_slot, delete_slot, name_slot,
  splice_arm, splice_step,
}
use littlefs2_pure.Dir.Refine.{map_result}

module _ {ℓ κ} {A : Type ℓ} {B : Type κ} where
  abbrev pub map_roster : (A → B) → Roster A → Roster B
  map_roster f r = record { slots = map f r.slots; count = r.count }

  abbrev pub map_outcome : (A → B) → SpliceStep × Roster A → SpliceStep × Roster B
  map_outcome f p = (p.0, map_roster f p.1)

  pub map-set :
      (f : A → B) (xs : List A) (i : ℕ) (v : A) → map f (set xs i v) ≡ set (map f xs) i (f v)
  map-set f [] i v = refl
  map-set f (x ∷ xs) zero v = refl
  map-set f (x ∷ xs) (suc i) v = ap (λ t. f x ∷ t) (map-set f xs i v)

  pub map-get_or :
      (f : A → B) (xs : List A) (i : ℕ) (d : A) → f (get_or xs i d) ≡ get_or (map f xs) i (f d)
  map-get_or f [] i d = refl
  map-get_or f (x ∷ xs) zero d = refl
  map-get_or f (x ∷ xs) (suc i) d = map-get_or f xs i d

  map-shift_up :
      (f : A → B) (empty : A) (id n : ℕ) (xs : List A)
      → map f (shift_up empty id n xs) ≡ shift_up (f empty) id n (map f xs)
  unfolding shift_up
  map-shift_up f empty id zero xs = refl
  map-shift_up f empty id (suc n) xs = elim (Bool-cases (ltb id (suc n))) [
    | inl e ↦
        rw
          (
            e,
            map-shift_up f empty id n (set xs (suc n) (get_or xs n empty)),
            map-set f xs (suc n) (get_or xs n empty),
            map-get_or f xs n empty,
          )
          refl
    | inr e ↦ rw e refl
  ]

  map-shift_down :
      (f : A → B) (empty : A) (left i : ℕ) (xs : List A)
      → map f (shift_down empty left i xs) ≡ shift_down (f empty) left i (map f xs)
  unfolding shift_down
  map-shift_down f empty zero i xs = refl
  map-shift_down f empty (suc left) i xs =
      rw
        (
          map-shift_down f empty left (suc i) (set xs i (get_or xs (suc i) empty)),
          map-set f xs i (get_or xs (suc i) empty),
          map-get_or f xs (suc i) empty,
        )
        refl

  map-create_slot :
      (f : A → B) (empty : A) (id : ℕ) (r : Roster A)
      → map_result (map_outcome f) (create_slot empty id r)
        ≡ create_slot (f empty) id (map_roster f r)
  unfolding create_slot
  map-create_slot f empty id r = elim (Bool-cases (leb max_live_entries r.count)) [
    | inl e ↦ rw e refl
    | inr e ↦ elim (Bool-cases (ltb r.count id)) [
      | inl e' ↦ rw (e, e') refl
      | inr e' ↦
          rw
            (
              e,
              e',
              map-set f (shift_up empty id r.count r.slots) id empty,
              map-shift_up f empty id r.count r.slots,
            )
            refl
    ]
  ]

  map-delete_slot :
      (f : A → B) (empty : A) (id : ℕ) (r : Roster A)
      → map_result (map_outcome f) (delete_slot empty id r)
        ≡ delete_slot (f empty) id (map_roster f r)
  unfolding delete_slot
  map-delete_slot f empty id r = elim (Bool-cases (leb r.count id)) [
    | inl e ↦ rw e refl
    | inr e ↦
        rw
          (
            e,
            map-set f (shift_down empty (r.count - 1 - id) id r.slots) (r.count - 1) empty,
            map-shift_down f empty (r.count - 1 - id) id r.slots,
          )
          refl
  ]

  map-name_slot :
      (f : A → B) (id : ℕ) (r : Roster A)
      → map_result (map_outcome f) (name_slot id r) ≡ name_slot id (map_roster f r)
  unfolding name_slot
  map-name_slot f id r = elim (Bool-cases (leb max_live_entries id)) [
    | inl e ↦ rw e refl
    | inr e ↦ elim (Bool-cases (leb r.count id)) [
      | inl e' ↦ rw (e, e') refl
      | inr e' ↦ rw (e, e') refl
    ]
  ]

  map-splice_arm :
      (f : A → B) (empty : A) (id : ℕ) (t : TagType) (r : Roster A)
      → map_result (map_outcome f) (splice_arm empty id t r)
        ≡ splice_arm (f empty) id t (map_roster f r)
  unfolding splice_arm
  map-splice_arm f empty id create r = map-create_slot f empty id r
  map-splice_arm f empty id delete r = map-delete_slot f empty id r
  map-splice_arm f empty id regular_file r = map-name_slot f id r
  map-splice_arm f empty id directory r = map-name_slot f id r
  map-splice_arm f empty id superblock r = map-name_slot f id r
  map-splice_arm f empty id from_move r = refl
  map-splice_arm f empty id from_user_attrs r = refl
  map-splice_arm f empty id dir_struct r = refl
  map-splice_arm f empty id inline_struct r = refl
  map-splice_arm f empty id ctz_struct r = refl
  map-splice_arm f empty id (user_attr c) r = refl
  map-splice_arm f empty id (commit_crc c) r = refl
  map-splice_arm f empty id forward_crc r = refl
  map-splice_arm f empty id soft_tail r = refl
  map-splice_arm f empty id hard_tail r = refl
  map-splice_arm f empty id move_state r = refl
  map-splice_arm f empty id relocate_state r = refl
  map-splice_arm f empty id (unknown a c) r = refl

  pub map-splice_step :
      (f : A → B) (empty : A) (tag : Tag.Tag) (r : Roster A)
      → map_result (map_outcome f) (splice_step empty tag r)
        ≡ splice_step (f empty) tag (map_roster f r)
  unfolding splice_step
  map-splice_step f empty tag r = map-splice_arm f empty (Tag.id tag) (Tag.tag_type tag) r
