-- ===== src/Dir/Refine.antt =====
-- The live entries as a list: Create inserts into it and Delete removes from it.
use littlefs2_pure.Prelude.{
  get_or-set, get_or-take, get_or-set_other, length-set, ℕ, zero, suc, ◌+◌, ◌-◌, ◌≤◌, ◌<◌, ◌≡◌,
  refl, sym, subst, ap, ◌∙◌, inl, inr, true, false, Bool-cases, ◌&&◌, List, arith, ltb, leb,
  if◌then◌else◌, length, get_or, set, take, Result, ok, err, corrupt, out_of_range, length-take,
  ltb→lt, ltb-false→le,
}
use littlefs2_pure.Dir.Edits.{
  insert_at, remove_at, list_ext, length-insert_at, length-remove_at, insert_below, insert_here,
  insert_above, remove_below, remove_above,
}
use littlefs2_pure.Dir.{Roster, max_live_entries, shift_up, shift_down, create_slot, delete_slot}
use littlefs2_pure.Dir.Splice.{order, get_or-shift_up, get_or-shift_down}

module _ {ℓ} {A : Type ℓ} where
  -- The array has its full length and the count lies in it.
  pub record IsRoster (r : Roster A) : Type ℓ where
    pub full : length r.slots ≡ max_live_entries
    pub within : r.count ≤ max_live_entries

  abbrev pub live : Roster A → List A
  live r = take r.count r.slots

  pub length-shift_up :
      (empty : A) (id n : ℕ) (slots : List A) → length (shift_up empty id n slots) ≡ length slots
  unfolding shift_up
  length-shift_up empty id zero slots = refl
  length-shift_up empty id (suc n) slots = elim (Bool-cases (ltb id (suc n))) [
    | inl e ↦
        rw (e, length-shift_up empty id n (set slots (suc n) (get_or slots n empty)))
          (length-set slots (suc n) (get_or slots n empty))
    | inr e ↦ rw e refl
  ]

  pub length-shift_down :
      (empty : A) (left i : ℕ) (slots : List A)
      → length (shift_down empty left i slots) ≡ length slots
  unfolding shift_down
  length-shift_down empty zero i slots = refl
  length-shift_down empty (suc left) i slots =
      length-shift_down empty left (suc i) (set slots i (get_or slots (suc i) empty))
      ∙ length-set slots i (get_or slots (suc i) empty)

  -- The list after a Create.
  pub created_live :
      (empty : A) (id : ℕ) (r : Roster A)
      → r.count < length r.slots
      → id ≤ r.count
      → take (r.count + 1) (set (shift_up empty id r.count r.slots) id empty)
        ≡ insert_at id empty (live r)
  created_live empty id r h k =
      let shifted = shift_up empty id r.count r.slots in
      let len = length-shift_up empty id r.count r.slots in
      let len_live = length-take r.count r.slots in
      let len_set = length-set shifted id empty in
      list_ext empty (take (r.count + 1) (set shifted id empty)) (insert_at id empty (live r))
        (omega (
          arith,
          length-take (r.count + 1) (set shifted id empty),
          length-insert_at id empty (live r),
        ))
        (λ j l.
          let l' : j < r.count + 1 = omega (arith, length-insert_at id empty (live r)) in
          let at = get_or-take (r.count + 1) (set shifted id empty) j empty l' in
          elim (order j id) [
            | inl below ↦
                let out : (ltb id j && leb j r.count) ≡ false = ground arith in
                let kept = get_or-set_other shifted id j empty empty (λ q. absurd (omega arith)) in
                let moved = get_or-shift_up empty id r.count r.slots j h in
                rw
                  (at, kept, moved, out, insert_below id empty (live r) j empty below (omega arith))
                  (sym (get_or-take r.count r.slots j empty (omega arith)))
            | inr (inl here) ↦
                rw (at, here, insert_here id empty (live r) empty (omega arith))
                  (get_or-set shifted id empty empty (omega arith))
            | inr (inr above) ↦
                let inside : (ltb id j && leb j r.count) ≡ true = ground arith in
                let kept = get_or-set_other shifted id j empty empty (λ q. absurd (omega arith)) in
                let moved = get_or-shift_up empty id r.count r.slots j h in
                let old =
                  insert_above id empty (live r) (j - 1) empty (omega arith) (omega arith) in
                let same : suc (j - 1) ≡ j = omega arith in
                let old' : get_or (insert_at id empty (live r)) j empty
                    ≡ get_or (live r) (j - 1) empty =
                  subst
                    (λ (k : ℕ).
                      get_or (insert_at id empty (live r)) k empty ≡ get_or (live r) (j - 1) empty)
                    same old in
                rw (at, kept, moved, inside, old')
                  (sym (get_or-take r.count r.slots (j - 1) empty (omega arith)))
          ])

  -- The list after a Delete.
  pub deleted_live :
      (empty : A) (id : ℕ) (r : Roster A)
      → r.count ≤ length r.slots
      → id < r.count
      → take
          (r.count - 1)
          (set (shift_down empty (r.count - 1 - id) id r.slots) (r.count - 1) empty)
        ≡ remove_at id (live r)
  deleted_live empty id r h k =
      let shifted = shift_down empty (r.count - 1 - id) id r.slots in
      let len = length-shift_down empty (r.count - 1 - id) id r.slots in
      let len_live = length-take r.count r.slots in
      let len_set = length-set shifted (r.count - 1) empty in
      let len_less = length-remove_at id (live r) (omega arith) in
      list_ext empty (take (r.count - 1) (set shifted (r.count - 1) empty)) (remove_at id (live r))
        (omega (arith, length-take (r.count - 1) (set shifted (r.count - 1) empty)))
        (λ j l.
          let at =
            get_or-take (r.count - 1) (set shifted (r.count - 1) empty) j empty (omega arith) in
          let kept =
            get_or-set_other shifted (r.count - 1) j empty empty (λ q. absurd (omega arith)) in
          let moved = get_or-shift_down empty (r.count - 1 - id) id r.slots j (omega arith) in
          elim (Bool-cases (ltb j id)) [
            | inl e ↦
                let lt = ltb→lt j id e in
                let out : (leb id j && ltb j (id + (r.count - 1 - id))) ≡ false = ground arith in
                rw (at, kept, moved, out, remove_below id (live r) j empty lt)
                  (sym (get_or-take r.count r.slots j empty (omega arith)))
            | inr e ↦
                let ge = ltb-false→le j id e in
                let inside : (leb id j && ltb j (id + (r.count - 1 - id))) ≡ true = ground arith in
                rw (at, kept, moved, inside, remove_above id (live r) j empty ge)
                  (sym (get_or-take r.count r.slots (suc j) empty (omega arith)))
          ])

abbrev pub map_result {ℓ κ} : {A : Type ℓ} {B : Type κ} → (A → B) → Result A → Result B
map_result f (ok a) = ok (f a)
map_result f (err e) = err e

pub leb-false→lt : (a b : ℕ) → leb a b ≡ false → b < a
leb-false→lt a b h = ground arith

live_size {ℓ} : {A : Type ℓ} (r : Roster A) → IsRoster r → length (live r) ≡ r.count
live_size r w = omega (arith, length-take r.count r.slots, w.full, w.within)

-- The insertion of an empty entry, with its bounds.
unfoldable pub insert_checked {ℓ} : {A : Type ℓ} → A → ℕ → List A → Result (List A)
unfolding insert_at
insert_checked empty id xs =
    if leb max_live_entries (length xs)
    then err out_of_range
    else if ltb (length xs) id
    then err corrupt
    else ok (insert_at id empty xs)

unfoldable pub remove_checked {ℓ} : {A : Type ℓ} → ℕ → List A → Result (List A)
unfolding remove_at
remove_checked id xs = if leb (length xs) id then err corrupt else ok (remove_at id xs)

-- On the live entries, a Create is the insertion of an empty entry at its id: in range, in the
-- corrupt case and on a full array.
pub create_slot-live {ℓ} :
    {A : Type ℓ} (empty : A) (id : ℕ) (r : Roster A)
    → IsRoster r
    → map_result (λ p. live p.1) (create_slot empty id r) ≡ insert_checked empty id (live r)
unfolding create_slot insert_checked
create_slot-live empty id r w =
    let size : length (live r) ≡ r.count = live_size r w in
    elim (Bool-cases (leb max_live_entries r.count)) [
      | inl e ↦ rw (size, e) refl
      | inr e ↦ elim (Bool-cases (ltb r.count id)) [
        | inl e' ↦ rw (size, e, e') refl
        | inr e' ↦
            rw (size, e, e')
              (ap ok (
                created_live empty id r
                  (omega (arith, w.full, leb-false→lt max_live_entries r.count e))
                  (ltb-false→le r.count id e')))
      ]
    ]

-- On the live entries, a Delete is the removal at its id, in range and in the corrupt case.
pub delete_slot-live {ℓ} :
    {A : Type ℓ} (empty : A) (id : ℕ) (r : Roster A)
    → IsRoster r
    → map_result (λ p. live p.1) (delete_slot empty id r) ≡ remove_checked id (live r)
unfolding delete_slot remove_checked
delete_slot-live empty id r w =
    let size : length (live r) ≡ r.count = live_size r w in
    elim (Bool-cases (leb r.count id)) [
      | inl e ↦ rw (size, e) refl
      | inr e ↦
          rw (size, e)
            (ap ok (
              deleted_live empty id r (omega (arith, w.full, w.within))
                (leb-false→lt r.count id e)))
    ]
