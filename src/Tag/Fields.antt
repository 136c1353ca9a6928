-- ===== src/Tag/Fields.antt =====
-- `Tag::new` packs its four fields without overlap, and the accessors read them back.
use littlefs2_pure.Prelude.{
  ℕ, ◌+◌, ◌*◌, ◌/◌, ◌%◌, ◌^◌, ◌<◌, bit_or, ◌≡◌, ◌∙◌, Bool, true, false, arith, ◌==◌, if◌then◌else◌,
}
use littlefs2_pure.Prelude.Bits.{bit_or_fields}
use littlefs2_pure.Prelude.Words.{◌<<<◌}
use littlefs2_pure.Tag.{Tag, new, is_valid, type_bits, tag_type, id, length}
use littlefs2_pure.Tag.Kind
use littlefs2_pure.Tag.Kind.{TagType}

abbrev pub valid_word : Bool → ℕ
valid_word valid = if valid then 0 else 1

-- The fields as a sum.
pub new-sum :
    (valid : Bool) (t : TagType) (i l : ℕ)
    → Kind.into_bits t < 2 ^ 11
    → new valid t i l
      ≡ valid_word valid * 2 ^ 31 + Kind.into_bits t * 2 ^ 20 + i % 2 ^ 10 * 2 ^ 10 + l % 2 ^ 10
unfolding new
new-sum valid t i l h =
    let v = valid_word valid in
    let ty = Kind.into_bits t in
    let top : (if valid then 0 else 1 <<< 31) ≡ v * 2 ^ 31 = ground arith in
    let exact : ty * 2 ^ 20 % 2 ^ 32 ≡ ty * 2 ^ 20 = omega arith in
    let first : bit_or (v * 2 ^ 31) (ty * 2 ^ 20) ≡ (v * 2 ^ 11 + ty) * 2 ^ 20 =
      bit_or_fields 31 v (ty * 2 ^ 20) (omega arith) ∙ omega arith in
    let second : bit_or ((v * 2 ^ 11 + ty) * 2 ^ 20) (i % 2 ^ 10 * 2 ^ 10)
        ≡ ((v * 2 ^ 11 + ty) * 2 ^ 10 + i % 2 ^ 10) * 2 ^ 10 =
      bit_or_fields 20 (v * 2 ^ 11 + ty) (i % 2 ^ 10 * 2 ^ 10) (omega arith) ∙ omega arith in
    rw (top, exact, first, second)
      (bit_or_fields 10 ((v * 2 ^ 11 + ty) * 2 ^ 10 + i % 2 ^ 10) (l % 2 ^ 10) (omega arith)
        ∙ omega arith)

pub new-lt :
    (valid : Bool) (t : TagType) (i l : ℕ) → Kind.into_bits t < 2 ^ 11 → new valid t i l < 2 ^ 32
new-lt true t i l h = omega (arith, new-sum true t i l h)
new-lt false t i l h = omega (arith, new-sum false t i l h)

-- The accessors of a tag that `Tag::new` built return what it was built from: the valid bit, the
-- type, the id and the length, whenever the type is a named one and both numbers fit ten bits.
pub new_fields :
    (valid : Bool) (t : TagType) (i l : ℕ)
    → Kind.IsKnown t
    → i < 2 ^ 10
    → l < 2 ^ 10
    → (is_valid (new valid t i l) ≡ valid)
      × (tag_type (new valid t i l) ≡ t)
      × (id (new valid t i l) ≡ i)
      × (length (new valid t i l) ≡ l)
unfolding is_valid tag_type type_bits id length
new_fields valid t i l k hi hl =
    let ty = Kind.into_bits-lt t k in
    let e = new-sum valid t i l ty in
    let v : valid_word valid < 2 = ground arith in
    let bits : new valid t i l / 2 ^ 20 % 2 ^ 11 ≡ Kind.into_bits t = omega arith in
    (
      valid_bit valid (new valid t i l) (omega arith),
      rw bits (Kind.from_bits-into_bits t k),
      omega arith,
      omega arith,
    )
  where
    valid_bit : (b : Bool) (w : ℕ) → w / 2 ^ 31 ≡ valid_word b → (w / 2 ^ 31 == 0) ≡ b
    valid_bit true w p = ground arith
    valid_bit false w p = ground arith

-- Every 32 bit word is the tag that its own decoded fields build.
new_decoded :
    (tag : Tag) → tag < 2 ^ 32 → new (is_valid tag) (tag_type tag) (id tag) (length tag) ≡ tag
unfolding is_valid tag_type type_bits id length
new_decoded tag h =
    let ty : tag / 2 ^ 20 % 2 ^ 11 < 2 ^ 11 = omega arith in
    let back = Kind.into_bits-from_bits (tag / 2 ^ 20 % 2 ^ 11) ty in
    let e =
      new-sum (tag / 2 ^ 31 == 0) (Kind.from_bits (tag / 2 ^ 20 % 2 ^ 11)) (tag / 2 ^ 10 % 2 ^ 10)
        (tag % 2 ^ 10) (omega arith) in
    let v : valid_word (tag / 2 ^ 31 == 0) ≡ tag / 2 ^ 31 = ground arith in omega arith
