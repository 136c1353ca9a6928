-- ===== src/Compact/Size.antt =====
-- The size estimate of a rebuild against the bytes that the rebuild writes.
use littlefs2_pure.Prelude.{
  ℕ, suc, ◌+◌, ◌≡◌, refl, subst, Bool, true, false, Bool-cases, inl, inr, not, ◌&&◌, ◌||◌, Option,
  none, some, List, [], ◌∷◌, ltb, leb, ◌==◌, if◌then◌else◌, length, take, drop, min, Result, ok,
  err, ◌>>=◌, guard, corrupt, Result-cases, arith,
}
use littlefs2_pure.Prelude.Bytes.{slice}
use littlefs2_pure.Prelude.Words.{u16}
use littlefs2_pure.Tag
use littlefs2_pure.Tag.Kind.{TagType}
use littlefs2_pure.Meta.Reader
use littlefs2_pure.Meta.Reader.{MetadataReader}
use littlefs2_pure.Meta.Commit
use littlefs2_pure.Meta.Commit.{Commit}
use littlefs2_pure.Dir.Attrs.{for_each_live_attr}
use littlefs2_pure.Compact.{WriteOp, two_words}
use littlefs2_pure.Compact.Plan.{SlotOffsets, SlotPlan, OverrideBody, slice_body, words, slot_plan}
use littlefs2_pure.Compact.Sim.{
  Sim, Sim->>=, Sim-shared, for_each_live_attr-Sim, put_sized-Sim, put_entry-Sim,
}
use littlefs2_pure.Compact.Rebuild.{
  count_tag, name_type_of, struct_type_of, is_suppressed, put_extra_name, put_struct, replay_attr,
  put_append, emit_slot, emit_slots, emit_new, emit_compact_range, compact_range_size,
}

module _ {σ τ : Type 0} (R : σ → τ → Type 0) (p : σ → ℕ → List ℕ → Result σ)
    (q : τ → ℕ → List ℕ → Result τ)
    (puts : (s : σ) (t : τ) (tag : ℕ) (body : List ℕ)
      → R s t
      → Sim R (p s tag body) (q t tag body)) where
  put_extra_name-Sim :
      (extra : Option (TagType × List ℕ)) (id : ℕ) (s : σ) (t : τ)
      → R s t
      → Sim R (put_extra_name p extra id s) (put_extra_name q extra id t)
  unfolding put_extra_name
  put_extra_name-Sim none id s t h = h
  put_extra_name-Sim (some (kind, new_name)) id s t h =
      put_sized-Sim R p q puts kind id new_name s t h

  put_struct-Sim :
      (over : Option (TagType × OverrideBody)) (source : List ℕ) (slot : SlotOffsets)
      (own : TagType) (id : ℕ) (s : σ) (t : τ)
      → R s t
      → Sim R (put_struct p over source slot own id s) (put_struct q over source slot own id t)
  unfolding put_struct
  put_struct-Sim none source slot own id s t h =
      puts s t (Tag.new true own id slot.struct_len) (slice source slot.struct_off slot.struct_len)
        h
  put_struct-Sim (some (kind, slice_body body)) source slot own id s t h =
      put_sized-Sim R p q puts kind id body s t h
  put_struct-Sim (some (kind, words w0 w1)) source slot own id s t h =
      puts s t (Tag.new true kind id 8) (two_words w0 w1) h

  replay_attr-Sim :
      (plan : SlotPlan) (id a : ℕ) (body : List ℕ) (s : σ) (t : τ)
      → R s t
      → Sim R (replay_attr p plan id a body s) (replay_attr q plan id a body t)
  unfolding replay_attr
  replay_attr-Sim plan id a body s t h = elim (Bool-cases (is_suppressed plan.attr_suppress a)) [
    | inl on ↦ rw on h
    | inr off ↦ rw off (put_sized-Sim R p q puts (TagType.user_attr a) id body s t h)
  ]

  put_append-Sim :
      (extra : Option (ℕ × List ℕ)) (id : ℕ) (s : σ) (t : τ)
      → R s t
      → Sim R (put_append p extra id s) (put_append q extra id t)
  unfolding put_append
  put_append-Sim none id s t h = h
  put_append-Sim (some (a, v)) id s t h = put_sized-Sim R p q puts (TagType.user_attr a) id v s t h

  module _ (reader : MetadataReader) (source : List ℕ) where
    emit_slot-Sim :
        (plan : SlotPlan) (i id : ℕ) (slot : SlotOffsets) (s : σ) (t : τ)
        → R s t
        → Sim R
            (emit_slot p reader source plan i id slot s)
            (emit_slot q reader source plan i id slot t)
    unfolding emit_slot
    emit_slot-Sim plan i id slot s t h =
        Sim-shared R (guard (not (slot.name_kind == 0xff || slot.struct_kind == 0xff)) corrupt) _ _
          λ u. Sim-shared R (name_type_of slot.name_kind) _ _ λ name_type.
            Sim-shared R (struct_type_of slot.struct_kind) _ _
              λ struct_type. tags name_type struct_type
      where
        tags :
            (name_type struct_type : TagType)
            → Sim R
                (p s (Tag.new true TagType.create id 0) [] >>= λ s1.
                  p s1
                    (Tag.new true name_type id slot.name_len)
                    (slice source slot.name_off slot.name_len)
                  >>= λ s2. put_extra_name p plan.extra_name id s2 >>= λ s3.
                      put_struct p plan.struct_override source slot struct_type id s3 >>= λ s4.
                      for_each_live_attr (replay_attr p plan id) reader i s4 >>= λ s5.
                      put_append p plan.attr_append id s5)
                (q t (Tag.new true TagType.create id 0) [] >>= λ s1.
                  q s1
                    (Tag.new true name_type id slot.name_len)
                    (slice source slot.name_off slot.name_len)
                  >>= λ s2. put_extra_name q plan.extra_name id s2 >>= λ s3.
                      put_struct q plan.struct_override source slot struct_type id s3 >>= λ s4.
                      for_each_live_attr (replay_attr q plan id) reader i s4 >>= λ s5.
                      put_append q plan.attr_append id s5)
        tags name_type struct_type =
            let t1 = Tag.new true TagType.create id 0 in
            let t2 = Tag.new true name_type id slot.name_len in
            let old = slice source slot.name_off slot.name_len in
            Sim->>= R R (p s t1 []) (q t t1 []) _ _ (puts s t t1 [] h) λ s1 u1 h1.
              Sim->>= R R (p s1 t2 old) (q u1 t2 old) _ _ (puts s1 u1 t2 old h1) λ s2 u2 h2.
                Sim->>= R R (put_extra_name p plan.extra_name id s2)
                  (put_extra_name q plan.extra_name id u2) _ _
                  (put_extra_name-Sim plan.extra_name id s2 u2 h2)
                  λ s3 u3 h3.
                    Sim->>= R R (put_struct p plan.struct_override source slot struct_type id s3)
                      (put_struct q plan.struct_override source slot struct_type id u3) _ _
                      (put_struct-Sim plan.struct_override source slot struct_type id s3 u3 h3)
                      λ s4 u4 h4.
                        Sim->>= R R (for_each_live_attr (replay_attr p plan id) reader i s4)
                          (for_each_live_attr (replay_attr q plan id) reader i u4) _ _
                          (for_each_live_attr-Sim R (replay_attr p plan id) (replay_attr q plan id)
                            (replay_attr-Sim plan id) reader i s4 u4 h4)
                          λ s5 u5 h5. put_append-Sim plan.attr_append id s5 u5 h5

    -- The same id, and related sinks.
    abbrev With : ℕ × σ → ℕ × τ → Type 0
    With x y = (x.0 ≡ y.0) × R x.1 y.1

    emit_slots-Sim :
        (op : WriteOp) (i id : ℕ) (slots : List SlotOffsets) (s : σ) (t : τ)
        → R s t
        → Sim With
            (emit_slots p reader source op i id slots s)
            (emit_slots q reader source op i id slots t)
    unfolding emit_slots
    emit_slots-Sim op i id [] s t h = (refl, h)
    emit_slots-Sim op i id (slot ∷ rest) s t h =
        by_drop ((slot_plan op i).drop_entry) _ _ _ _ (emit_slots-Sim op (suc i) id rest s t h) (
          Sim->>= R With (emit_slot p reader source (slot_plan op i) i id slot s)
            (emit_slot q reader source (slot_plan op i) i id slot t)
            (emit_slots p reader source op (suc i) (suc id) rest)
            (emit_slots q reader source op (suc i) (suc id) rest)
            (emit_slot-Sim (slot_plan op i) i id slot s t h)
            (λ s'. λ t'. λ h'. emit_slots-Sim op (suc i) (suc id) rest s' t' h'))
      where
        by_drop :
            (gone : Bool) (m m' : Result (ℕ × σ)) (n n' : Result (ℕ × τ))
            → Sim With m n
            → Sim With m' n'
            → Sim With (elim gone [ true ↦ m | false ↦ m' ]) (elim gone [ true ↦ n | false ↦ n' ])
        by_drop true m m' n n' a b = a
        by_drop false m m' n n' a b = b

  emit_new-Sim :
      (op : WriteOp) (id : ℕ) (s : σ) (t : τ)
      → R s t
      → Sim R (emit_new p op id s) (emit_new q op id t)
  unfolding emit_new
  emit_new-Sim (WriteOp.create i n content attrs) id s t h =
      put_entry-Sim R p q puts id TagType.regular_file n TagType.inline_struct
        (u16 (length content)) content attrs s t h
  emit_new-Sim (WriteOp.create_ctz i n head total attrs) id s t h =
      put_entry-Sim R p q puts id TagType.regular_file n TagType.ctz_struct 8 (two_words head total)
        attrs s t h
  emit_new-Sim (WriteOp.create_dir i n pair attrs) id s t h =
      put_entry-Sim R p q puts id TagType.directory n TagType.dir_struct 8 (two_words pair.a pair.b)
        attrs s t h
  emit_new-Sim op id s t h = h

  emit_compact_range-Sim :
      (source : List ℕ) (slots : List SlotOffsets) (count : ℕ) (op : WriteOp) (lo hi : ℕ) (s : σ)
      (t : τ)
      → R s t
      → Sim R
          (emit_compact_range p source slots count op lo hi s)
          (emit_compact_range q source slots count op lo hi t)
  unfolding emit_compact_range
  emit_compact_range-Sim source slots count op lo hi s t h =
      let range = drop lo (take (min hi count) slots) in
      Sim-shared R (Reader.new source) _ _ λ reader.
        Sim->>= (With reader source) R (emit_slots p reader source op lo 0 range s)
          (emit_slots q reader source op lo 0 range t) _ _
          (emit_slots-Sim reader source op lo 0 range s t h) λ x y g. last x y g
    where
      last :
          (x : ℕ × σ) (y : ℕ × τ)
          → (x.0 ≡ y.0) × R x.1 y.1
          → Sim R
              (if leb lo count && ltb count hi then emit_new p op x.0 x.1 else ok x.1)
              (if leb lo count && ltb count hi then emit_new q op y.0 y.1 else ok y.1)
      last (id, s') (id', t') (same, g) = elim (Bool-cases (leb lo count && ltb count hi)) [
        | inl new ↦
            rw (new, Sim)
              (subst (λ n. Sim R (emit_new p op id s') (emit_new q op n t')) same
                (emit_new-Sim op id s' t' g))
        | inr old ↦ rw (old, Sim) g
      ]

tag-dsize :
    (c c' : Commit) (t : ℕ) (body : List ℕ)
    → Commit.tag c t body ≡ ok c'
    → c'.offset ≡ c.offset + Tag.dsize t
unfolding Commit.tag
tag-dsize c c' t body e = ground arith

module _ (source : List ℕ) (slots : List SlotOffsets) (count : ℕ) (op : WriteOp) (lo hi : ℕ) where
  -- A commit that has grown by what the counter counts.
  abbrev Grown : ℕ → Commit → ℕ → Type 0
  Grown base c n = c.offset ≡ base + n

  counts :
      (base : ℕ) (c : Commit) (n t : ℕ) (body : List ℕ)
      → Grown base c n
      → Sim (Grown base) (Commit.tag c t body) (count_tag n t body)
  unfolding count_tag
  counts base c n t body h = elim (Result-cases (Commit.tag c t body)) [
    | inl (c', e) ↦ rw (e, Sim) (omega (arith, tag-dsize c c' t body e))
    | inr (x, e) ↦ rw (e, Sim) tt
  ]

  Sim-ok :
      (base : ℕ) (m : Result Commit) (n : Result ℕ) (c : Commit)
      → Sim (Grown base) m n
      → m ≡ ok c
      → (k : ℕ) × (n ≡ ok k) × (c.offset ≡ base + k)
  Sim-ok base m (ok k) c h e =
      let grown : Sim (Grown base) (ok c) (ok k) = subst (λ r. Sim (Grown base) r (ok k)) e h in
      (k, refl, grown)
  Sim-ok base m (err x) c h e = absurd (subst (λ r. Sim (Grown base) r (err x)) e h)

  -- Whatever the slots, the operation and the range, an emission that a commit takes has advanced it
  -- by exactly the size that `compact_range_size` estimates.
  pub emit_compact_range-size :
      (c c' : Commit)
      → emit_compact_range Commit.tag source slots count op lo hi c ≡ ok c'
      → (n : ℕ) × (compact_range_size source slots count op lo hi ≡ ok n)
        × (c'.offset ≡ c.offset + n)
  unfolding compact_range_size
  emit_compact_range-size c c' e =
      Sim-ok c.offset (emit_compact_range Commit.tag source slots count op lo hi c)
        (emit_compact_range count_tag source slots count op lo hi 0) c'
        (emit_compact_range-Sim (Grown c.offset) Commit.tag count_tag (counts c.offset) source slots
          count op lo hi c 0 (omega arith))
        e
