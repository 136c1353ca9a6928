-- ===== src/Compact/Sim.antt =====
-- One emission into two sinks: what holds between the sinks before holds between them afterwards,
-- where the first does not fail.
use littlefs2_pure.Prelude.{
  ℕ, true, false, Bool-cases, inl, inr, List, [], ◌∷◌, replicate, length, Result, ok, err, ◌>>=◌,
}
use littlefs2_pure.Prelude.Words.{u16}
use littlefs2_pure.Prelude.Int.{ℤ, pos, ◌-ℤ◌}
use littlefs2_pure.Tag
use littlefs2_pure.Tag.Kind.{TagType}
use littlefs2_pure.Meta.Reader.{MetadataReader}
use littlefs2_pure.Meta.Iter.{TagEntry, iter_tags_rev}
use littlefs2_pure.Dir.Attrs.{
  EachStep, stop, past, consider, each_arm, each_walk, visit_attr, for_each_live_attr, is_seen, see,
}
use littlefs2_pure.Compact.{StagedAttrs, staged, put_sized, put_attrs, put_entry}

abbrev pub Sim : {σ τ : Type 0} → (σ → τ → Type 0) → Result σ → Result τ → Type 0
Sim R (err e) r = Unit
Sim R (ok s) (ok t) = R s t
Sim R (ok s) (err e) = ⊥

pub Sim->>= :
    {σ τ σ' τ' : Type 0} (R : σ → τ → Type 0) (S : σ' → τ' → Type 0) (m : Result σ) (n : Result τ)
    (f : σ → Result σ') (g : τ → Result τ')
    → Sim R m n
    → ((s : σ) (t : τ) → R s t → Sim S (f s) (g t))
    → Sim S (m >>= f) (n >>= g)
Sim->>= R S (err e) n f g h k = tt
Sim->>= R S (ok s) (ok t) f g h k = k s t h
Sim->>= R S (ok s) (err e) f g h k = absurd h

-- A step that does not touch the sink.
pub Sim-shared :
    {A : Type 0} {σ τ : Type 0} (R : σ → τ → Type 0) (m : Result A) (f : A → Result σ)
    (g : A → Result τ)
    → ((a : A) → Sim R (f a) (g a))
    → Sim R (m >>= f) (m >>= g)
Sim-shared R (ok a) f g k = k a
Sim-shared R (err e) f g k = tt

module _ {σ τ : Type 0} (R : σ → τ → Type 0) where
  module _ (f : ℕ → List ℕ → σ → Result σ) (g : ℕ → List ℕ → τ → Result τ)
      (calls : (a : ℕ) (body : List ℕ) (s : σ) (t : τ)
        → R s t
        → Sim R (f a body s) (g a body t)) where
    visit_attr-Sim :
        (a : ℕ) (e : TagEntry) (s : σ) (t : τ)
        → R s t
        → Sim R (visit_attr f a e s) (visit_attr g a e t)
    unfolding visit_attr
    visit_attr-Sim a e s t h = elim (Bool-cases (Tag.is_special_length e.tag)) [
      | inl special ↦ rw special h
      | inr plain ↦ rw plain (calls a e.body s t h)
    ]

    each_walk-Sim :
        (live : ℕ) (tags : List TagEntry) (seen : List ℕ) (gdiff : ℤ) (s : σ) (t : τ)
        → R s t
        → Sim R (each_walk f live tags seen gdiff s) (each_walk g live tags seen gdiff t)
    unfolding each_walk
    each_walk-Sim live [] seen gdiff s t h = h
    each_walk-Sim live (e ∷ tags) seen gdiff s t h =
        by_step (each_arm (Tag.tag_type e.tag) (pos (Tag.id e.tag)) (pos live -ℤ gdiff) gdiff)
          (λ seen'. λ gdiff'. λ s'. λ t'. λ h'. each_walk-Sim live tags seen' gdiff' s' t' h')
      where
        by_step :
            (step : EachStep)
            → ((seen' : List ℕ) (gdiff' : ℤ) (s' : σ) (t' : τ)
                → R s' t'
                → Sim R
                    (each_walk f live tags seen' gdiff' s')
                    (each_walk g live tags seen' gdiff' t'))
            → Sim R
                (elim step [
                  | stop ↦ ok s
                  | past gdiff' ↦ each_walk f live tags seen gdiff' s
                  | consider a ↦ elim (is_seen seen a) [
                    | true ↦ each_walk f live tags seen gdiff s
                    | false ↦ visit_attr f a e s >>= each_walk f live tags (see seen a) gdiff
                  ]
                ])
                (elim step [
                  | stop ↦ ok t
                  | past gdiff' ↦ each_walk g live tags seen gdiff' t
                  | consider a ↦ elim (is_seen seen a) [
                    | true ↦ each_walk g live tags seen gdiff t
                    | false ↦ visit_attr g a e t >>= each_walk g live tags (see seen a) gdiff
                  ]
                ])
        by_step stop again = h
        by_step (past gdiff') again = again seen gdiff' s t h
        by_step (consider a) again = elim (Bool-cases (is_seen seen a)) [
          | inl on ↦ rw on (again seen gdiff s t h)
          | inr off ↦ rw off (
              Sim->>= R R (visit_attr f a e s) (visit_attr g a e t)
                (each_walk f live tags (see seen a) gdiff)
                (each_walk g live tags (see seen a) gdiff) (visit_attr-Sim a e s t h)
                (λ s'. λ t'. λ h'. again (see seen a) gdiff s' t' h'))
        ]

    pub for_each_live_attr-Sim :
        (r : MetadataReader) (live : ℕ) (s : σ) (t : τ)
        → R s t
        → Sim R (for_each_live_attr f r live s) (for_each_live_attr g r live t)
    unfolding for_each_live_attr
    for_each_live_attr-Sim r live s t h =
        each_walk-Sim live (iter_tags_rev r) (replicate 8 0) (pos 0) s t h

  module _ (p : σ → ℕ → List ℕ → Result σ) (q : τ → ℕ → List ℕ → Result τ)
      (puts : (s : σ) (t : τ) (tag : ℕ) (body : List ℕ)
        → R s t
        → Sim R (p s tag body) (q t tag body)) where
    pub put_sized-Sim :
        (kind : TagType) (id : ℕ) (body : List ℕ) (s : σ) (t : τ)
        → R s t
        → Sim R (put_sized p kind id body s) (put_sized q kind id body t)
    unfolding put_sized
    put_sized-Sim kind id body s t h = puts s t (Tag.new true kind id (u16 (length body))) body h

    put_attrs-Sim :
        (id : ℕ) (attrs : List (ℕ × List ℕ)) (s : σ) (t : τ)
        → R s t
        → Sim R (put_attrs p id attrs s) (put_attrs q id attrs t)
    unfolding put_attrs
    put_attrs-Sim id [] s t h = h
    put_attrs-Sim id ((a, v) ∷ rest) s t h =
        Sim->>= R R (put_sized p (TagType.user_attr a) id v s)
          (put_sized q (TagType.user_attr a) id v t) (put_attrs p id rest) (put_attrs q id rest)
          (put_sized-Sim (TagType.user_attr a) id v s t h)
          (λ s'. λ t'. λ h'. put_attrs-Sim id rest s' t' h')

    pub put_entry-Sim :
        (id : ℕ) (kind : TagType) (entry_name : List ℕ) (struct_kind : TagType) (len : ℕ)
        (body : List ℕ) (attrs : StagedAttrs) (s : σ) (t : τ)
        → R s t
        → Sim R
            (put_entry p id kind entry_name struct_kind len body attrs s)
            (put_entry q id kind entry_name struct_kind len body attrs t)
    unfolding put_entry
    put_entry-Sim id kind entry_name struct_kind len body attrs s t h =
        let t1 = Tag.new true TagType.create id 0 in
        let t3 = Tag.new true struct_kind id len in
        Sim->>= R R (p s t1 []) (q t t1 []) _ _ (puts s t t1 [] h) λ s1 u1 h1.
          Sim->>= R R (put_sized p kind id entry_name s1) (put_sized q kind id entry_name u1) _ _
            (put_sized-Sim kind id entry_name s1 u1 h1)
            λ s2 u2 h2.
              Sim->>= R R (p s2 t3 body) (q u2 t3 body) _ _ (puts s2 u2 t3 body h2)
                λ s3 u3 h3. put_attrs-Sim id (staged attrs) s3 u3 h3
