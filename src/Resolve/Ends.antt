-- ===== src/Resolve/Ends.antt =====
-- The loops of Resolve come to an end: a walk that came through every round would have been rejected
-- by Brent's walk.
use littlefs2_pure.Prelude.{
  ℕ, zero, suc, ◌+◌, ◌^◌, ◌≤◌, ◌<◌, ◌≡◌, refl, subst, ◌⊎◌, inl, inr, ◌>>=◌, Bool-cases, some, ◌==◌,
  Result, ok, err, Result-cases, arith,
}
use littlefs2_pure.Block.{BlockPair}
use littlefs2_pure.Storage.{Storage}
use littlefs2_pure.Meta.Pair.{MetadataPair}
use littlefs2_pure.Chase.{BrentTailWalk, start_at, advance}
use littlefs2_pure.Chase.Cycle.{follow}
use littlefs2_pure.Chase.Forest.{fetch_pair, hard_tail_of}
use littlefs2_pure.Resolve.Ring.{next_pair_lem, along, IsLive, ring_rejected}
use littlefs2_pure.Resolve.{Run, returns, Round, done, panic, onward, chase, chain_fuel, chase_from}

-- A run that returns a value or an error.
abbrev pub Returns : {A : Type 0} → Run A → Type 0
Returns {A} r = (v : Result A) × (r ≡ returns v)

-- A round that fails, ends, or goes on at the pair's hard tail, and does not panic.
abbrev pub GoesAlong : {S B : Type 0} → MetadataPair → Result (Round S B) → Type 0
GoesAlong pair (err e) = Unit
GoesAlong pair (ok (done b)) = Unit
GoesAlong pair (ok panic) = ⊥
GoesAlong pair (ok (onward st t)) = hard_tail_of pair ≡ some t

pub GoesAlong-bind :
    {S B A : Type 0} (pair : MetadataPair) (m : Result A) (k : A → Result (Round S B))
    → ((a : A) → m ≡ ok a → GoesAlong pair (k a))
    → GoesAlong pair (m >>= k)
GoesAlong-bind pair (ok a) k h = h a refl
GoesAlong-bind pair (err e) k h = tt

module _ {S B : Type 0} (s : Storage) (visit : BlockPair → MetadataPair → S → Result (Round S B))
    (steady : (p : BlockPair) (pair : MetadataPair) (st : S)
      → fetch_pair s p ≡ ok pair
      → GoesAlong pair (visit p pair st))
    (first : BlockPair) where
  -- The loop returns, or it has come through every round.
  abbrev CameThrough : ℕ → ℕ → BrentTailWalk → Type 0
  CameThrough n i walk =
      (walk' : BrentTailWalk) × (follow (along s first) n i walk ≡ ok walk')
      × ((j : ℕ) → i ≤ j → j < i + n → IsLive s first (along s first j))

  -- One more round in front of a walk that came through.
  through_round :
      (n i : ℕ) (walk walk' : BrentTailWalk) (t : BlockPair)
      → IsLive s first (along s first i)
      → along s first (suc i) ≡ t
      → advance t walk ≡ ok walk'
      → CameThrough n (suc i) walk'
      → CameThrough (suc n) i walk
  unfolding follow
  through_round n i walk walk' t here same a (last, f, live) = (
    last,
    rw (same, a, follow) f,
    λ j le lt. elim (Bool-cases (j == i)) [
      | inl e ↦
          let at : i ≡ j = ground arith in subst (λ k. IsLive s first (along s first k)) at here
      | inr e ↦ live j (ground arith) (omega arith)
    ],
  )

  chase_outcome :
      (n i : ℕ) (walk : BrentTailWalk) (st : S)
      → Returns (chase s visit n (along s first i) walk st) ⊎ CameThrough n i walk
  unfolding chase follow along
  chase_outcome zero i walk st = inr (walk, refl, λ j le lt. absurd (omega arith))
  chase_outcome (suc n) i walk st = elim (Result-cases (fetch_pair s (along s first i))) [
    | inr (e, f) ↦ inl (err e, rw (f, chase) refl)
    | inl (pair, f) ↦ elim (Result-cases (visit (along s first i) pair st)) [
      | inr (e, v) ↦ inl (err e, rw (f, v, chase) refl)
      | inl (r, v) ↦ by_round pair f r v (chase_outcome n (suc i))
    ]
  ]
    where
      by_round :
          (pair : MetadataPair)
          → fetch_pair s (along s first i) ≡ ok pair
          → (r : Round S B) → visit (along s first i) pair st ≡ ok r
          → ((w : BrentTailWalk) (st' : S)
              → Returns (chase s visit n (along s first (suc i)) w st') ⊎ CameThrough n (suc i) w)
          → Returns (chase s visit (suc n) (along s first i) walk st) ⊎ CameThrough (suc n) i walk
      by_round pair f (done b) v ih = inl (ok b, rw (f, v, chase) refl)
      by_round pair f panic v ih =
          absurd (subst (GoesAlong pair) v (steady (along s first i) pair st f))
      by_round pair f (onward st' t) v ih = elim (Result-cases (advance t walk)) [
        | inr (e, a) ↦ inl (err e, rw (f, v, a, chase) refl)
        | inl (walk', a) ↦
            let tail = subst (GoesAlong pair) v (steady (along s first i) pair st f) in
            let same : along s first (suc i) ≡ t =
              next_pair_lem s (along s first i) pair t f tail in
            elim (ih walk' st') [
              | inl (r, e) ↦ inl (r, rw (f, v, a, chase) (rw same at e))
              | inr rest ↦ inr (
                  through_round n i walk walk' t
                    (record { pair = pair; fetches = f; tail = t; goes_on = tail }) same a rest)
            ]
      ]

  -- On a device of fewer than 2 ^ 31 blocks, whatever its contents, the loop returns.
  pub chase_from-Returns : s.block_count < 2 ^ 31 → (st : S) → Returns (chase_from s visit first st)
  unfolding chase_from along
  chase_from-Returns small st = elim (chase_outcome (chain_fuel s) 0 (start_at first) st) [
    | inl r ↦ r
    | inr (walk, f, live) ↦
        let rejected = ring_rejected s first small (λ i lt. live i (omega arith) (omega arith)) in
        absurd (cc)
  ]
