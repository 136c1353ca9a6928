-- ===== src/Alloc/Bounded.antt =====
-- The search over the queue ends within as many rounds as the queue has places.
use littlefs2_pure.Prelude.{
  ℕ, zero, suc, ◌+◌, ◌≤◌, ◌≡◌, refl, inl, inr, Bool-cases, some, List, [], ◌∷◌, ◌++◌, arith, leb,
  length, length-append, Result, ok, err, Result-cases,
}
use littlefs2_pure.Block.{BlockPair, contains_pair}
use littlefs2_pure.Alloc.Scan.{Queue, enqueue, search_queue, max_queued_pairs}

-- An enqueue that succeeds keeps the number of pairs that were taken out, and the bound.
enqueue_keeps :
    (children : List BlockPair) (q q' : Queue)
    → enqueue children q ≡ ok q'
    → q.tail ≤ max_queued_pairs
    → (q'.tail ≤ max_queued_pairs) × (q'.tail + length q.pending ≡ q.tail + length q'.pending)
unfolding enqueue
enqueue_keeps [] q q' e h = ground arith
enqueue_keeps (child ∷ rest) q q' e h = elim (Bool-cases (contains_pair q.pending child)) [
  | inl c ↦ enqueue_keeps rest q q' (rw (c, enqueue) at e) h
  | inr c ↦ elim (Bool-cases (leb max_queued_pairs q.tail)) [
    | inl f ↦ absurd (ground arith)
    | inr f ↦
        let more : Queue = record { pending = q.pending ++ (child ∷ []); tail = q.tail + 1 } in
        let (bound, same) = enqueue_keeps rest more q' (rw (c, f, enqueue) at e) (ground arith) in
        (bound, omega (arith, length-append q.pending (child ∷ [])))
  ]
]

module _ {ℓ} {A : Type ℓ} (visit : BlockPair → A → Result (A × List BlockPair)) where
  search_ends :
      (fuel : ℕ) (pending : List BlockPair) (tail : ℕ) (st : A)
      → tail ≤ max_queued_pairs
      → max_queued_pairs + length pending ≤ fuel + tail
      → (r : Result A) × (search_queue visit fuel pending tail st ≡ some r)
  unfolding search_queue
  search_ends fuel [] tail st h k = (ok st, refl)
  search_ends zero (pair ∷ rest) tail st h k = absurd (omega arith)
  search_ends (suc fuel) (pair ∷ rest) tail st h k = elim (Result-cases (visit pair st)) [
    | inr (e, v) ↦ (err e, rw (v, search_queue) refl)
    | inl ((st', children), v) ↦
        let popped : Queue = record { pending = rest; tail = tail } in
        elim (Result-cases (enqueue children popped)) [
          | inr (e, v') ↦ (err e, rw (v, v', search_queue) refl)
          | inl (q, v') ↦
              let (bound, same) = enqueue_keeps children popped q v' h in
              let (r, ends) = search_ends fuel q.pending q.tail st' bound (omega arith) in
              (r, rw (v, v', search_queue) ends)
        ]
  ]

  -- From a queue of one pair, the search returns a result with the fuel that it is given.
  pub search_queue_ends :
      (root : BlockPair) (st : A)
      → (r : Result A) × (search_queue visit max_queued_pairs (root ∷ []) 1 st ≡ some r)
  search_queue_ends root st =
      search_ends max_queued_pairs (root ∷ []) 1 st (omega arith) (omega arith)
