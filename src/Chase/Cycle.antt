-- ===== src/Chase/Cycle.antt =====
-- `BrentTailWalk` on a sequence of pairs: what it rejects, and how soon.
use littlefs2_pure.Prelude.{
  ℕ, zero, suc, ◌+◌, ◌*◌, ◌-◌, ◌^◌, ◌≤◌, ◌<◌, ◌≡◌, refl, sym, ap, ◌∙◌, ◌⊎◌, inl, inr, true, false,
  ltb, Bool-cases, min, ◌==◌, Result, ok, err, ◌>>=◌, corrupt, arith, Error,
}
use littlefs2_pure.Prelude.Words.{u32_max}
use littlefs2_pure.Block.{BlockPair}
use littlefs2_pure.Chase.{BrentTailWalk, eq_pair, start_at, advance}

-- The walk offered the next `n` pairs of the sequence after its pair `i`.
unfoldable pub follow : (ℕ → BlockPair) → ℕ → ℕ → BrentTailWalk → Result BrentTailWalk
unfolding advance
follow x zero i w = ok w
follow x (suc n) i w = advance (x (suc i)) w >>= follow x n (suc i)

eq_pair→eq : (p q : BlockPair) → eq_pair p q ≡ true → p ≡ q
unfolding eq_pair
eq_pair→eq p q h = ground arith

eq_pair_refl : (p : BlockPair) → eq_pair p p ≡ true
unfolding eq_pair
eq_pair_refl p = ground arith

abbrev at : BlockPair → ℕ → ℕ → BrentTailWalk
at saved power steps = record { saved = saved; power = power; steps = steps }

advance_hit :
    (next : BlockPair) (w : BrentTailWalk)
    → eq_pair next w.saved ≡ true
    → advance next w ≡ err corrupt
unfolding advance
advance_hit next w h = rw (h, advance) refl

advance_jump :
    (next saved : BlockPair) (power steps : ℕ)
    → eq_pair next saved ≡ false
    → suc steps ≡ power
    → advance next (at saved power steps) ≡ ok (at next (min u32_max (power * 2)) 0)
unfolding advance
advance_jump next saved power steps h e = rw (h, advance) (ground arith)

advance_step :
    (next saved : BlockPair) (power steps : ℕ)
    → eq_pair next saved ≡ false
    → suc steps < power
    → advance next (at saved power steps) ≡ ok (at saved power (suc steps))
unfolding advance
advance_step next saved power steps h e = rw (h, advance) (ground arith)

module _ (x : ℕ → BlockPair) where
  -- Two pairs of the sequence that are equal, the later of them at `n` or before.
  abbrev pub Repeats : ℕ → Type 0
  Repeats n = (a : ℕ) × (b : ℕ) × (a < b) × (b ≤ n) × (x a ≡ x b)

  alarm :
      (n i s power steps : ℕ) (e : Error)
      → s ≤ i
      → follow x n i (at (x s) power steps) ≡ err e
      → (e ≡ corrupt) × Repeats (i + n)
  unfolding follow
  alarm zero i s power steps e h f = cc
  alarm (suc n) i s power steps e h f = elim (Bool-cases (eq_pair (x (suc i)) (x s))) [
    | inl hit ↦
        let failed : err corrupt ≡ err e =
          rw (advance_hit (x (suc i)) (at (x s) power steps) hit, follow) at f in
        (cc, (s, suc i, omega arith, omega arith, sym (eq_pair→eq (x (suc i)) (x s) hit)))
    | inr miss ↦ elim (Bool-cases (steps + 1 == power)) [
      | inl last ↦
          let (same, (a, b, lt, le, equal)) =
            alarm n (suc i) (suc i) (min u32_max (power * 2)) 0 e (omega arith)
              (rw (advance_jump (x (suc i)) (x s) power steps miss (ground arith), follow) at f) in
          (same, (a, b, lt, omega arith, equal))
      | inr more ↦
          let stepped : advance (x (suc i)) (at (x s) power steps)
              ≡ ok (at (x s) power (suc steps)) =
            unfold advance in rw (miss, more, advance) (ground arith) in
          let (same, (a, b, lt, le, equal)) =
            alarm n (suc i) s power (suc steps) e (omega arith) (rw (stepped, follow) at f) in
          (same, (a, b, lt, omega arith, equal))
    ]
  ]

  -- The walk rejects with `Corrupt` only, and only a chain in which a pair comes again.
  pub follow_alarm :
      (n : ℕ) (e : Error) → follow x n 0 (start_at (x 0)) ≡ err e → (e ≡ corrupt) × Repeats n
  unfolding start_at
  follow_alarm n e f =
      let (same, (a, b, lt, le, equal)) = alarm n 0 0 1 0 e (omega arith) f in
      (same, (a, b, lt, omega arith, equal))

  -- The rest of a stride: the walk rejects, or saves the pair at the stride's end.
  stride :
      (n r t i s power : ℕ) (m : ℕ)
      → n ≡ suc r + m
      → t + suc r ≡ power
      → i ≡ s + t
      → (follow x n i (at (x s) power t) ≡ err corrupt)
        ⊎ (follow x n i (at (x s) power t)
            ≡ follow x m (s + power) (at (x (s + power)) (min u32_max (power * 2)) 0))
  unfolding follow
  stride zero r t i s power m en et ei = absurd (omega arith)
  stride (suc n) zero t i s power m en et ei = elim (Bool-cases (eq_pair (x (suc i)) (x s))) [
    | inl hit ↦ inl (rw (advance_hit (x (suc i)) (at (x s) power t) hit, follow) refl)
    | inr miss ↦
        let rounds : n ≡ m = omega arith in
        let place : suc i ≡ s + power = omega arith in
        inr (
          rw (advance_jump (x (suc i)) (x s) power t miss (omega arith), follow)
            (λ j. follow x (rounds j) (place j) (at (x (place j)) (min u32_max (power * 2)) 0)))
  ]
  stride (suc n) (suc r) t i s power m en et ei = elim (Bool-cases (eq_pair (x (suc i)) (x s))) [
    | inl hit ↦ inl (rw (advance_hit (x (suc i)) (at (x s) power t) hit, follow) refl)
    | inr miss ↦
        rw (advance_step (x (suc i)) (x s) power t miss (omega arith), follow)
          (stride n r (suc t) (suc i) s power m (omega arith) (omega arith) (omega arith))
  ]

  -- In a stride as long as the period, from a pair on the cycle, the walk meets that pair again.
  caught :
      (n g t i s power period : ℕ)
      → suc g ≤ n
      → t + suc g ≡ period
      → period ≤ power
      → i ≡ s + t
      → x (s + period) ≡ x s
      → follow x n i (at (x s) power t) ≡ err corrupt
  unfolding follow
  caught zero g t i s power period en et ep ei again = absurd (omega arith)
  caught (suc n) zero t i s power period en et ep ei again =
      let place : suc i ≡ s + period = omega arith in
      let hit : eq_pair (x (suc i)) (x s) ≡ true =
        (λ j. eq_pair (x (place j)) (x s)) ∙ (λ j. eq_pair (again j) (x s)) ∙ eq_pair_refl (x s) in
      rw (advance_hit (x (suc i)) (at (x s) power t) hit, follow) refl
  caught (suc n) (suc g) t i s power period en et ep ei again =
      elim (Bool-cases (eq_pair (x (suc i)) (x s))) [
        | inl hit ↦ rw (advance_hit (x (suc i)) (at (x s) power t) hit, follow) refl
        | inr miss ↦
            rw (advance_step (x (suc i)) (x s) power t miss (omega arith), follow)
              (caught n g (suc t) (suc i) s power period (omega arith) (omega arith) ep
                (omega arith) again)
      ]

  module _ (start period : ℕ) (pos : 0 < period) (small : start + period ≤ 2 ^ 31)
      (cyclic : (i : ℕ) → start ≤ i → x (i + period) ≡ x i) where
    -- From the beginning of a stride, with the strides that are left counted.
    strides :
        (left n s power : ℕ)
        → s + 1 ≡ power
        → power ≤ 2 * (start + period)
        → start + period ≤ power + left
        → 3 * (start + period) ≤ n + s
        → follow x n s (at (x s) power 0) ≡ err corrupt
    strides zero n s power es ep el en =
        caught n (period - 1) 0 s s power period (omega arith) (omega arith) (omega arith)
          (omega arith) (cyclic s (omega arith))
    strides (suc left) n s power es ep el en = elim (Bool-cases (ltb power (start + period))) [
      | inr long ↦
          let enough : start + period ≤ power = ground arith in
          caught n (period - 1) 0 s s power period (omega arith) (omega arith) (omega arith)
            (omega arith) (cyclic s (omega arith))
      | inl short ↦
          let below : power < start + period = ground arith in
          let doubled : min u32_max (power * 2) ≡ power * 2 = omega arith in
          elim (stride n (power - 1) 0 s s power (n - power) (omega arith) (omega arith)
            (omega arith)) [
              | inl stop ↦ stop
              | inr go ↦
                  go
                  ∙ ap (λ p. follow x (n - power) (s + power) (at (x (s + power)) p 0)) doubled
                  ∙ strides left (n - power) (s + power) (power * 2) (omega arith) (omega arith)
                      (omega arith) (omega arith)
            ]
    ]

    -- A chain that comes back to its pair `start` after `period` pairs is rejected within three
    -- times as many steps, whatever it is before.
    pub follow_catches :
        (n : ℕ) → 3 * (start + period) ≤ n → follow x n 0 (start_at (x 0)) ≡ err corrupt
    unfolding start_at
    follow_catches n h =
        strides (start + period) n 0 1 (omega arith) (omega arith) (omega arith) (omega arith)
