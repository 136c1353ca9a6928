-- ===== src/Meta/Reader/Walk.antt =====
-- The walk over a block: a round moves the offset on, the fuel does not matter once it suffices, and
-- the committed end stays inside the block.
use littlefs2_pure.Prelude.{
  ℕ, zero, suc, ◌+◌, ◌≤◌, ◌<◌, ◌≡◌, refl, ◌⊎◌, inl, inr, none, some, List, arith, length,
  Option-cases, ok,
}
use littlefs2_pure.Tag
use littlefs2_pure.Tag.Sizes.{dsize_bounds}
use littlefs2_pure.Meta.Reader.{
  WalkState, MetadataReader, walk_ccrc, walk_data, walk_step, walk, walk_start, new,
}

abbrev IsRound : List ℕ → WalkState → WalkState → Type 0
IsRound block s s' =
    (s'.off ≡ s.off + Tag.dsize s.ptag)
    × (s'.off + 4 ≤ length block)
    × ((s'.committed_end ≡ s.committed_end) ⊎ (s'.committed_end ≤ length block))

-- What every round that does not break has done.
pub walk_step-IsRound :
    (block : List ℕ) (s s' : WalkState) → walk_step block s ≡ some s' → IsRound block s s'
unfolding walk_step walk_ccrc walk_data
walk_step-IsRound block s s' h = ground arith

walk_step_advances :
    (block : List ℕ) (s s' : WalkState)
    → walk_step block s ≡ some s'
    → (s.off + 4 ≤ s'.off) × (s'.off + 4 ≤ length block)
walk_step_advances block s s' h =
    let r = walk_step-IsRound block s s' h in omega (arith, dsize_bounds s.ptag)

-- Any two amounts of fuel that suffice give the same walk.
pub walk_fuel :
    (f g : ℕ) (block : List ℕ) (s : WalkState)
    → length block < f + s.off
    → length block < g + s.off
    → walk f block s ≡ walk g block s
unfolding walk
walk_fuel zero zero block s p q = refl
walk_fuel zero (suc g) block s p q = elim (Option-cases (walk_step block s)) [
  | inl e ↦ rw (e, walk)
  | inr (s', e) ↦ absurd (omega (arith, walk_step_advances block s s' e))
]
walk_fuel (suc f) zero block s p q = elim (Option-cases (walk_step block s)) [
  | inl e ↦ rw (e, walk)
  | inr (s', e) ↦ absurd (omega (arith, walk_step_advances block s s' e))
]
walk_fuel (suc f) (suc g) block s p q = elim (Option-cases (walk_step block s)) [
  | inl e ↦ rw (e, walk)
  | inr (s', e) ↦
      let a = walk_step_advances block s s' e in
      rw (e, walk) (walk_fuel f g block s' (omega arith) (omega arith))
]

-- A round may be taken off the front of a walk without touching its fuel.
pub walk_round :
    (f : ℕ) (block : List ℕ) (s s' : WalkState)
    → length block < f + s.off
    → walk_step block s ≡ some s'
    → walk f block s ≡ walk f block s'
walk_round zero block s s' p e = absurd (omega (arith, walk_step_advances block s s' e))
walk_round (suc f) block s s' p e =
    let a = walk_step_advances block s s' e in
    unfold walk in rw (e, walk) (walk_fuel f (suc f) block s' (omega arith) (omega arith))

pub walk_break :
    (f : ℕ) (block : List ℕ) (s : WalkState) → walk_step block s ≡ none → walk f block s ≡ s
unfolding walk
walk_break zero block s e = refl
walk_break (suc f) block s e = rw (e, walk)

walk-committed_end :
    (f : ℕ) (block : List ℕ) (s : WalkState)
    → s.committed_end ≤ length block
    → (walk f block s).committed_end ≤ length block
unfolding walk
walk-committed_end zero block s h = h
walk-committed_end (suc f) block s h = elim (Option-cases (walk_step block s)) [
  | inl e ↦ rw (e, walk) h
  | inr (s', e) ↦
      let r = walk_step-IsRound block s s' e in
      rw (e, walk) (walk-committed_end f block s' (omega arith))
]

-- Whatever bytes a block holds, the committed region that the reader reports lies in the block.
pub new-committed_end :
    (block : List ℕ) (r : MetadataReader) → new block ≡ ok r → r.committed_end ≤ length block
unfolding new
new-committed_end block r h =
    ground (arith, walk-committed_end (suc (length block)) block (walk_start block) (omega arith))
