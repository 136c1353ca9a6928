-- ===== src/Meta/Pair/Choice.antt =====
-- The active block of a parsed pair.
use littlefs2_pure.Prelude.{
  ℕ, ◌+◌, ◌%◌, ◌^◌, ◌<◌, ◌≡◌, ◌↔◌, ◌⊎◌, true, false, List, arith, ok, err, corrupt, if◌then◌else◌,
}
use littlefs2_pure.Block.{BlockAddress}
use littlefs2_pure.Meta.Reader
use littlefs2_pure.Meta.Reader.{MetadataReader, has_commits}
use littlefs2_pure.Meta.Pair.{MetadataPair, rev_scmp, is_nonneg, parse, choose}

-- The pair is that of the two blocks, active at one with a verified commit.
pub record IsChosen (addr_a addr_b : BlockAddress) (ra rb : MetadataReader) (p : MetadataPair)
    : Type 0 where
  pub committed : has_commits p.reader ≡ true
  pub from_pair :
      ((p.active_block ≡ addr_a) × (p.alternate_block ≡ addr_b) × (p.reader ≡ ra))
      ⊎ ((p.active_block ≡ addr_b) × (p.alternate_block ≡ addr_a) × (p.reader ≡ rb))

-- What `parse` guarantees of the pair that it returns, for the readers of the two blocks. Revisions
-- are counters modulo 2 ^ 32, and one is newer than another that it is fewer than 2 ^ 31 steps ahead
-- of.
pub record IsActive (addr_a addr_b : BlockAddress) (ra rb : MetadataReader) (p : MetadataPair)
    : Type 0 where
  pub chosen : IsChosen addr_a addr_b ra rb p
  pub first_newest :
      has_commits ra ≡ true
      → has_commits rb ≡ true
      → (step : ℕ) → step < 2 ^ 31
      → ra.revision ≡ (rb.revision + step) % 2 ^ 32
      → (p.active_block ≡ addr_a) × (p.reader ≡ ra)
  pub second_newest :
      has_commits ra ≡ true
      → has_commits rb ≡ true
      → (step : ℕ) → 0 < step
      → step < 2 ^ 31
      → rb.revision ≡ (ra.revision + step) % 2 ^ 32
      → (p.active_block ≡ addr_b) × (p.reader ≡ rb)

ahead :
    (a b step : ℕ)
    → b < 2 ^ 32
    → step < 2 ^ 31
    → a ≡ (b + step) % 2 ^ 32
    → is_nonneg (rev_scmp a b) ≡ true
unfolding rev_scmp
ahead a b step h small e = ground arith

behind :
    (a b step : ℕ)
    → a < 2 ^ 32
    → 0 < step
    → step < 2 ^ 31
    → b ≡ (a + step) % 2 ^ 32
    → is_nonneg (rev_scmp a b) ≡ false
unfolding rev_scmp
behind a b step h pos small e = ground arith

choose-IsChosen :
    (addr_a addr_b : BlockAddress) (ra rb : MetadataReader) (p : MetadataPair)
    → (if is_nonneg (rev_scmp ra.revision rb.revision)
        then choose ra addr_a rb addr_b
        else choose rb addr_b ra addr_a)
      ≡ ok p
    → IsChosen addr_a addr_b ra rb p
unfolding choose
choose-IsChosen addr_a addr_b ra rb p h = record {
  committed = ground arith;
  from_pair = ground arith;
}

pub parse-IsChosen :
    (addr_a : BlockAddress) (block_a : List ℕ) (addr_b : BlockAddress) (block_b : List ℕ)
    (ra rb : MetadataReader) (p : MetadataPair)
    → Reader.new block_a ≡ ok ra
    → Reader.new block_b ≡ ok rb
    → parse addr_a block_a addr_b block_b ≡ ok p
    → IsChosen addr_a addr_b ra rb p
parse-IsChosen addr_a block_a addr_b block_b ra rb p ea eb h =
    choose-IsChosen addr_a addr_b ra rb p (unfold parse in rw (ea, eb) at h)

choose-IsActive :
    (addr_a addr_b : BlockAddress) (ra rb : MetadataReader) (p : MetadataPair)
    → ra.revision < 2 ^ 32
    → rb.revision < 2 ^ 32
    → (if is_nonneg (rev_scmp ra.revision rb.revision)
        then choose ra addr_a rb addr_b
        else choose rb addr_b ra addr_a)
      ≡ ok p
    → IsActive addr_a addr_b ra rb p
unfolding choose
choose-IsActive addr_a addr_b ra rb p wa wb h = record {
  chosen = choose-IsChosen addr_a addr_b ra rb p h;
  first_newest = λ ha hb step small e.
      let sign = ahead ra.revision rb.revision step wb small e in (ground arith, ground arith);
  second_newest = λ ha hb step pos small e.
      let sign = behind ra.revision rb.revision step wa pos small e in (ground arith, ground arith);
}

-- A pair that parses is active at a block that holds a verified commit, next to the other block. Where
-- both blocks hold one, with revisions that are words, it is active at the block whose revision is
-- ahead of the other by fewer than 2 ^ 31 steps modulo 2 ^ 32, the first on a tie.
pub parse-IsActive :
    (addr_a : BlockAddress) (block_a : List ℕ) (addr_b : BlockAddress) (block_b : List ℕ)
    (ra rb : MetadataReader) (p : MetadataPair)
    → Reader.new block_a ≡ ok ra
    → Reader.new block_b ≡ ok rb
    → ra.revision < 2 ^ 32
    → rb.revision < 2 ^ 32
    → parse addr_a block_a addr_b block_b ≡ ok p
    → IsActive addr_a addr_b ra rb p
parse-IsActive addr_a block_a addr_b block_b ra rb p ea eb wa wb h =
    choose-IsActive addr_a addr_b ra rb p wa wb (unfold parse in rw (ea, eb) at h)

-- Of two blocks with room for a revision, parsing fails as corrupt exactly when neither holds a
-- verified commit.
pub parse_corrupt :
    (addr_a : BlockAddress) (block_a : List ℕ) (addr_b : BlockAddress) (block_b : List ℕ)
    (ra rb : MetadataReader)
    → Reader.new block_a ≡ ok ra
    → Reader.new block_b ≡ ok rb
    → (parse addr_a block_a addr_b block_b ≡ err corrupt)
      ↔ ((has_commits ra ≡ false) × (has_commits rb ≡ false))
unfolding parse choose
parse_corrupt addr_a block_a addr_b block_b ra rb ea eb =
    rw (ea, eb) (λ h. (ground arith, ground arith), λ h. ground arith)
