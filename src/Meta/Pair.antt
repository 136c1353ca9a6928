-- ===== src/Meta/Pair.antt =====
-- `rev_scmp` and `MetadataPair::parse` of src/meta.rs: which block of a pair is the active one.
pub mod Choice
use littlefs2_pure.Prelude.{
  ℕ, ◌+◌, ◌-◌, ◌%◌, ◌^◌, Bool, true, false, List, ltb, if◌then◌else◌, Result, ok, err, ◌>>=◌,
  corrupt,
}
use littlefs2_pure.Prelude.Words.{sub32}
use littlefs2_pure.Block.{BlockAddress}
use littlefs2_pure.Meta.Reader
use littlefs2_pure.Meta.Reader.{MetadataReader, has_commits}

-- The i32 result as its bit pattern, `a.wrapping_sub(b)`.
unfoldable pub rev_scmp : ℕ → ℕ → ℕ
rev_scmp a b = sub32 a b

-- `x >= 0` of an i32 bit pattern
abbrev pub is_nonneg : ℕ → Bool
is_nonneg x = ltb x (2 ^ 31)

pub record MetadataPair : Type 0 where
  pub active_block : BlockAddress
  pub alternate_block : BlockAddress
  pub reader : MetadataReader
  pub alternate_valid : Bool

-- The choice between the block that is newer and the other, by their verified commits.
unfoldable pub choose :
    MetadataReader → BlockAddress → MetadataReader → BlockAddress → Result MetadataPair
choose primary primary_addr secondary secondary_addr =
    if has_commits primary
    then ok (record {
      active_block = primary_addr;
      alternate_block = secondary_addr;
      reader = primary;
      alternate_valid = has_commits secondary;
    })
    else if has_commits secondary
    then ok (record {
      active_block = secondary_addr;
      alternate_block = primary_addr;
      reader = secondary;
      alternate_valid = false;
    })
    else err corrupt

unfoldable pub parse : BlockAddress → List ℕ → BlockAddress → List ℕ → Result MetadataPair
unfolding choose
parse addr_a block_a addr_b block_b = do
  reader_a ← Reader.new block_a
  reader_b ← Reader.new block_b
  if is_nonneg (rev_scmp reader_a.revision reader_b.revision)
      then choose reader_a addr_a reader_b addr_b
      else choose reader_b addr_b reader_a addr_a
