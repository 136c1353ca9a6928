-- ===== src/Meta/Encoding.antt =====
-- The bytes of a sequence of tags, by recursion on it: each word is stored against the one before.
-- This is the format that the builder writes and the reader reads, stated apart from both.
pub mod Read
pub mod Ccrc
pub mod Iterate
pub mod Whole
pub mod RoundTrip
use littlefs2_pure.Prelude.{
  ℕ, ◌+◌, ◌<◌, ◌^◌, bit_xor, ◌≡◌, Bool, true, false, List, [], ◌∷◌, ◌++◌, length, All,
}
use littlefs2_pure.Prelude.Bytes.{IsBytes, to_be32}
use littlefs2_pure.Tag
use littlefs2_pure.Meta.Iter.{TagEntry}

unfoldable pub encode : ℕ → List TagEntry → List ℕ
encode ptag [] = []
encode ptag (e ∷ es) = (to_be32 (bit_xor e.tag ptag) ++ e.body) ++ encode e.tag es

-- The base that is left after them.
unfoldable pub last_tag : ℕ → List TagEntry → ℕ
last_tag ptag [] = ptag
last_tag ptag (e ∷ es) = last_tag e.tag es

-- A data tag as a commit may hold it.
pub record IsEntry (e : TagEntry) : Type 0 where
  pub word : e.tag < 2 ^ 32
  pub valid : Tag.is_valid e.tag ≡ true
  pub not_ccrc : Tag.is_ccrc e.tag ≡ false
  pub body_length : length e.body ≡ Tag.body_len e.tag
  pub bytes : IsBytes e.body

abbrev pub AreEntries : List TagEntry → Type 0
AreEntries = All IsEntry
