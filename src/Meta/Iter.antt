-- ===== src/Meta/Iter.antt =====
-- `TagEntry`, `TagIter` and `TagIterRev` of src/meta.rs. `next` returns the entry and the advanced
-- iterator; collecting takes fuel, and every entry consumes at least four bytes.
use littlefs2_pure.Prelude.{
  ℕ, zero, suc, ◌+◌, ◌-◌, bit_xor, not, Option, none, some, List, [], ◌∷◌, ltb, if◌then◌else◌,
  length,
}
use littlefs2_pure.Prelude.Words.{low_bits}
use littlefs2_pure.Prelude.Bytes.{slice, be32_at}
use littlefs2_pure.Tag
use littlefs2_pure.Meta.Reader.{MetadataReader, flip_parity}

pub record TagEntry : Type 0 where
  pub tag : ℕ
  pub body : List ℕ

pub record TagIter : Type 0 where
  pub block : List ℕ
  pub offset : ℕ
  pub end : ℕ
  pub ptag : ℕ

unfoldable pub next : TagIter → Option (TagEntry × TagIter)
next it =
    let offset = it.offset + Tag.dsize it.ptag in
    let tag = bit_xor (be32_at it.block offset) it.ptag in
    if ltb it.end (offset + 4)
    then none
    else if not (Tag.is_valid tag)
    then none
    else if ltb it.end (offset + Tag.dsize tag)
    then none
    else some (
      record { tag = tag; body = slice it.block (offset + 4) (Tag.body_len tag) },
      record it { offset = offset; ptag = flip_parity tag (Tag.ccrc_chunk tag) },
    )

-- Every entry that `next` yields, in order.
unfoldable pub collect : ℕ → TagIter → List TagEntry
collect zero it = []
collect (suc fuel) it = elim (next it) [ none ↦ [] | some (e, it') ↦ e ∷ collect fuel it' ]

-- `MetadataReader::iter_tags`, run to its end.
unfoldable pub iter_tags : MetadataReader → List TagEntry
iter_tags r =
    collect (suc (length r.block))
      (record { block = r.block; offset = 0; end = r.committed_end; ptag = 0xffff_ffff })

pub record TagIterRev : Type 0 where
  pub block : List ℕ
  pub off : ℕ
  pub ntag : ℕ

unfoldable pub next_rev : TagIterRev → Option (TagEntry × TagIterRev)
next_rev it =
    let cur = low_bits it.ntag 31 in
    let dsize = Tag.dsize cur in
    let off = it.off - dsize in
    if ltb it.off (4 + dsize)
    then none
    else some (
      record { tag = cur; body = slice it.block (off + 4) (dsize - 4) },
      record it { off = off; ntag = low_bits (bit_xor (be32_at it.block off) it.ntag) 31 },
    )

unfoldable pub collect_rev : ℕ → TagIterRev → List TagEntry
collect_rev zero it = []
collect_rev (suc fuel) it = elim (next_rev it) [
  | none ↦ []
  | some (e, it') ↦ e ∷ collect_rev fuel it'
]

-- `MetadataReader::iter_tags_rev`, run to its end.
unfoldable pub iter_tags_rev : MetadataReader → List TagEntry
iter_tags_rev r =
    collect_rev (suc (length r.block))
      (record { block = r.block; off = r.committed_end; ntag = r.next_ptag })
