-- ===== src/Examples/Logs.antt =====
-- Metadata blocks: a log written and read back, blocks with no commit, pairs.
use littlefs2_pure.Prelude.{ℕ, ◌≤◌, ◌≡◌, refl, true, false, none, List, [], ◌∷◌, arith, ok}
use littlefs2_pure.Prelude.Bytes.{le32_at, be32_at, slice, to_be32}
use littlefs2_pure.Tag
use littlefs2_pure.Tag.Kind
use littlefs2_pure.Crc
use littlefs2_pure.Meta.Reader
use littlefs2_pure.Meta.Reader.{MetadataReader, has_commits}
use littlefs2_pure.Meta.Reader.Walk.{new-committed_end}
use littlefs2_pure.Meta.Iter.{TagEntry}
use littlefs2_pure.Meta.Encoding.{encode, IsEntry}
use littlefs2_pure.Meta.Encoding.RoundTrip.{ReadBack, write_commit-new}
use littlefs2_pure.Meta.Pair.{MetadataPair, rev_scmp, parse}
use littlefs2_pure.Meta.Pair.Choice.{IsActive, parse-IsActive}

-- The name of the superblock, "littlefs" at id 0, and a second entry.
abbrev magic_entry : TagEntry
magic_entry = record {
  tag = 0x0ff0_0008;
  body = 0x6c ∷ 0x69 ∷ 0x74 ∷ 0x74 ∷ 0x6c ∷ 0x65 ∷ 0x66 ∷ 0x73 ∷ [];
}

magic_entry-IsEntry : IsEntry magic_entry
unfolding Tag.is_valid Tag.is_ccrc Tag.body_len Tag.tag_type Kind.from_bits
magic_entry-IsEntry = record {
  word = omega arith;
  valid = refl;
  not_ccrc = refl;
  body_length = refl;
  bytes = omega arith;
}

write_commit-new_example : ReadBack 64 1 (magic_entry ∷ []) 0
unfolding encode to_be32
write_commit-new_example =
    write_commit-new 64 1 (magic_entry ∷ []) 0 (omega arith) (magic_entry-IsEntry, tt) (omega arith)
      refl (omega arith)

-- A block that holds a revision and nothing else.
abbrev bare : List ℕ
bare = 5 ∷ 0 ∷ 0 ∷ 0 ∷ []

abbrev bare_reader : MetadataReader
bare_reader = record {
  block = bare;
  revision = 5;
  committed_end = 0;
  next_ptag = 0xffff_ffff;
  tail = none;
  is_hard_tail = false;
  erased = false;
}

bare_reads : Reader.new bare ≡ ok bare_reader
unfolding Reader.new Reader.walk Reader.walk_step Reader.scan_for_tail Reader.window_erased le32_at
    Tag.dsize Tag.body_len
bare_reads = refl

new-committed_end_example : 0 ≤ 4
new-committed_end_example = new-committed_end bare bare_reader bare_reads

-- A block that holds a first commit with no entry, revision 1.
abbrev fresh : List ℕ
fresh = 0x01 ∷ 0x00 ∷ 0x00 ∷ 0x00 ∷ 0xaf ∷ 0xf0 ∷ 0x03 ∷ 0xfb ∷ 0xdc ∷ 0x22 ∷ 0xf9 ∷ 0xf7 ∷ []

abbrev fresh_reader : MetadataReader
fresh_reader = record {
  block = fresh;
  revision = 1;
  committed_end = 12;
  next_ptag = 0x500f_fc04;
  tail = none;
  is_hard_tail = false;
  erased = false;
}

fresh_reads : Reader.new fresh ≡ ok fresh_reader
unfolding Reader.new Reader.walk Reader.walk_step Reader.walk_ccrc Reader.scan_for_tail
    Reader.window_erased Reader.flip_parity le32_at be32_at slice Crc.update Crc.update_nibble
    Tag.dsize Tag.body_len Tag.is_valid Tag.is_ccrc Tag.tag_type Tag.ccrc_chunk Kind.from_bits
fresh_reads = refl

-- The same with revision 2.
abbrev later : List ℕ
later = 0x02 ∷ 0x00 ∷ 0x00 ∷ 0x00 ∷ 0xaf ∷ 0xf0 ∷ 0x03 ∷ 0xfb ∷ 0x3f ∷ 0x25 ∷ 0x76 ∷ 0x79 ∷ []

abbrev later_reader : MetadataReader
later_reader = record fresh_reader { block = later; revision = 2 }

later_reads : Reader.new later ≡ ok later_reader
unfolding Reader.new Reader.walk Reader.walk_step Reader.walk_ccrc Reader.scan_for_tail
    Reader.window_erased Reader.flip_parity le32_at be32_at slice Crc.update Crc.update_nibble
    Tag.dsize Tag.body_len Tag.is_valid Tag.is_ccrc Tag.tag_type Tag.ccrc_chunk Kind.from_bits
later_reads = refl

abbrev later_pair : MetadataPair
later_pair = record {
  active_block = 1;
  alternate_block = 0;
  reader = later_reader;
  alternate_valid = true;
}

later_parses : parse 0 fresh 1 later ≡ ok later_pair
unfolding parse rev_scmp has_commits
later_parses = rw (fresh_reads, later_reads) refl

parse-IsActive_example : IsActive 0 1 fresh_reader later_reader later_pair
parse-IsActive_example =
    parse-IsActive 0 fresh 1 later fresh_reader later_reader later_pair fresh_reads later_reads
      (omega arith) (omega arith) later_parses
