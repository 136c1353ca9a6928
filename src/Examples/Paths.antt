-- ===== src/Examples/Paths.antt =====
-- The search for a name and the resolution of a path, on a device whose blocks all hold one file.
use littlefs2_pure.Prelude.{ℕ, ◌+◌, ◌≡◌, refl, arith, List, [], ◌∷◌, none, some, false, true, ok}
use littlefs2_pure.Prelude.Bytes.{slice, le32_at, be32_at}
use littlefs2_pure.Crc
use littlefs2_pure.Tag
use littlefs2_pure.Tag.Kind
use littlefs2_pure.Block.{BlockPair}
use littlefs2_pure.Storage.{Storage, read_or_io}
use littlefs2_pure.Meta.Reader
use littlefs2_pure.Meta.Reader.{MetadataReader, has_commits}
use littlefs2_pure.Meta.Pair.{rev_scmp, MetadataPair}
use littlefs2_pure.Dir.{lookup_checked, regular_entry, Resolved}
use littlefs2_pure.Tag.Kind.{inline_struct}
use littlefs2_pure.Compact.Plan.{gather_live_slots}
use littlefs2_pure.FilePath.{FilePath, new_path}
use littlefs2_pure.Chase.Forest.{fetch_pair, hard_tail_of}
use littlefs2_pure.Resolve.{
  returns, found, seek_entry_in_chain, resolve_parent, resolve, chase, chase_from, visit_seek,
}
use littlefs2_pure.Resolve.Search.{Seeks}
use littlefs2_pure.Resolve.Search
use littlefs2_pure.Resolve.Agree.{Agrees}
use littlefs2_pure.Resolve.Agree
use littlefs2_pure.Resolve.Ends.{Returns}
use littlefs2_pure.Resolve.Total
use littlefs2_pure.Resolve.Contents.{chain_room}
use littlefs2_pure.Resolve.Contents
use littlefs2_pure.Ctz.{block_count}
use littlefs2_pure.Ctz.Index.{content_before}

-- A commit of a Create, the name "a" of a regular file, and an inline body of two bytes.
abbrev file_log : List ℕ
file_log =
    0x1 ∷ 0x0 ∷ 0x0 ∷ 0x0 ∷ 0xbf ∷ 0xef ∷ 0xff ∷ 0xff ∷ 0x40 ∷ 0x0 ∷ 0x0 ∷ 0x1 ∷ 0x61 ∷ 0x20 ∷ 0x0
    ∷ 0x0 ∷ 0x3 ∷ 0x68 ∷ 0x69 ∷ 0x70 ∷ 0x1f ∷ 0xfc ∷ 0x6 ∷ 0x36 ∷ 0x7 ∷ 0x6b ∷ 0xb3 ∷ []

abbrev file_device : Storage
file_device = record {
  read_size = 1;
  block_size = 27;
  block_count = 4;
  read = λ block offset n. some file_log;
}

abbrev file_reader : MetadataReader
file_reader = record {
  block = file_log;
  revision = 1;
  committed_end = 27;
  next_ptag = 0x500f_fc04;
  tail = none;
  is_hard_tail = false;
  erased = false;
}

abbrev file_pair : MetadataPair
file_pair = record {
  active_block = 0;
  alternate_block = 1;
  reader = file_reader;
  alternate_valid = true;
}

abbrev root_pair : BlockPair
root_pair = record { a = 0; b = 1 }

abbrev path_a : FilePath
path_a = record { inner = 0x61 ∷ [] }

path_a_new : new_path (0x61 ∷ []) ≡ ok path_a
unfolding new_path
path_a_new = refl

file_read : Reader.new file_log ≡ ok file_reader
unfolding Reader.new Reader.walk Reader.walk_step Reader.walk_ccrc Reader.scan_for_tail
    Reader.window_erased Reader.flip_parity le32_at be32_at slice Crc.update Crc.update_nibble
    Tag.dsize Tag.body_len Tag.is_valid Tag.is_ccrc Tag.tag_type Tag.ccrc_chunk Kind.from_bits
    Reader.walk_data Reader.pending_after
file_read = refl

file_fetched : fetch_pair file_device root_pair ≡ ok file_pair
unfolding fetch_pair read_or_io rev_scmp has_commits
file_fetched = rw file_read

abbrev file_entry : Resolved
file_entry = record {
  entry = record { id = 0; entry_name = 0x61 ∷ []; kind = regular_entry };
  struct_type = inline_struct;
  struct_body = 0x68 ∷ 0x69 ∷ [];
}

file_found : lookup_checked file_pair (0x61 ∷ []) ≡ ok (some file_entry)
unfolding lookup_checked littlefs2_pure.Meta.Iter.iter_tags littlefs2_pure.Meta.Iter.collect
    littlefs2_pure.Meta.Iter.next Tag.dsize Tag.body_len Tag.is_valid be32_at Tag.tag_type
    Kind.from_bits Tag.id Reader.flip_parity Tag.ccrc_chunk slice
file_found = refl

sought :
    seek_entry_in_chain file_device root_pair (0x61 ∷ [])
    ≡ returns (ok (found root_pair 0 regular_entry))
unfolding seek_entry_in_chain gather_live_slots hard_tail_of littlefs2_pure.Meta.Iter.next Tag.dsize
    Tag.body_len Tag.is_valid be32_at Tag.tag_type Kind.from_bits Tag.id Reader.flip_parity
    Tag.ccrc_chunk slice
sought = rw (chase, chase_from, chase, file_fetched, visit_seek, file_found) refl

parent_found :
    resolve_parent file_device root_pair path_a 27 27 ≡ returns (ok (root_pair, 0x61 ∷ []))
unfolding resolve_parent
parent_found = refl

seek_entry_in_chain-Seeks_example :
    Seeks file_device (0x61 ∷ []) root_pair (found root_pair 0 regular_entry)
seek_entry_in_chain-Seeks_example =
    Search.seek_entry_in_chain-Seeks file_device root_pair (0x61 ∷ [])
      (found root_pair 0 regular_entry) sought

resolve-seek_example :
    Agrees (found root_pair 0 regular_entry) (resolve file_device root_pair path_a 27 27)
resolve-seek_example =
    Agree.resolve-seek file_device root_pair path_a 27 27 root_pair (0x61 ∷ [])
      (found root_pair 0 regular_entry) parent_found sought

resolve-Returns_example : Returns (resolve file_device root_pair path_a 27 27)
resolve-Returns_example =
    Total.resolve-Returns file_device (omega arith) (0x61 ∷ []) path_a path_a_new root_pair 27 27

chain_room-content_before_example :
    content_before 128 (block_count 1000 128) ≡ 1000 + chain_room 128 1000
chain_room-content_before_example =
    Contents.chain_room-content_before 128 1000 (omega arith) (omega arith) (omega arith)
      (omega arith)
