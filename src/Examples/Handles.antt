-- ===== src/Examples/Handles.antt =====
-- Handles of src/file.rs, on a device whose blocks all hold one file of two blocks.
use littlefs2_pure.Prelude.{
  ℕ, ◌+◌, ◌≡◌, ◌∙◌, refl, ap, true, false, none, some, List, [], ◌∷◌, Result, ok, err, io,
}
use littlefs2_pure.Prelude.Bytes.{slice, le32_at, be32_at}
use littlefs2_pure.Prelude.Int.{pos}
use littlefs2_pure.Crc
use littlefs2_pure.Tag
use littlefs2_pure.Tag.Kind
use littlefs2_pure.Tag.Kind.{ctz_struct}
use littlefs2_pure.Block.{BlockPair}
use littlefs2_pure.Storage.{Storage, read_or_io}
use littlefs2_pure.Meta.Reader
use littlefs2_pure.Meta.Reader.{MetadataReader, has_commits}
use littlefs2_pure.Meta.Pair.{rev_scmp, MetadataPair}
use littlefs2_pure.Meta.Iter
use littlefs2_pure.Ctz.{from_bytes}
use littlefs2_pure.Dir.{lookup_checked, regular_entry, Resolved}
use littlefs2_pure.Compact.Plan.{gather_live_slots}
use littlefs2_pure.FilePath.{FilePath}
use littlefs2_pure.Chase.Forest.{fetch_pair, hard_tail_of}
use littlefs2_pure.Resolve.{
  Run, returns, and_then, is_directory, ChainSeek, found, seek_entry_in_chain, resolve_parent,
  chase, chase_from, visit_seek,
}
use littlefs2_pure.File.Options.{OpenOptions, writable}
use littlefs2_pure.File.{File, FsOps, current}
use littlefs2_pure.File.Open.{open_file, find_target, Target, target_at, classify, existing_arm}
use littlefs2_pure.File.Open
use littlefs2_pure.File.Lengths
use littlefs2_pure.File.Session.{Call, read_call, write_call, len_call, seek_call, sync_call, run}
use littlefs2_pure.File.Session

-- A commit of a Create, the name "a" of a regular file, and a chain of 200 bytes from block 6.
abbrev chain_log : List ℕ
chain_log =
    0x1 ∷ 0x0 ∷ 0x0 ∷ 0x0 ∷ 0xbf ∷ 0xef ∷ 0xff ∷ 0xff ∷ 0x40 ∷ 0x0 ∷ 0x0 ∷ 0x1 ∷ 0x61 ∷ 0x20 ∷ 0x30
    ∷ 0x0 ∷ 0x9 ∷ 0x6 ∷ 0x0 ∷ 0x0 ∷ 0x0 ∷ 0xc8 ∷ 0x0 ∷ 0x0 ∷ 0x0 ∷ 0x70 ∷ 0x2f ∷ 0xfc ∷ 0xc ∷ 0xe9
    ∷ 0xfb ∷ 0xc8 ∷ 0x59 ∷ []

abbrev chain_device : Storage
chain_device = record {
  read_size = 1;
  block_size = 33;
  block_count = 8;
  read = λ block offset n. some chain_log;
}

abbrev root_pair : BlockPair
root_pair = record { a = 0; b = 1 }

-- The state counts the calls of the writers, which fail.
abbrev counting_ops : FsOps ℕ
counting_ops = record {
  storage = λ st. chain_device;
  root = λ st. root_pair;
  write_inline_to_pair = λ p name bs st. (err io, st + 1);
  stream_ctz_extend = λ c more st. (err io, st + 1);
  shrink_ctz_head = λ h n m st. (err io, st + 1);
  update_inline_at_id = λ p id bs st. (err io, st + 1);
  commit_update_ctz = λ p id h n st. (err io, st + 1);
  invalidate_alloc_cache = λ st. st + 1;
}

abbrev read_only : OpenOptions
read_only = record { read = true; write = false; append = false; truncate = false; create = false }

not_writable : writable read_only ≡ false
unfolding writable
not_writable = refl

abbrev path_a : FilePath
path_a = record { inner = 0x61 ∷ [] }

abbrev chain_reader : MetadataReader
chain_reader = record {
  block = chain_log;
  revision = 1;
  committed_end = 33;
  next_ptag = 0x500f_fc04;
  tail = none;
  is_hard_tail = false;
  erased = false;
}

abbrev chain_pair : MetadataPair
chain_pair = record {
  active_block = 0;
  alternate_block = 1;
  reader = chain_reader;
  alternate_valid = true;
}

chain_read : Reader.new chain_log ≡ ok chain_reader
unfolding Reader.new Reader.walk Reader.walk_step Reader.walk_ccrc Reader.scan_for_tail
    Reader.window_erased Reader.flip_parity le32_at be32_at slice Crc.update Crc.update_nibble
    Tag.dsize Tag.body_len Tag.is_valid Tag.is_ccrc Tag.tag_type Tag.ccrc_chunk Kind.from_bits
    Reader.walk_data Reader.pending_after
chain_read = refl

chain_fetched : fetch_pair chain_device root_pair ≡ ok chain_pair
unfolding fetch_pair read_or_io rev_scmp has_commits
chain_fetched = rw chain_read

abbrev chain_entry : Resolved
chain_entry = record {
  entry = record { id = 0; entry_name = 0x61 ∷ []; kind = regular_entry };
  struct_type = ctz_struct;
  struct_body = 0x6 ∷ 0x0 ∷ 0x0 ∷ 0x0 ∷ 0xc8 ∷ 0x0 ∷ 0x0 ∷ 0x0 ∷ [];
}

chain_found : lookup_checked chain_pair (0x61 ∷ []) ≡ ok (some chain_entry)
unfolding lookup_checked Iter.iter_tags Iter.collect Iter.next Tag.dsize Tag.body_len Tag.is_valid
    be32_at Tag.tag_type Kind.from_bits Tag.id Reader.flip_parity Tag.ccrc_chunk slice
chain_found = refl

sought :
    seek_entry_in_chain chain_device root_pair (0x61 ∷ [])
    ≡ returns (ok (found root_pair 0 regular_entry))
unfolding seek_entry_in_chain gather_live_slots hard_tail_of Iter.next Tag.dsize Tag.body_len
    Tag.is_valid be32_at Tag.tag_type Kind.from_bits Tag.id Reader.flip_parity Tag.ccrc_chunk slice
sought = rw (chase, chase_from, chase, chain_fetched, visit_seek, chain_found) refl

parent_found :
    resolve_parent chain_device root_pair path_a 33 33 ≡ returns (ok (root_pair, 0x61 ∷ []))
unfolding resolve_parent
parent_found = refl

abbrev chain_target : Target
chain_target = record {
  directory = root_pair;
  name = 0x61 ∷ [];
  owner = root_pair;
  existing = littlefs2_pure.File.Open.ctz 0 (record { head_block = 6; size = 200 });
}

at_target :
    target_at counting_ops 0 root_pair (0x61 ∷ []) (found root_pair 0 regular_entry)
    ≡ ok chain_target
unfolding target_at classify existing_arm from_bytes le32_at is_directory
at_target = rw (chain_fetched, chain_found) refl

abbrev at_pair : ChainSeek → Run Target
at_pair v = returns (target_at counting_ops 0 root_pair (0x61 ∷ []) v)

searched :
    find_target counting_ops path_a 33 33 0
    ≡ and_then (seek_entry_in_chain chain_device root_pair (0x61 ∷ [])) at_pair
unfolding find_target resolve_parent
searched = refl

target_found : find_target counting_ops path_a 33 33 0 ≡ returns (ok chain_target)
target_found =
    searched
    ∙ ap (λ (r : Run ChainSeek). and_then r at_pair) sought
    ∙ ap (λ (r : Result Target). returns r) at_target

-- The handle of the open.
abbrev opened_file : File
opened_file = record {
  parent = root_pair;
  id = 0;
  cursor = 0;
  head_block = 6;
  size = 200;
  dirty = false;
  options = read_only;
}

opened : open_file counting_ops path_a read_only 33 33 0 ≡ (returns (ok opened_file), 0)
unfolding open_file
opened = rw target_found refl

abbrev some_calls : List Call
some_calls =
    read_call (0 ∷ 0 ∷ [])
    ∷ write_call (7 ∷ [])
    ∷ seek_call (current (pos 4))
    ∷ len_call 2
    ∷ sync_call
    ∷ []

open_run_kept_example :
    (f' : File) × (run counting_ops 33 33 some_calls opened_file 0 ≡ some (f', 0))
    × (f' ≡ record opened_file { cursor = f'.cursor })
open_run_kept_example =
    Session.open_run_kept counting_ops path_a read_only 33 33 0 0 opened_file some_calls
      not_writable opened

open_file_read_only_example : (open_file counting_ops path_a read_only 33 33 0).1 ≡ 0
open_file_read_only_example =
    Open.open_file_read_only counting_ops path_a read_only 33 33 0 not_writable

-- A handle that may write.
abbrev open_for_writing : File
open_for_writing = record opened_file { options = record read_only { write = true }; cursor = 150 }
