-- ===== src/Examples/Volumes.antt =====
-- `mount` on a device whose two root blocks hold the superblock's commit.
use littlefs2_pure.Prelude.{
  ℕ, ◌≡◌, refl, sym, ap, ◌∙◌, arith, List, [], ◌∷◌, replicate, none, some, false, true, ok, err,
  not_found,
}
use littlefs2_pure.Block.{BlockPair}
use littlefs2_pure.Prelude.Bytes.{slice, be32_at, le32_at}
use littlefs2_pure.Crc
use littlefs2_pure.Tag
use littlefs2_pure.Tag.Kind
use littlefs2_pure.Geometry.{validate, validate_iff}
use littlefs2_pure.Gstate.{
  gstate_zero, xor_body, xor_relocate_body, pending_move, pending_relocation,
}
use littlefs2_pure.Storage.{Storage, read_or_io}
use littlefs2_pure.Meta.Reader
use littlefs2_pure.Meta.Reader.{MetadataReader, has_commits}
use littlefs2_pure.Meta.Iter.{next, collect, iter_tags, iter_tags_rev, next_rev, collect_rev}
use littlefs2_pure.Meta.Pair.{MetadataPair, parse, rev_scmp}
use littlefs2_pure.Dir.{replay, same_name}
use littlefs2_pure.Superblock.{
  Superblock, from_bytes, from_pair, scan_step, scan_arm, admit, check_version, major_version,
  minor_version,
}
use littlefs2_pure.Compact.Plan.{gather_live_slots}
use littlefs2_pure.Chase.Forest.{
  fetch_pair, accumulate_gstate, collect_live_tree_pairs, walk_queue, scan_pair_move_state,
  scan_pair_relocate_state,
}
use littlefs2_pure.Resolve.{returns}
use littlefs2_pure.Mount.{FsCommits, root_block_pair, open_volume, mount}
use littlefs2_pure.Mount.Gate
use littlefs2_pure.Mount.Gate.{IsVolume, device_of}
use littlefs2_pure.Mount.Healthy
use littlefs2_pure.Mount.Healthy.{OnThread, root, behind, IsSettled}
use littlefs2_pure.Mount.Ends
use littlefs2_pure.Mount.Ends.{Ends, IsFixed}

-- The superblock's commit, in an erased block of 128 bytes.
abbrev root_log : List ℕ
root_log =
    0x1
    ∷ 0
    ∷ 0
    ∷ 0
    ∷ 0xf0
    ∷ 0xf
    ∷ 0xff
    ∷ 0xf7
    ∷ 0x6c
    ∷ 0x69
    ∷ 0x74
    ∷ 0x74
    ∷ 0x6c
    ∷ 0x65
    ∷ 0x66
    ∷ 0x73
    ∷ 0x2f
    ∷ 0xe0
    ∷ 0
    ∷ 0x10
    ∷ 0x1
    ∷ 0
    ∷ 0x2
    ∷ 0
    ∷ 0x80
    ∷ 0
    ∷ 0
    ∷ 0
    ∷ 0x10
    ∷ 0
    ∷ 0
    ∷ 0
    ∷ 0xff
    ∷ 0
    ∷ 0
    ∷ 0
    ∷ 0
    ∷ 0
    ∷ 0
    ∷ 0
    ∷ 0
    ∷ 0
    ∷ 0
    ∷ 0
    ∷ 0x70
    ∷ 0x1f
    ∷ 0xfc
    ∷ 0x1c
    ∷ 0x86
    ∷ 0xc2
    ∷ 0x91
    ∷ 0x6
    ∷ replicate 76 0xff

abbrev root_device : Storage
root_device = record {
  read_size = 16;
  block_size = 128;
  block_count = 16;
  read = λ block offset n. some root_log;
}

abbrev volume : Superblock
volume = record {
  version = 0x0002_0001;
  block_size = 128;
  block_count = 16;
  name_max = 255;
  file_max = 0;
  attr_max = 0;
}

-- The state is the device, which refuses every commit.
abbrev refusing : FsCommits Storage
refusing = record {
  prog_size = 16;
  storage = λ st. st;
  commit = λ p op ms rs t st. (err not_found, st);
  drop_cache = λ st. st;
}

abbrev root_reader : MetadataReader
root_reader = record {
  block = root_log;
  revision = 1;
  committed_end = 52;
  next_ptag = 0x500f_fc04;
  tail = none;
  is_hard_tail = false;
  erased = false;
}

abbrev root_pair : MetadataPair
root_pair = record {
  active_block = 0;
  alternate_block = 1;
  reader = root_reader;
  alternate_valid = true;
}

root_read : Reader.new root_log ≡ ok root_reader
unfolding Reader.new Reader.walk Reader.walk_step Reader.walk_ccrc Reader.scan_for_tail
    Reader.window_erased Reader.flip_parity le32_at be32_at slice Crc.update Crc.update_nibble
    Tag.dsize Tag.body_len Tag.is_valid Tag.is_ccrc Tag.tag_type Tag.ccrc_chunk Kind.from_bits
    Reader.walk_data Reader.pending_after
root_read = refl

root_fetched : fetch_pair root_device root_block_pair ≡ ok root_pair
unfolding fetch_pair read_or_io rev_scmp has_commits
root_fetched = rw root_read

superblock_read : from_pair root_pair ≡ ok volume
unfolding from_pair scan_step scan_arm admit check_version major_version minor_version from_bytes
    replay same_name iter_tags collect next slice be32_at le32_at Tag.dsize Tag.body_len
    Tag.is_valid Tag.tag_type Tag.id Kind.from_bits Reader.flip_parity Tag.ccrc_chunk
superblock_read = refl

valid : validate (device_of root_device 16) ≡ ok tt
valid = (validate_iff (device_of root_device 16)).1 (omega arith)

opened : open_volume root_device 16 128 128 ≡ ok volume
unfolding open_volume parse rev_scmp has_commits
opened = rw (valid, root_read, superblock_read) refl

no_states :
    (scan_pair_move_state root_pair ≡ replicate 12 0)
    × (scan_pair_relocate_state root_pair ≡ replicate 16 0)
unfolding scan_pair_move_state scan_pair_relocate_state iter_tags_rev next_rev collect_rev slice
    be32_at Tag.dsize Tag.body_len Tag.is_valid Tag.tag_type Tag.id Kind.from_bits
no_states = (refl, refl)

aggregated : accumulate_gstate root_device root_block_pair ≡ some (ok gstate_zero)
unfolding accumulate_gstate xor_body xor_relocate_body gather_live_slots next slice be32_at le32_at
    Tag.dsize Tag.body_len Tag.is_valid Tag.tag_type Tag.id Kind.from_bits Reader.flip_parity
    Tag.ccrc_chunk
aggregated = rw (walk_queue, root_fetched, no_states.0, no_states.1) refl

collected : collect_live_tree_pairs root_device root_block_pair ≡ some (ok (root_block_pair ∷ []))
unfolding collect_live_tree_pairs gather_live_slots next slice be32_at le32_at Tag.dsize
    Tag.body_len Tag.is_valid Tag.tag_type Tag.id Kind.from_bits Reader.flip_parity Tag.ccrc_chunk
collected = rw (walk_queue, root_fetched) refl

only_root : (p : BlockPair) → OnThread root_device p → p ≡ root_block_pair
only_root p root = refl
only_root p (behind {p = q} pair on f e) =
    let here = only_root q on in
    let same : ok pair ≡ ok root_pair = sym f ∙ ap (fetch_pair root_device) here ∙ root_fetched in
    let pairs : pair ≡ root_pair = cc in
    let ended : pair.reader.tail ≡ none = ap (λ (m : MetadataPair). m.reader.tail) pairs in
    let failed : none ≡ some p = sym ended ∙ e in absurd (cc)

root_device-IsSettled : IsSettled root_device
unfolding pending_move pending_relocation
root_device-IsSettled = record {
  no_move = λ g e.
      let same : some (ok gstate_zero) ≡ some (ok g) = sym aggregated ∙ e in
      let at : gstate_zero ≡ g = cc in ap pending_move (sym at);
  no_relocation = λ g e.
      let same : some (ok gstate_zero) ≡ some (ok g) = sym aggregated ∙ e in
      let at : gstate_zero ≡ g = cc in ap pending_relocation (sym at);
  threaded = λ tree p t pair c on f e.
      let here = only_root p on in
      let same : ok pair ≡ ok root_pair = sym f ∙ ap (fetch_pair root_device) here ∙ root_fetched in
      let pairs : pair ≡ root_pair = cc in
      let ended : pair.reader.tail ≡ none = ap (λ (m : MetadataPair). m.reader.tail) pairs in
      let failed : none ≡ some t = sym ended ∙ e in absurd (cc);
}

mount_kept_example : (mount refusing 128 128 root_device).1 ≡ root_device
mount_kept_example = Healthy.mount_kept refusing 128 128 root_device root_device-IsSettled

mounted : mount refusing 128 128 root_device ≡ (returns (ok volume), root_device)
unfolding pending_move pending_relocation
mounted =
    Healthy.mount_alone refusing 128 128 root_device volume gstate_zero (root_block_pair ∷ [])
      root_pair opened aggregated refl refl collected root_fetched refl

mount-IsVolume_example : IsVolume root_device 16 volume
mount-IsVolume_example = Gate.mount-IsVolume refusing 128 128 root_device root_device volume mounted

refusing-IsFixed : IsFixed refusing
refusing-IsFixed = record { commit_keeps = λ p op ms rs t st. refl; drop_keeps = λ st. refl }

mount-Ends_example : Ends refusing refusing-IsFixed (mount refusing 128 128 root_device)
mount-Ends_example = Ends.mount-Ends refusing refusing-IsFixed 128 128 root_device (omega arith)
