-- ===== src/Lib.antt =====
-- littlefs2-pure in Rust: the on-disk format of LittleFS v2, and its readers and writers. This
-- library models the pure core of the crate, module by module.
--
-- Numbers are native naturals; a u32 or a u8 is the natural below 2 ^ 32 or 256 that it stands
-- for, with the source's masks and wraps written out in Prelude.Words. A byte slice is a list
-- (Prelude.Bytes); a range of a slice that the source has checked is `slice`, and
-- `copy_from_slice` into a range is `copy_at`. `Result` and `Error` are those of src/error.rs,
-- except that the payload free variants carry no text.
--
-- Crc is src/crc.rs. Tag is src/tag.rs, with `TagType` in Tag.Kind and `AbstractType` in
-- Tag.Abstract. Block is src/block.rs, Geometry is src/geometry.rs, Gstate is src/gstate.rs. Meta
-- is src/meta.rs: `MetadataReader::new` and `scan_for_tail` in Meta.Reader, the two tag iterators
-- in Meta.Iter, the builder `Commit` in Meta.Commit, `rev_scmp` and `MetadataPair::parse` in
-- Meta.Pair. Meta.Encoding states the format of a commit apart from its reader and its writer.
--
-- Storage is src/storage.rs: the device is a parameter, a record of its constants and of the
-- outcome of each read, and `read_range` is built on it; a usize is that of the 32 bit targets.
-- Ctz is src/ctz.rs, with the place of an offset in Ctz.Index, the descent in Ctz.Seek and the
-- codec in Ctz.Codec; Ctz.Blocks, Ctz.Contents and Ctz.Cut say what it is for a device to hold a
-- file. Dir is src/dir.rs: `splice_step` and the walkers that feed it the tags of
-- Meta.Iter; Dir.Refine relates the slot array to the list of the live entries, and Dir.Agree the
-- two walkers. Superblock is src/superblock.rs, on the replay loop of Dir.
--
-- Chase is the part of src/fs.rs that follows tails: the bounds check and the fetch of a pair,
-- and `BrentTailWalk`, whose walk along a sequence of pairs is `follow` of Chase.Cycle;
-- Chase.Forest has the walks over the forest and the thread that mount, recovery and relocation
-- use. Alloc is src/alloc.rs: `Bitmap` in Alloc, the forest scan in Alloc.Scan and, with a single
-- buffer, in Alloc.Single, `take_free_blocks` in Alloc.Take and the allocators in Alloc.Cached;
-- Alloc.Granted says what an allocation promises. FilePath is src/path.rs, with the string
-- operations of the language in FilePath.Strings; FilePath.Ancestor is the ancestor test of
-- src/fs.rs. Compact is the part of src/fs.rs that turns a write into tags: `WriteOp`, `emit_op`
-- and the staged attributes in Compact, `gather_live_slots` and `slot_plan` in Compact.Plan,
-- `emit_compact_range` and `build_compact_commit` in Compact.Rebuild, with the sink of the tags
-- as a parameter, and `compute_split_index` in Compact.Split. Dir.Attrs has the attribute walks
-- of src/dir.rs, whose signed counter is an integer of Prelude.Int.
--
-- Nor is src/nor.rs: the adapter over a device that is a parameter, with a failed `expect` as the
-- outcome `panicked`; Nor.Calls runs sequences of calls.
--
-- Resolve is the reading side of src/fs.rs: the loops along the hard tails of a directory
-- (`seek_entry_in_chain`, `find_dir_pair`, the leaf of `resolve`, `list_pair_chain`) are rounds of
-- one loop, `chase`, whose outcome is a `Run`: `stuck` where the fuel ran out, `panics` where an
-- `expect` failed, `returns` otherwise. Resolve.Contents has the entry points that read from a
-- path: `read_at_path`, `size_of`, `tail_room` and `get_attr`.
--
-- File is src/file.rs: the options in File.Options, the open in File.Open, and the methods of a
-- handle in File. A handle reads through Resolve and Ctz (File.Reading); what it asks of the
-- writers of src/fs.rs is the record `FsOps`, about which nothing is assumed: a writer takes the
-- state of the file system and returns any other with any outcome. File.Lengths has the ends of a
-- change of the length, and File.Session the calls on a handle in any order.
-- File.Shrink is one of these writers, `shrink_ctz_head`, over a device that is written
-- (File.Disk) and the allocator of Alloc.Cached; its retries are a recursion on the eight that
-- the source allows.
--
-- Mount is `Fs::mount` with its recovery and its sweep, where a commit to a pair is an operation
-- of the record `FsCommits` about which only the number of blocks is assumed, and that where a
-- theorem says so.
--
-- Loops over a slice are recursions on the list. The loops of src/meta.rs take fuel: every round
-- advances the offset by at least four bytes and stops outside the block, so one unit more than
-- the block's length is enough, and Meta.Reader.Walk and Meta.Encoding.Iterate prove that any two
-- sufficient amounts agree.
--
-- The descent of `seek_block` takes the gap as fuel, since every hop shortens it by at least one;
-- the walk from a chain's head is a recursion on the block index. The scan of the forest takes
-- its queue's 32 places as fuel, since a round takes one pair out and the queue holds 32 in all
-- (Alloc.Bounded); the walks of Chase.Forest take one unit more, for the round that finds the
-- queue's end. The loops of Resolve take three times the number of blocks and three more: the
-- walk of `BrentTailWalk` meets a ring within three times the pairs that a device can have. The
-- sweep of Mount is a recursion on the 128 steps that the source allows it. The iterator over a
-- path's components takes the length of what remains and one more, since a component shortens it
-- (FilePath.Split). The choice of a split takes the length of its range and one more, since every
-- round moves the split on.
--
-- Not modelled: the formatting impls, debug assertions, the Kani harnesses of src/verify, the
-- tests, the C tools; of src/fs.rs the dispatch of a commit (`apply_op_to_pair_inner`), the
-- extension of a chain (`stream_ctz_extend`), `format`, and the entry points that change the tree
-- (`mkdir`, `rename`, `remove` and the like); the device itself, which is a parameter.
pub mod Prelude
pub mod Crc
pub mod Tag
pub mod Block
pub mod Geometry
pub mod Gstate
pub mod Storage
pub mod Ctz
pub mod Meta
pub mod Dir
pub mod Superblock
pub mod Chase
pub mod Alloc
pub mod FilePath
pub mod Compact
pub mod Nor
pub mod Resolve
pub mod File
pub mod Mount
pub mod Examples
