-- ===== src/Alloc/Single.antt =====
-- `scan_used_with_single_buf` of src/alloc.rs: the walk that reads one block at a time, and takes
-- every tag of both blocks of a pair as it stands.
use littlefs2_pure.Prelude.{
  ℕ, Bool, true, false, ◌&&◌, List, [], ◌∷◌, ◌++◌, ltb, leb, ◌==◌, if◌then◌else◌, length, Result,
  ok, err, ◌>>=◌, out_of_range, geometry_mismatch,
}
use littlefs2_pure.Prelude.Bytes.{le32_at}
use littlefs2_pure.Block.{BlockPair, is_null}
use littlefs2_pure.Tag
use littlefs2_pure.Tag.Kind.{TagType, dir_struct, ctz_struct, hard_tail, soft_tail}
use littlefs2_pure.Meta.Reader
use littlefs2_pure.Meta.Reader.{has_commits}
use littlefs2_pure.Meta.Iter.{TagEntry, iter_tags}
use littlefs2_pure.Storage.{Storage, read_or_io}
use littlefs2_pure.Dir.{replay}
use littlefs2_pure.Alloc.{Bitmap, mark}
use littlefs2_pure.Alloc.Scan.{
  max_queued_pairs, walk_ctz_chain, collect_child, search_queue, finished,
}

-- The pairs to be visited and the chains to be walked.
pub record Found : Type 0 where
  pub children : List BlockPair
  pub chains : List (ℕ × ℕ)

-- A tag that names a pair; an all ones tail is the end of the thread.
unfoldable pub raw_pair : Storage → Bitmap → Bool → List ℕ → Found → Result Found
unfolding collect_child is_null
raw_pair s used is_tail body found =
    let child : BlockPair = record { a = le32_at body 0; b = le32_at body 4 } in
    if is_tail && is_null child
    then ok found
    else collect_child s used child found.children >>= λ children.
        ok (record { children = children; chains = found.chains })

unfoldable pub raw_chain : List ℕ → Found → Result Found
raw_chain body found =
    if leb max_queued_pairs (length found.chains)
    then err out_of_range
    else ok (record {
      children = found.children;
      chains = found.chains ++ ((le32_at body 0, le32_at body 4) ∷ []);
    })

-- The arms of the match on a tag whose body has eight bytes.
unfoldable pub raw_arm : Storage → Bitmap → TagType → List ℕ → Found → Result Found
unfolding raw_pair raw_chain
raw_arm s used dir_struct body found = raw_pair s used false body found
raw_arm s used hard_tail body found = raw_pair s used true body found
raw_arm s used soft_tail body found = raw_pair s used true body found
raw_arm s used ctz_struct body found = raw_chain body found
raw_arm s used t body found = ok found

unfoldable pub raw_step : Storage → Bitmap → TagEntry → Found → Result Found
unfolding raw_arm
raw_step s used e found =
    if length e.body == 8 then raw_arm s used (Tag.tag_type e.tag) e.body found else ok found

-- One block of the pair: a block with no revision or no commit is passed over.
unfoldable pub raw_block : Storage → Bitmap → ℕ → Found → Result Found
unfolding read_or_io replay raw_step
raw_block s used block found = read_or_io s block 0 s.block_size >>= λ bytes.
    elim (Reader.new bytes) [
      | err e ↦ ok found
      | ok reader ↦
          (if has_commits reader
            then replay (raw_step s used) (iter_tags reader) found
            else ok found)
    ]

unfoldable pub walk_chains : Storage → List (ℕ × ℕ) → Bitmap → Result Bitmap
unfolding walk_ctz_chain
walk_chains s [] used = ok used
walk_chains s ((head, size) ∷ rest) used =
    walk_ctz_chain s head size used >>= λ used'. walk_chains s rest used'

unfoldable pub visit_raw : Storage → BlockPair → Bitmap → Result (Bitmap × List BlockPair)
unfolding raw_block walk_chains
visit_raw s pair used = do
  used_a ← mark pair.a used
  used_b ← mark pair.b used_a
  first ← raw_block s used_b pair.a (record { children = []; chains = [] })
  both ← raw_block s used_b pair.b first
  walked ← walk_chains s both.chains used_b
  ok (walked, both.children)

unfoldable pub scan_used_with_single_buf : Storage → BlockPair → ℕ → Bitmap → Result Bitmap
unfolding visit_raw search_queue finished
scan_used_with_single_buf s root len used =
    if ltb len s.block_size
    then err geometry_mismatch
    else finished (search_queue (visit_raw s) max_queued_pairs (root ∷ []) 1 used)
