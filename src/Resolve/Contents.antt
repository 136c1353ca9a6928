-- ===== src/Resolve/Contents.antt =====
-- The reading entry points of src/fs.rs that start from a path: `read_at_path`, `size_of`,
-- `tail_room` and `get_attr`. A destination buffer is a list, and the one that comes back has what
-- was copied at its front.
use littlefs2_pure.Prelude.{
  ℕ, ◌+◌, ◌-◌, ◌*◌, ◌^◌, ◌≤◌, ◌<◌, ◌≡◌, refl, sym, ap, ◌∙◌, suc, false, not, ◌||◌, Option, none,
  some, List, ltb, leb, ◌==◌, if◌then◌else◌, length, take, min, Result, ok, err, ◌>>=◌, corrupt,
  already_exists, out_of_range, not_found, geometry_mismatch, arith,
}
use littlefs2_pure.Prelude.Words.{u32, sub32, sub32_exact}
use littlefs2_pure.Prelude.Bytes.{slice, copy_at}
use littlefs2_pure.Block.{BlockPair}
use littlefs2_pure.Storage.{Storage}
use littlefs2_pure.Tag.Kind.{TagType, inline_struct, ctz_struct}
use littlefs2_pure.Ctz.{
  CtzStruct, from_bytes, skip_pointers_in_block, content_bytes_in_block, block_index_at_offset,
  block_count, read_ctz_at,
}
use littlefs2_pure.Ctz.Contents.{by_count}
use littlefs2_pure.Ctz.Index.{content_before, IsPlace, block_index_at_offset-content_before}
use littlefs2_pure.Dir.Attrs.{attr_get}
use littlefs2_pure.FilePath.{FilePath}
use littlefs2_pure.Chase.Forest.{fetch_pair}
use littlefs2_pure.Resolve.{
  Run, returns, and_then, is_directory, ResolvedPath, resolve, resolve_parent, ChainSeek, found,
  absent, seek_entry_in_chain,
}

-- `Layout`, with the body of an inline file.
pub data Layout : Type 0 where
  inline : List ℕ → Layout
  ctz : CtzStruct → Layout

unfoldable pub layout_arm : TagType → List ℕ → Result Layout
unfolding from_bytes
layout_arm inline_struct body =
    if ltb 1024 (length body) then err out_of_range else ok (inline body)
layout_arm ctz_struct body = from_bytes body >>= λ c. ok (ctz c)
layout_arm t body = err corrupt

unfoldable pub layout_of : ResolvedPath → Result Layout
unfolding layout_arm
layout_of r =
    if is_directory r.entry.kind then err already_exists else layout_arm r.struct_type r.struct_body

unfoldable pub read_layout : Storage → ℕ → List ℕ → ℕ → Layout → Result (List ℕ × ℕ)
unfolding read_ctz_at
read_layout s offset out len_a (inline body) =
    let n = min (length body - offset) (length out) in
    if leb (length body) offset then ok (out, 0) else ok (copy_at out 0 (slice body offset n), n)
read_layout s offset out len_a (ctz c) = read_ctz_at s c offset out len_a

unfoldable pub read_at_path : Storage → BlockPair → FilePath → ℕ → List ℕ → ℕ → ℕ → Run (List ℕ × ℕ)
unfolding resolve layout_of read_layout
read_at_path s root path offset out len_a len_b =
    if not (len_a == s.block_size) || not (len_b == s.block_size)
    then returns (err geometry_mismatch)
    else and_then (resolve s root path len_a len_b)
        λ r. returns (layout_of r >>= read_layout s offset out len_a)

unfoldable pub size_arm : TagType → List ℕ → Result ℕ
unfolding from_bytes
size_arm inline_struct body = ok (u32 (length body))
size_arm ctz_struct body = from_bytes body >>= λ c. ok c.size
size_arm t body = err corrupt

unfoldable pub entry_size : ResolvedPath → Result ℕ
unfolding size_arm
entry_size r =
    if is_directory r.entry.kind then err already_exists else size_arm r.struct_type r.struct_body

unfoldable pub size_of : Storage → BlockPair → FilePath → ℕ → ℕ → Run ℕ
unfolding resolve entry_size
size_of s root path len_a len_b =
    and_then (resolve s root path len_a len_b) λ r. returns (entry_size r)

-- The room in block `tail_idx`, whose last byte in use is at `abs_off`, by u32 arithmetic.
unfoldable pub room_in : ℕ → ℕ → ℕ → ℕ
room_in bs tail_idx abs_off =
    let header = 4 * skip_pointers_in_block tail_idx in
    sub32 (content_bytes_in_block tail_idx bs) (sub32 (u32 (abs_off + 1)) header)

unfoldable pub chain_room : ℕ → ℕ → ℕ
chain_room bs size =
    if size == 0
    then 0
    else room_in bs (block_count size bs - 1) (block_index_at_offset (size - 1) bs).1

unfoldable pub room_arm : Storage → TagType → List ℕ → Result ℕ
unfolding from_bytes chain_room
room_arm s inline_struct body = ok 0
room_arm s ctz_struct body = from_bytes body >>= λ c. ok (chain_room (u32 s.block_size) c.size)
room_arm s t body = err corrupt

unfoldable pub tail_room : Storage → BlockPair → FilePath → ℕ → ℕ → Run ℕ
unfolding resolve room_arm
tail_room s root path len_a len_b = and_then (resolve s root path len_a len_b) λ r. returns (
    if is_directory r.entry.kind
    then err already_exists
    else room_arm s r.struct_type r.struct_body)

-- The value and the count of the bytes that are copied from it.
unfoldable pub copy_value : List ℕ → Option (List ℕ) → List ℕ × ℕ
copy_value out none = (out, 0)
copy_value out (some body) =
    let n = min (length body) (length out) in (copy_at out 0 (take n body), n)

unfoldable pub seek_attr : Storage → ℕ → List ℕ → ChainSeek → Result (List ℕ × ℕ)
unfolding fetch_pair attr_get copy_value
seek_attr s attr_id out (absent q count) = err not_found
seek_attr s attr_id out (found q id kind) =
    fetch_pair s q >>= λ pair. ok (copy_value out (attr_get pair.reader id attr_id))

unfoldable pub get_attr : Storage → BlockPair → FilePath → ℕ → List ℕ → ℕ → ℕ → Run (List ℕ × ℕ)
unfolding resolve_parent seek_entry_in_chain seek_attr
get_attr s root path attr_id out len_a len_b =
    and_then (resolve_parent s root path len_a len_b)
      λ p. and_then (seek_entry_in_chain s p.0 p.1) λ v. returns (seek_attr s attr_id out v)

room_at :
    (bs size i off : ℕ)
    → bs < 2 ^ 32
    → 0 < size
    → IsPlace bs (size - 1) i off
    → content_before bs (suc i) ≡ size + room_in bs i off
unfolding content_before room_in content_bytes_in_block
room_at bs size i off k pos (at, past, inside) =
    let cap = sub32_exact bs (4 * skip_pointers_in_block i) (omega arith) k in
    let word : u32 (off + 1) ≡ off + 1 = omega arith in
    let used = sub32_exact (off + 1) (4 * skip_pointers_in_block i) (omega arith) (omega arith) in
    let room =
      sub32_exact (bs - 4 * skip_pointers_in_block i) (off + 1 - 4 * skip_pointers_in_block i)
        (omega arith) (omega arith) in
    rw (word, cap, used, room) (omega arith)

by_room :
    (bs size : ℕ)
    → 0 < size
    → chain_room bs size
      ≡ room_in bs (block_index_at_offset (size - 1) bs).0 (block_index_at_offset (size - 1) bs).1
unfolding chain_room
by_room bs size pos =
    let positive : (size == 0) ≡ false = ground arith in
    let count = by_count size bs pos in
    let last : block_count size bs - 1 ≡ (block_index_at_offset (size - 1) bs).0 = omega arith in
    rw (positive, last) refl

-- The blocks of a file of `size` bytes hold exactly its bytes and the room that is reported.
pub chain_room-content_before :
    (bs size : ℕ)
    → 128 ≤ bs
    → bs < 2 ^ 32
    → size < 2 ^ 32
    → 0 < size
    → content_before bs (block_count size bs) ≡ size + chain_room bs size
chain_room-content_before bs size h k l pos =
    let place = block_index_at_offset (size - 1) bs in
    let room =
      room_at bs size place.0 place.1 k pos
        (block_index_at_offset-content_before (size - 1) bs h k (omega arith)) in
    let count : block_count size bs ≡ suc place.0 = by_count size bs pos in
    ap (content_before bs) count ∙ room ∙ ap (λ n. size + n) (sym (by_room bs size pos))
