-- ===== src/Meta/Commit.antt =====
-- `Commit` of src/meta.rs: the builder of the commits of a block. The borrowed buffer is a field of
-- the state, and a method that fails leaves it as it was.
pub mod Written
pub mod Session
use littlefs2_pure.Prelude.{
  ℕ, zero, suc, some, ◌+◌, ◌-◌, ◌*◌, ◌/◌, ◌^◌, min, bit_xor, Bool, true, not, ◌&&◌, List, [], ◌∷◌,
  ◌++◌, leb, ltb, ◌==◌, if◌then◌else◌, length, Result, ok, err, ◌>>=◌, ◌>>◌, guard, out_of_range,
  invalid_tag,
}
use littlefs2_pure.Prelude.Words.{u16, u32}
use littlefs2_pure.Prelude.Bytes.{slice, copy_at, to_le32, to_be32}
use littlefs2_pure.Crc
use littlefs2_pure.Tag
use littlefs2_pure.Tag.Kind.{TagType, commit_crc, forward_crc}
use littlefs2_pure.Meta.Reader.{flip_parity}

pub record Commit : Type 0 where
  pub buf : List ℕ
  pub offset : ℕ
  pub ptag : ℕ
  pub crc : ℕ

unfoldable pub new : List ℕ → ℕ → Result Commit
new buf revision =
    if ltb (length buf) 8
    then err out_of_range
    else (let buf' = copy_at buf 0 (to_le32 revision) in
        ok (record {
          buf = buf';
          offset = 4;
          ptag = 0xffff_ffff;
          crc = Crc.update Crc.init (slice buf' 0 4);
        }))

unfoldable pub new_appending : List ℕ → ℕ → ℕ → Result Commit
new_appending buf offset ptag =
    if ltb (length buf) (offset + 8)
    then err out_of_range
    else ok (record { buf = buf; offset = offset; ptag = ptag; crc = Crc.init })

-- `if !body.is_empty() { buf[off..].copy_from_slice(body) }`
unfoldable pub write_body : List ℕ → ℕ → List ℕ → List ℕ
write_body buf off [] = buf
write_body buf off (b ∷ rest) = copy_at buf off (b ∷ rest)

unfoldable pub tag : Commit → ℕ → List ℕ → Result Commit
tag c t body =
    let raw = bit_xor t c.ptag in
    if Tag.is_ccrc t
    then err invalid_tag
    else if not (length body == Tag.body_len t)
    then err invalid_tag
    else if ltb (length c.buf) (c.offset + Tag.dsize t)
    then err out_of_range
    else ok (record {
      buf = write_body (copy_at c.buf c.offset (to_be32 raw)) (c.offset + 4) body;
      offset = c.offset + Tag.dsize t;
      ptag = t;
      crc = Crc.update (Crc.update c.crc (to_be32 raw)) body;
    })

-- The word of a commit CRC and the CRC itself, which covers the word; the CRC restarts after it.
unfoldable pub put_ccrc : Commit → ℕ → ℕ → ℕ → Commit
put_ccrc c chunk ccrc_tag end =
    let raw = bit_xor ccrc_tag c.ptag in
    let crc = Crc.update c.crc (to_be32 raw) in
    record {
      buf = copy_at (copy_at c.buf c.offset (to_be32 raw)) (c.offset + 4) (to_le32 crc);
      offset = end;
      ptag = flip_parity ccrc_tag (some chunk);
      crc = Crc.init;
    }

unfoldable pub finish : Commit → ℕ → Result Commit
finish c chunk =
    if ltb (length c.buf) (c.offset + 8)
    then err out_of_range
    else ok (put_ccrc c chunk (Tag.new true (commit_crc chunk) 0x3ff 4) (c.offset + 8))

-- `target.div_ceil(prog_size) * prog_size`
abbrev pub align_up : ℕ → ℕ → ℕ
align_up target unit = (target + (unit - 1)) / unit * unit

-- The CRC of `n` bytes of 0xff.
pub erased_crc : ℕ → ℕ → ℕ
erased_crc zero crc = crc
erased_crc (suc n) crc = erased_crc n (Crc.update crc (0xff ∷ []))

pub emit_fcrc : Commit → ℕ → Result Commit
unfolding erased_crc
emit_fcrc c prog_size =
    tag c (Tag.new true forward_crc 0x3ff 8)
      (to_le32 (u32 prog_size) ++ to_le32 (erased_crc prog_size Crc.init))

pub emit_padded_ccrc : Commit → ℕ → ℕ → Result Commit
emit_padded_ccrc c chunk end =
    let body_len = end - c.offset - 4 in
    if ltb 0x3fe body_len
    then err out_of_range
    else if ltb (length c.buf) (c.offset + 4 + body_len)
    then err out_of_range
    else ok (put_ccrc c chunk (Tag.new true (commit_crc chunk) 0x3ff (u16 body_len)) end)

pub finish_padded : Commit → ℕ → ℕ → ℕ → Result Commit
unfolding emit_fcrc emit_padded_ccrc
finish_padded c chunk prog_size block_size =
    let target = min (c.offset + 20) block_size in
    let end = align_up target prog_size in
    if prog_size == 0
    then finish c chunk
    else if ltb block_size end
    then err out_of_range
    else if ltb end (c.offset + 8)
    then err out_of_range
    else if leb (c.offset + 20) end && leb (end + prog_size) block_size
    then (do c' ← emit_fcrc c prog_size; emit_padded_ccrc c' chunk end)
    else emit_padded_ccrc c chunk end
