-- ===== src/Compact/Appended.antt =====
-- What an append of an operation's tags takes, against `op_dsize_of`.
use littlefs2_pure.Prelude.{
  ℕ, ◌+◌, ◌≡◌, true, List, [], ◌∷◌, length, length-append, ok, chain_ok, arith,
}
use littlefs2_pure.Prelude.Bytes.{to_le32, length-to_le32}
use littlefs2_pure.Prelude.Words.{u16}
use littlefs2_pure.Tag
use littlefs2_pure.Tag.Kind.{TagType}
use littlefs2_pure.Meta.Commit
use littlefs2_pure.Meta.Commit.{Commit}
use littlefs2_pure.Compact.{
  StagedAttrs, staged, attrs_size, staged_dsize, WriteOp, two_words, put_sized, put_attrs,
  put_entry, emit_op, op_dsize_of,
}

-- A tag that is written takes its word and the body.
pub tag-offset :
    (c c' : Commit) (t : ℕ) (body : List ℕ)
    → Commit.tag c t body ≡ ok c'
    → c'.offset ≡ c.offset + (4 + length body)
unfolding Commit.tag Tag.dsize
tag-offset c c' t body e = ground arith

length-two_words : (w0 w1 : ℕ) → length (two_words w0 w1) ≡ 8
unfolding two_words
length-two_words w0 w1 =
    omega (arith, length-append (to_le32 w0) (to_le32 w1), length-to_le32 w0, length-to_le32 w1)

put_sized-offset :
    (kind : TagType) (id : ℕ) (body : List ℕ) (c c' : Commit)
    → put_sized Commit.tag kind id body c ≡ ok c'
    → c'.offset ≡ c.offset + (4 + length body)
unfolding put_sized
put_sized-offset kind id body c c' e =
    tag-offset c c' (Tag.new true kind id (u16 (length body))) body e

put_attrs-offset :
    (id : ℕ) (attrs : List (ℕ × List ℕ)) (c c' : Commit)
    → put_attrs Commit.tag id attrs c ≡ ok c'
    → c'.offset ≡ c.offset + attrs_size attrs
unfolding put_attrs attrs_size
put_attrs-offset id [] c c' e = ground arith
put_attrs-offset id ((a, v) ∷ rest) c c' e =
    let (c1, one, more) =
      chain_ok (put_sized Commit.tag (TagType.user_attr a) id v c) (put_attrs Commit.tag id rest)
        e in
    omega (
      arith,
      put_sized-offset (TagType.user_attr a) id v c c1 one,
      put_attrs-offset id rest c1 c' more,
    )

put_entry-offset :
    (id : ℕ) (kind : TagType) (entry_name : List ℕ) (struct_kind : TagType) (len : ℕ)
    (body : List ℕ) (attrs : StagedAttrs) (c c' : Commit)
    → put_entry Commit.tag id kind entry_name struct_kind len body attrs c ≡ ok c'
    → c'.offset ≡ c.offset + (4 + (4 + length entry_name) + (4 + length body) + staged_dsize attrs)
unfolding put_entry staged_dsize
put_entry-offset id kind entry_name struct_kind len body attrs c c' e =
    let t1 = Tag.new true TagType.create id 0 in
    let t3 = Tag.new true struct_kind id len in
    let (c1, e1, r1) = chain_ok (Commit.tag c t1 []) _ e in
    let (c2, e2, r2) = chain_ok (put_sized Commit.tag kind id entry_name c1) _ r1 in
    let (c3, e3, e4) = chain_ok (Commit.tag c2 t3 body) _ r2 in
    omega (
      arith,
      tag-offset c c1 t1 [] e1,
      put_sized-offset kind id entry_name c1 c2 e2,
      tag-offset c2 c3 t3 body e3,
      put_attrs-offset id (staged attrs) c3 c' e4,
    )

-- An operation whose tags are all written has taken the bytes that `op_dsize_of` announces, less the
-- eight of the commit CRC that follows.
pub emit_op-offset :
    (op : WriteOp) (c c' : Commit)
    → emit_op op c ≡ ok c'
    → c'.offset + 8 ≡ c.offset + op_dsize_of op
unfolding emit_op op_dsize_of
emit_op-offset (WriteOp.create id n content attrs) c c' e = omega (
  arith,
  put_entry-offset id TagType.regular_file n TagType.inline_struct (u16 (length content)) content
      attrs c c' e,
)
emit_op-offset (WriteOp.create_ctz id n h t attrs) c c' e = omega (
  arith,
  length-two_words h t,
  put_entry-offset id TagType.regular_file n TagType.ctz_struct 8 (two_words h t) attrs c c' e,
)
emit_op-offset (WriteOp.create_dir id n p attrs) c c' e = omega (
  arith,
  length-two_words p.a p.b,
  put_entry-offset id TagType.directory n TagType.dir_struct 8 (two_words p.a p.b) attrs c c' e,
)
emit_op-offset (WriteOp.update id content) c c' e =
    omega (arith, put_sized-offset TagType.inline_struct id content c c' e)
emit_op-offset (WriteOp.update_ctz id h t) c c' e = omega (
  arith,
  length-two_words h t,
  tag-offset c c' (Tag.new true TagType.ctz_struct id 8) (two_words h t) e,
)
emit_op-offset (WriteOp.remove id) c c' e =
    omega (arith, tag-offset c c' (Tag.new true TagType.delete id 0) [] e)
emit_op-offset (WriteOp.rename_in_place id t n) c c' e =
    omega (arith, put_sized-offset t id n c c' e)
emit_op-offset (WriteOp.set_attr id a v) c c' e =
    omega (arith, put_sized-offset (TagType.user_attr a) id v c c' e)
emit_op-offset (WriteOp.remove_attr id a) c c' e =
    omega (arith, tag-offset c c' (Tag.new true (TagType.user_attr a) id 0x3ff) [] e)
emit_op-offset (WriteOp.update_dir_struct id p) c c' e = omega (
  arith,
  length-two_words p.a p.b,
  tag-offset c c' (Tag.new true TagType.dir_struct id 8) (two_words p.a p.b) e,
)
emit_op-offset WriteOp.noop c c' e = ground arith
