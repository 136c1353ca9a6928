-- ===== src/Meta/Encoding/Whole.antt =====
-- The reader's walk and iterator over a block that holds a whole first commit.
use littlefs2_pure.Prelude.{
  ℕ, ◌+◌, ◌%◌, ◌≤◌, ◌<◌, ◌^◌, bit_xor, ◌≡◌, refl, ap, sym, ◌∙◌, List, [], ◌∷◌, ◌++◌, arith, length,
  take, drop, length-append, drop-drop, some, none,
}
use mathlib.Core.List.{append_assoc}
use littlefs2_pure.Prelude.Bytes.{
  slice, le32_at, to_le32, to_be32, length-to_be32, length-to_le32, le32_at-to_le32,
}
use littlefs2_pure.Crc
use littlefs2_pure.Crc.Laws.{update-lt}
use littlefs2_pure.Tag
use littlefs2_pure.Meta.Reader.{WalkState, walk, walk_start, flip_parity}
use littlefs2_pure.Meta.Reader.Walk.{walk_round, walk_break}
use littlefs2_pure.Meta.Iter.{TagEntry, TagIter, next, collect}
use littlefs2_pure.Meta.Commit.Written.{take_exact, drop_exact}
use littlefs2_pure.Meta.Commit.Session.{commit_bytes, ccrc_bytes, plain_ccrc}
use littlefs2_pure.Meta.Encoding.{encode, last_tag, AreEntries}
use littlefs2_pure.Meta.Encoding.Read.{enter_all, walk_entries}
use littlefs2_pure.Meta.Encoding.Ccrc.{
  plain_ccrc-CcrcWord, committed, walk_step_ccrc, walk_step_end, EndsLog, flip_even,
}
use littlefs2_pure.Meta.Encoding.Iterate.{
  collect_entries, collect-next, collect_done, next_stored, behind,
}

abbrev pub base : ℕ
base = 0xffff_ffff

dsize-base : Tag.dsize base ≡ 4
unfolding Tag.dsize Tag.body_len
dsize-base = refl

-- The register that a first commit hands to its commit CRC, and the value stored behind it.
abbrev pub body_crc : ℕ → List TagEntry → ℕ
body_crc revision es = Crc.update (Crc.update Crc.init (to_le32 revision)) (encode base es)

abbrev pub ccrc_entry : ℕ → List TagEntry → ℕ → TagEntry
ccrc_entry revision es chunk =
    let t = plain_ccrc chunk in
    record {
      tag = t;
      body = to_le32 (Crc.update (body_crc revision es) (to_be32 (bit_xor t (last_tag base es))));
    }

-- `block` holds a whole first commit, and then bytes that end the log.
pub record IsWritten (revision : ℕ) (es : List TagEntry) (chunk : ℕ) (block rest : List ℕ)
    : Type 0 where
  pub word : revision < 2 ^ 32
  pub entries : AreEntries es
  pub natural : chunk < 0x80
  pub even : chunk % 2 ≡ 0
  pub content : block ≡ commit_bytes revision es chunk ++ rest
  pub ends : EndsLog rest

module _ {revision : ℕ} {es : List TagEntry} {chunk : ℕ} {block rest : List ℕ}
    (w : IsWritten revision es chunk block rest) where
  ccrc_part : List ℕ
  ccrc_part = ccrc_bytes (last_tag base es) (body_crc revision es) (plain_ccrc chunk)

  block_parts : block ≡ to_le32 revision ++ (encode base es ++ (ccrc_part ++ rest))
  unfolding commit_bytes ccrc_part
  block_parts =
      w.content
      ∙ append_assoc (to_le32 revision) _ rest
      ∙ ap (λ (l : List ℕ). to_le32 revision ++ l) (append_assoc (encode base es) _ rest)

  after_revision : drop (0 + Tag.dsize base) block ≡ encode base es ++ (ccrc_part ++ rest)
  after_revision =
      ap (λ (k : ℕ). drop k block) {y = 4} (omega (arith, dsize-base))
      ∙ ap (drop 4) block_parts
      ∙ drop_exact 4 (to_le32 revision) _ (sym (length-to_le32 revision))

  start_crc : (walk_start block).running_crc ≡ Crc.update Crc.init (to_le32 revision)
  start_crc = ap (Crc.update Crc.init) (
      unfold slice in
      ap (take 4) block_parts ∙ take_exact 4 (to_le32 revision) _ (sym (length-to_le32 revision)))

  pub revision_written : le32_at block 0 ≡ revision
  revision_written =
      ap (λ (l : List ℕ). le32_at l 0) block_parts ∙ le32_at-to_le32 revision _ w.word

  pub walk_written :
      (f : ℕ)
      → length block < f + 0
      → ((walk f block (walk_start block)).committed_end ≡ 12 + length (encode base es))
        × ((walk f block (walk_start block)).next_ptag ≡ plain_ccrc chunk)
  unfolding ccrc_part
  walk_written f room =
      let s = walk_start block in
      let (run, e) =
        walk_entries f block s es (ccrc_part ++ rest) w.entries (omega arith) room after_revision in
      let s' = enter_all block s es in
      let o = s'.off + Tag.dsize s'.ptag in
      let register : s'.running_crc ≡ body_crc revision es =
        e.crc ∙ ap (λ (k : ℕ). Crc.update k (encode base es)) start_crc in
      let small : s'.running_crc < 2 ^ 32 =
        rw register
          (update-lt _ (encode base es) (update-lt Crc.init (to_le32 revision) (omega arith))) in
      let stored : drop o block ≡ ccrc_bytes s'.ptag s'.running_crc (plain_ccrc chunk) ++ rest =
        e.follows ∙ rw (e.ptag, register) refl in
      let step = walk_step_ccrc block s' chunk rest w.natural e.small small stored in
      let c = plain_ccrc-CcrcWord chunk w.natural in
      let size : Tag.dsize (plain_ccrc chunk) ≡ 8 =
        unfold Tag.dsize in omega (arith, c.body_four) in
      let flipped = flip_even chunk w.even in
      let behind_it : drop (o + Tag.dsize (flip_parity (plain_ccrc chunk) (some chunk))) block
          ≡ rest =
        rw (flipped, size)
          (sym (drop-drop 8 o block)
            ∙ ap (drop 8) stored
            ∙ drop_exact 8 (ccrc_bytes s'.ptag s'.running_crc (plain_ccrc chunk)) rest (
                omega (
                  arith,
                  length-append (to_be32 (bit_xor (plain_ccrc chunk) s'.ptag)) (
                      to_le32
                        (Crc.update s'.running_crc (to_be32 (bit_xor (plain_ccrc chunk) s'.ptag)))),
                  length-to_be32 (bit_xor (plain_ccrc chunk) s'.ptag),
                  length-to_le32
                      (Crc.update s'.running_crc (to_be32 (bit_xor (plain_ccrc chunk) s'.ptag))),
                ))) in
      let low : flip_parity (plain_ccrc chunk) (some chunk) < 2 ^ 31 = rw flipped c.high in
      let stop = walk_step_end block (committed s' o chunk) rest low behind_it w.ends in
      let whole : walk f block s ≡ committed s' o chunk =
        run
        ∙ walk_round f block s' (committed s' o chunk) (omega (arith, e.fuel)) step
        ∙ walk_break f block (committed s' o chunk) stop in
      (
        ap (λ (r : WalkState). r.committed_end) whole ∙ omega (arith, e.end, dsize-base),
        ap (λ (r : WalkState). r.next_ptag) whole ∙ flipped,
      )

  -- The committed end lies eight bytes behind the entries.
  abbrev whole_end : ℕ
  whole_end = 12 + length (encode base es)

  abbrev start_iter : TagIter
  start_iter = record { block = block; offset = 0; end = whole_end; ptag = base }

  long_enough : whole_end ≤ length block
  unfolding ccrc_part
  long_enough =
      let x = bit_xor (plain_ccrc chunk) (last_tag base es) in
      omega (
        arith,
        ap length block_parts,
        length-append (to_le32 revision) (encode base es ++ (ccrc_part ++ rest)),
        length-append (encode base es) (ccrc_part ++ rest),
        length-append ccrc_part rest,
        length-append (to_be32 x) (to_le32 (Crc.update (body_crc revision es) (to_be32 x))),
        length-to_le32 revision,
        length-to_be32 x,
        length-to_le32 (Crc.update (body_crc revision es) (to_be32 x)),
      )

  pub iter_written :
      (f : ℕ)
      → length block < f + 0
      → collect f start_iter ≡ es ++ (ccrc_entry revision es chunk ∷ [])
  unfolding ccrc_part
  iter_written f room =
      let (run, b) =
        collect_entries f start_iter es (ccrc_part ++ rest) w.entries (omega arith)
          (omega (arith, long_enough)) (omega (arith, dsize-base)) after_revision in
      let it = behind start_iter es in
      let o = it.offset + Tag.dsize it.ptag in
      let t = plain_ccrc chunk in
      let x = bit_xor t (last_tag base es) in
      let body = to_le32 (Crc.update (body_crc revision es) (to_be32 x)) in
      let c = plain_ccrc-CcrcWord chunk w.natural in
      let four = length-to_le32 (Crc.update (body_crc revision es) (to_be32 x)) in
      let stored : drop o it.block ≡ (to_be32 (bit_xor t it.ptag) ++ body) ++ rest =
        ap (drop o) b.block
        ∙ b.follows
        ∙ ap (λ (k : ℕ). (to_be32 (bit_xor t k) ++ body) ++ rest) (sym b.ptag) in
      let flipped : flip_parity t (Tag.ccrc_chunk t) ≡ t = rw c.chunk_is (flip_even chunk w.even) in
      let one =
        next_stored it t body rest c.word b.small c.valid (four ∙ sym c.body_four)
          (omega (arith, b.offset, b.end, dsize-base)) stored in
      let last = record it { offset = o; ptag = flip_parity t (Tag.ccrc_chunk t) } in
      let stop : next last ≡ none =
        unfold next Tag.dsize in
        rw flipped (ground (arith, b.offset, b.end, dsize-base, c.body_four)) in
      run
      ∙ ap (λ (l : List TagEntry). es ++ l)
          (collect-next f it last (record { tag = t; body = body })
              (omega (arith, b.end, b.reach, long_enough)) one
            ∙ ap (λ (l : List TagEntry). record { tag = t; body = body } ∷ l)
                (collect_done f last stop))
