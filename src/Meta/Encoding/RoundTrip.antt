-- ===== src/Meta/Encoding/RoundTrip.antt =====
-- What the builder writes into an erased block, the reader reads back.
use littlefs2_pure.Prelude.{
  ℕ, zero, suc, ◌+◌, ◌-◌, ◌%◌, ◌≤◌, ◌<◌, ◌^◌, bit_xor, ◌≡◌, ap, sym, ◌∙◌, inl, inr, List, [], ◌∷◌,
  ◌++◌, arith, length, drop, replicate, length-append, length-replicate, ok,
}
use littlefs2_pure.Prelude.Bytes.{
  le32_at, be32_at, to_le32, to_be32, length-to_be32, length-to_le32,
}
use littlefs2_pure.Crc
use littlefs2_pure.Meta.Reader
use littlefs2_pure.Meta.Reader.{MetadataReader, WalkState, walk, walk_start, walk_step, flip_parity}
use littlefs2_pure.Meta.Iter.{TagEntry, collect, iter_tags}
use littlefs2_pure.Meta.Commit.{Commit}
use littlefs2_pure.Meta.Commit.Written.{Wrote-length}
use littlefs2_pure.Meta.Commit.Session.{write_commit, write_commit_lem, commit_bytes, plain_ccrc}
use littlefs2_pure.Meta.Encoding.{encode, last_tag, AreEntries}
use littlefs2_pure.Meta.Encoding.Ccrc.{EndsLog, flip_even}
use littlefs2_pure.Meta.Encoding.Whole.{
  base, body_crc, ccrc_entry, IsWritten, walk_written, iter_written, revision_written,
}

drop-replicate : (k n : ℕ) → drop {A = ℕ} k (replicate n 0xff) ≡ replicate (n - k) 0xff
drop-replicate zero n = ap (λ (m : ℕ). replicate {A = ℕ} m 0xff) (omega arith)
drop-replicate (suc k) zero =
    ap (λ (m : ℕ). replicate {A = ℕ} m 0xff) {x = 0} {y = 0 - suc k} (omega arith)
drop-replicate (suc k) (suc n) =
    drop-replicate k n ∙ ap (λ (m : ℕ). replicate {A = ℕ} m 0xff) {x = n - k} (omega arith)

erased-EndsLog : (n : ℕ) → EndsLog (replicate n 0xff)
unfolding be32_at
erased-EndsLog zero = inl (omega arith)
erased-EndsLog (suc zero) = inl (omega arith)
erased-EndsLog (suc (suc zero)) = inl (omega arith)
erased-EndsLog (suc (suc (suc zero))) = inl (omega arith)
erased-EndsLog (suc (suc (suc (suc n)))) = inr (omega arith)

length-commit_bytes :
    (revision : ℕ) (es : List TagEntry) (chunk : ℕ)
    → length (commit_bytes revision es chunk) ≡ 12 + length (encode base es)
unfolding commit_bytes
length-commit_bytes revision es chunk =
    let x = bit_xor (plain_ccrc chunk) (last_tag base es) in
    let v = Crc.update (body_crc revision es) (to_be32 x) in
    omega (
      arith,
      length-append (to_le32 revision) (encode base es ++ (to_be32 x ++ to_le32 v)),
      length-append (encode base es) (to_be32 x ++ to_le32 v),
      length-append (to_be32 x) (to_le32 v),
      length-to_le32 revision,
      length-to_be32 x,
      length-to_le32 v,
    )

-- A commit written into an erased block of `n` bytes, and what the reader makes of the block.
pub record ReadBack (n revision : ℕ) (es : List TagEntry) (chunk : ℕ) : Type 0 where
  pub writer : Commit
  pub reader : MetadataReader
  pub writes : write_commit (replicate n 0xff) revision es chunk ≡ ok writer
  pub reads : Reader.new writer.buf ≡ ok reader
  pub revision_back : reader.revision ≡ revision
  pub end_back : reader.committed_end ≡ writer.offset
  pub base_back : reader.next_ptag ≡ writer.ptag
  pub entries_back : iter_tags reader ≡ es ++ (ccrc_entry revision es chunk ∷ [])

-- The builder writes a revision, any valid entries that fit and an even commit CRC into an erased
-- block, and the reader of that block returns the revision, an end and a base at which the builder
-- stands, and exactly those entries, in order, with the commit CRC behind them.
pub write_commit-new :
    (n revision : ℕ) (es : List TagEntry) (chunk : ℕ)
    → revision < 2 ^ 32
    → AreEntries es
    → chunk < 0x80
    → chunk % 2 ≡ 0
    → 12 + length (encode 0xffff_ffff es) ≤ n
    → ReadBack n revision es chunk
write_commit-new n revision es chunk word entries natural even room =
    let from : List ℕ = replicate n 0xff in
    let size : length from ≡ n = length-replicate n 0xff in
    let r = write_commit_lem from revision es chunk entries (omega arith) in
    let buf = r.result.buf in
    let rest : List ℕ = replicate (n - r.result.offset) 0xff in
    let w : IsWritten revision es chunk buf rest = record {
      word = word;
      entries = entries;
      natural = natural;
      even = even;
      content =
          r.wrote.holds.content
          ∙ ap (λ (l : List ℕ). commit_bytes revision es chunk ++ l)
              (drop-replicate r.result.offset n);
      ends = erased-EndsLog (n - r.result.offset);
    } in
    let len : length buf ≡ n = Wrote-length r.wrote ∙ size in
    let end = walk_written w (suc (length buf)) (omega arith) in
    let offset : 12 + length (encode base es) ≡ r.result.offset =
      sym (length-commit_bytes revision es chunk) ∙ r.wrote.holds.done_length in
    let reader : MetadataReader = record {
      block = buf;
      revision = le32_at buf 0;
      committed_end = (walk (suc (length buf)) buf (walk_start buf)).committed_end;
      next_ptag = (walk (suc (length buf)) buf (walk_start buf)).next_ptag;
      tail =
          (Reader.scan_for_tail buf (walk (suc (length buf)) buf (walk_start buf)).committed_end).0;
      is_hard_tail =
          (Reader.scan_for_tail buf (walk (suc (length buf)) buf (walk_start buf)).committed_end).1;
      erased =
          Reader.window_erased buf (walk (suc (length buf)) buf (walk_start buf)).committed_end
            (walk (suc (length buf)) buf (walk_start buf)).last_fcrc;
    } in
    record {
      writer = r.result;
      reader = reader;
      writes = r.returns;
      reads = unfold Reader.new in ground arith;
      revision_back = revision_written w;
      end_back = end.0 ∙ offset;
      base_back = end.1 ∙ sym (r.ptag_is ∙ flip_even chunk even);
      entries_back =
          unfold iter_tags in
          ap
            (λ (k : ℕ).
              collect (suc (length buf))
                (record { block = buf; offset = 0; end = k; ptag = 0xffff_ffff }))
            end.0
          ∙ iter_written w (suc (length buf)) (omega arith);
    }
