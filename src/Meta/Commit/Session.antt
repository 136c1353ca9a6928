-- ===== src/Meta/Commit/Session.antt =====
-- A whole commit on a fresh block: `Commit::new`, a call of `tag` for each entry, `finish`.
use littlefs2_pure.Prelude.{
  ℕ, ◌+◌, ◌≤◌, bit_xor, ◌≡◌, refl, ap, subst, sym, ◌∙◌, List, [], ◌∷◌, ◌++◌, arith, true, length,
  length-append, Result, ok, ◌>>=◌, some, take,
}
use mathlib.Core.List.{append_assoc, append-nil}
use littlefs2_pure.Prelude.Bytes.{slice, copy_at, to_le32, to_be32, length-to_be32, length-to_le32}
use littlefs2_pure.Crc
use littlefs2_pure.Crc.Laws.{update-append}
use littlefs2_pure.Tag
use littlefs2_pure.Tag.Kind.{commit_crc}
use littlefs2_pure.Meta.Reader.{flip_parity}
use littlefs2_pure.Meta.Iter.{TagEntry}
use littlefs2_pure.Meta.Encoding.{encode, last_tag, IsEntry, AreEntries}
use littlefs2_pure.Meta.Commit.{Commit, new, tag, put_ccrc, finish}
use littlefs2_pure.Meta.Commit.Written.{
  Holds, Holds-start, Holds-copy_at, take_exact, Wrote, Wrote-length, tag_lem,
}

-- The calls of `tag`, up to the first that fails.
unfoldable pub write_entries : Commit → List TagEntry → Result Commit
write_entries c [] = ok c
write_entries c (e ∷ es) = do c' ← tag c e.tag e.body; write_entries c' es

unfoldable pub write_commit : List ℕ → ℕ → List TagEntry → ℕ → Result Commit
unfolding write_entries
write_commit buf revision entries chunk = do
  c ← new buf revision
  c' ← write_entries c entries
  finish c' chunk

-- `r` is a normal return of a builder that has written `done`.
pub record Returned (from done : List ℕ) (ptag crc : ℕ) (r : Result Commit) : Type 0 where
  pub result : Commit
  pub returns : r ≡ ok result
  pub wrote : Wrote from result done
  pub ptag_is : result.ptag ≡ ptag
  pub crc_is : result.crc ≡ crc

-- The length of the encoding is the sum of the sizes on disk.
entry_size :
    (e : TagEntry) (ptag : ℕ)
    → IsEntry e
    → length (to_be32 (bit_xor e.tag ptag) ++ e.body) ≡ Tag.dsize e.tag
entry_size e ptag h =
    length-append (to_be32 (bit_xor e.tag ptag)) e.body
    ∙ unfold Tag.dsize in omega (arith, h.body_length, length-to_be32 (bit_xor e.tag ptag))

-- Valid entries for which there is room are all appended.
pub write_entries_lem :
    (from done : List ℕ) (c : Commit) (es : List TagEntry)
    → Wrote from c done
    → AreEntries es
    → c.offset + length (encode c.ptag es) ≤ length from
    → Returned from
        (done ++ encode c.ptag es)
        (last_tag c.ptag es)
        (Crc.update c.crc (encode c.ptag es))
        (write_entries c es)
unfolding write_entries encode last_tag
write_entries_lem from done c [] w h room = record {
  result = c;
  returns = refl;
  wrote = rw append-nil w;
  ptag_is = refl;
  crc_is = unfold Crc.update in refl;
}
write_entries_lem from done c (e ∷ es) w h room =
    let bytes = to_be32 (bit_xor e.tag c.ptag) ++ e.body in
    let size = entry_size e c.ptag h.0 in
    let total = length-append bytes (encode e.tag es) in
    let a = tag_lem from done c e.tag e.body w h.0.not_ccrc h.0.body_length (omega arith) in
    let more : a.result.offset + length (encode a.result.ptag es) ≤ length from =
      rw a.ptag (omega (arith, a.offset)) in
    let r = write_entries_lem from (done ++ bytes) a.result es a.wrote h.1 more in
    record {
      result = r.result;
      returns = rw a.returns r.returns;
      wrote =
          subst (λ d. Wrote from r.result d)
            (append_assoc done bytes (encode a.result.ptag es)
              ∙ ap (λ (k : ℕ). done ++ (bytes ++ encode k es)) a.ptag)
            r.wrote;
      ptag_is = r.ptag_is ∙ ap (λ (k : ℕ). last_tag k es) a.ptag;
      crc_is = r.crc_is ∙ rw (a.ptag, a.crc) (sym (update-append c.crc bytes (encode e.tag es)));
    }

-- The word and the body of a commit CRC over a register `crc` and a base `ptag`.
abbrev pub ccrc_bytes : ℕ → ℕ → ℕ → List ℕ
ccrc_bytes ptag crc ccrc_tag =
    to_be32 (bit_xor ccrc_tag ptag) ++ to_le32 (Crc.update crc (to_be32 (bit_xor ccrc_tag ptag)))

abbrev pub plain_ccrc : ℕ → ℕ
plain_ccrc chunk = Tag.new true (commit_crc chunk) 0x3ff 4

finish_lem :
    (from done : List ℕ) (c : Commit) (chunk : ℕ)
    → Wrote from c done
    → c.offset + 8 ≤ length from
    → Returned from
        (done ++ ccrc_bytes c.ptag c.crc (plain_ccrc chunk))
        (flip_parity (plain_ccrc chunk) (some chunk))
        Crc.init
        (finish c chunk)
unfolding finish put_ccrc
finish_lem from done c chunk w room =
    let raw = bit_xor (plain_ccrc chunk) c.ptag in
    let stored = to_le32 (Crc.update c.crc (to_be32 raw)) in
    let one : Holds from (copy_at c.buf c.offset (to_be32 raw)) (c.offset + 4)
        (done ++ to_be32 raw) =
      subst
        (λ (k : ℕ).
          Holds from (copy_at c.buf c.offset (to_be32 raw)) (c.offset + k) (done ++ to_be32 raw))
        (length-to_be32 raw) (Holds-copy_at from c.buf c.offset done (to_be32 raw) w.holds) in
    let two =
      Holds-copy_at from (copy_at c.buf c.offset (to_be32 raw)) (c.offset + 4) (done ++ to_be32 raw)
        stored one in
    let at : c.offset + 4 + length stored ≡ c.offset + 8 =
      omega (arith, length-to_le32 (Crc.update c.crc (to_be32 raw))) in
    record {
      result = record {
        buf = copy_at (copy_at c.buf c.offset (to_be32 raw)) (c.offset + 4) stored;
        offset = c.offset + 8;
        ptag = flip_parity (plain_ccrc chunk) (some chunk);
        crc = Crc.init;
      };
      returns = ground (arith, Wrote-length w);
      wrote = record {
        holds = rw (← append_assoc done (to_be32 raw) stored) (
            subst
              (λ (k : ℕ).
                Holds from (copy_at (copy_at c.buf c.offset (to_be32 raw)) (c.offset + 4) stored) k
                  ((done ++ to_be32 raw) ++ stored))
              at two);
        room = room;
      };
      ptag_is = refl;
      crc_is = refl;
    }

new_lem :
    (from : List ℕ) (revision : ℕ)
    → 8 ≤ length from
    → Returned from
        (to_le32 revision)
        0xffff_ffff
        (Crc.update Crc.init (to_le32 revision))
        (new from revision)
unfolding new
new_lem from revision room =
    let start = Holds-copy_at from from 0 [] (to_le32 revision) (Holds-start from) in
    let at : 0 + length (to_le32 revision) ≡ 4 = omega (arith, length-to_le32 revision) in
    let holds : Holds from (copy_at from 0 (to_le32 revision)) 4 (to_le32 revision) =
      subst (λ (k : ℕ). Holds from (copy_at from 0 (to_le32 revision)) k (to_le32 revision)) at
        start in
    record {
      result = record {
        buf = copy_at from 0 (to_le32 revision);
        offset = 4;
        ptag = 0xffff_ffff;
        crc = Crc.update Crc.init (slice (copy_at from 0 (to_le32 revision)) 0 4);
      };
      returns = ground arith;
      wrote = record { holds = holds; room = omega arith };
      ptag_is = refl;
      crc_is = ap (Crc.update Crc.init) (
          unfold slice in
          ap (take 4) holds.content ∙ take_exact 4 (to_le32 revision) _ (sym holds.done_length));
    }

-- The bytes of a whole first commit.
unfoldable pub commit_bytes : ℕ → List TagEntry → ℕ → List ℕ
commit_bytes revision es chunk =
    to_le32 revision
    ++ (encode 0xffff_ffff es
        ++ ccrc_bytes (last_tag 0xffff_ffff es)
            (Crc.update (Crc.update Crc.init (to_le32 revision)) (encode 0xffff_ffff es))
            (plain_ccrc chunk))

-- Writing a revision, valid entries and a commit CRC into a buffer with room for them succeeds. The
-- buffer then begins with exactly those bytes, and from the returned offset on it is as it was.
pub write_commit_lem :
    (from : List ℕ) (revision : ℕ) (es : List TagEntry) (chunk : ℕ)
    → AreEntries es
    → 12 + length (encode 0xffff_ffff es) ≤ length from
    → Returned from
        (commit_bytes revision es chunk)
        (flip_parity (plain_ccrc chunk) (some chunk))
        Crc.init
        (write_commit from revision es chunk)
unfolding write_commit commit_bytes
write_commit_lem from revision es chunk h room =
    let n = new_lem from revision (omega arith) in
    let at : n.result.offset ≡ 4 = sym n.wrote.holds.done_length ∙ length-to_le32 revision in
    let t =
      write_entries_lem from (to_le32 revision) n.result es n.wrote h
        (rw (n.ptag_is, at) (omega arith)) in
    let size = length-append (to_le32 revision) (encode n.result.ptag es) in
    let where_ : t.result.offset ≡ 4 + length (encode 0xffff_ffff es) =
      sym t.wrote.holds.done_length ∙ size ∙ rw (n.ptag_is, length-to_le32 revision) in
    let f =
      finish_lem from (to_le32 revision ++ encode n.result.ptag es) t.result chunk t.wrote
        (omega arith) in
    record {
      result = f.result;
      returns = rw (n.returns, t.returns) f.returns;
      wrote =
          subst (λ d. Wrote from f.result d)
            (append_assoc (to_le32 revision) (encode n.result.ptag es)
                (ccrc_bytes t.result.ptag t.result.crc (plain_ccrc chunk))
              ∙ rw (t.ptag_is, t.crc_is, n.ptag_is, n.crc_is))
            f.wrote;
      ptag_is = f.ptag_is;
      crc_is = f.crc_is;
    }
