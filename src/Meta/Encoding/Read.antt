-- ===== src/Meta/Encoding/Read.antt =====
-- One round of the reader's walk, or of its iterator, over an encoded tag.
use littlefs2_pure.Prelude.{
  ℕ, ◌+◌, ◌≤◌, ◌<◌, ◌^◌, bit_xor, ◌≡◌, refl, ap, sym, ◌∙◌, List, [], ◌∷◌, ◌++◌, arith, length, take,
  drop, length-append, length-drop, drop-drop, some,
}
use mathlib.Core.List.{append_assoc}
use littlefs2_pure.Prelude.Bits.{bit_xor-lt, bit_xor_cancel}
use littlefs2_pure.Prelude.Bytes.{
  slice, be32_at, to_be32, length-to_be32, be32_at-drop, be32_at-to_be32,
}
use littlefs2_pure.Crc
use littlefs2_pure.Crc.Laws.{update-append}
use littlefs2_pure.Tag
use littlefs2_pure.Meta.Reader.{WalkState, pending_after, walk_data, walk_step, walk}
use littlefs2_pure.Meta.Reader.Walk.{walk_round}
use littlefs2_pure.Meta.Iter.{TagEntry}
use littlefs2_pure.Meta.Encoding.{encode, last_tag, IsEntry, AreEntries}
use littlefs2_pure.Meta.Commit.Written.{take_exact, drop_exact}

-- The word `x` and then `body` stand at offset `o` of the block, before `rest`.
pub record Stored (block : List ℕ) (o x : ℕ) (body rest : List ℕ) : Type 0 where
  pub long : o + 4 + length body ≤ length block
  pub word : be32_at block o ≡ x
  pub word_bytes : slice block o 4 ≡ to_be32 x
  pub body_bytes : slice block (o + 4) (length body) ≡ body
  pub behind : drop (o + 4) block ≡ body ++ rest
  pub after : drop (o + (4 + length body)) block ≡ rest

pub Stored-drop :
    (block : List ℕ) (o x : ℕ) (body rest : List ℕ)
    → x < 2 ^ 32
    → drop o block ≡ (to_be32 x ++ body) ++ rest
    → Stored block o x body rest
Stored-drop block o x body rest small e =
    let e' : drop o block ≡ to_be32 x ++ (body ++ rest) = e ∙ append_assoc (to_be32 x) body rest in
    let four = length-to_be32 x in
    let behind : drop (o + 4) block ≡ body ++ rest =
      sym (drop-drop 4 o block)
      ∙ ap (drop 4) e'
      ∙ drop_exact 4 (to_be32 x) (body ++ rest) (sym four) in
    record {
      long = omega (
        arith,
        ap length e',
        length-drop o block,
        length-append (to_be32 x) (body ++ rest),
        length-append body rest,
      );
      word =
          ap (be32_at block) {x = o} {y = o + 0} (omega arith)
          ∙ sym (be32_at-drop block o 0)
          ∙ ap (λ (l : List ℕ). be32_at l 0) e'
          ∙ be32_at-to_be32 x (body ++ rest) small;
      word_bytes =
          unfold slice in ap (take 4) e' ∙ take_exact 4 (to_be32 x) (body ++ rest) (sym four);
      body_bytes =
          unfold slice in ap (take (length body)) behind ∙ take_exact (length body) body rest refl;
      behind = behind;
      after =
          sym (drop-drop (4 + length body) o block)
          ∙ ap (drop (4 + length body)) e
          ∙ drop_exact (4 + length body) (to_be32 x ++ body) rest
              (omega (arith, length-append (to_be32 x) body));
    }

-- The state after a data tag.
abbrev pub entered : List ℕ → WalkState → TagEntry → WalkState
entered block s e =
    let o = s.off + Tag.dsize s.ptag in
    record s {
      ptag = e.tag;
      running_crc = Crc.update s.running_crc (to_be32 (bit_xor e.tag s.ptag) ++ e.body);
      off = o;
      pending_fcrc = pending_after block o e.tag s.pending_fcrc;
    }

pub walk_step_entry :
    (block : List ℕ) (s : WalkState) (e : TagEntry) (rest : List ℕ)
    → IsEntry e
    → s.ptag < 2 ^ 32
    → drop (s.off + Tag.dsize s.ptag) block ≡ (to_be32 (bit_xor e.tag s.ptag) ++ e.body) ++ rest
    → walk_step block s ≡ some (entered block s e)
unfolding walk_step walk_data
walk_step_entry block s e rest h small d =
    let o = s.off + Tag.dsize s.ptag in
    let x = bit_xor e.tag s.ptag in
    let st = Stored-drop block o x e.body rest (bit_xor-lt 32 e.tag s.ptag h.word small) d in
    let body : slice block (o + 4) (Tag.body_len e.tag) ≡ e.body =
      rw (← h.body_length) st.body_bytes in
    let fits : o + Tag.dsize e.tag ≤ length block =
      unfold Tag.dsize in omega (arith, st.long, h.body_length) in
    let long = st.long in
    rw
      (
        st.word,
        st.word_bytes,
        bit_xor_cancel e.tag s.ptag,
        h.valid,
        h.not_ccrc,
        body,
        update-append s.running_crc (to_be32 x) e.body,
      )
      (ground arith)

-- The state after all of them.
unfoldable pub enter_all : List ℕ → WalkState → List TagEntry → WalkState
enter_all block s [] = s
enter_all block s (e ∷ es) = enter_all block (entered block s e) es

-- Where the walk stands after encoded entries that `rest` follows.
pub record Entered (block : List ℕ) (s : WalkState) (es : List TagEntry) (rest : List ℕ)
    : Type 0 where
  pub ptag : (enter_all block s es).ptag ≡ last_tag s.ptag es
  pub small : (enter_all block s es).ptag < 2 ^ 32
  pub crc : (enter_all block s es).running_crc ≡ Crc.update s.running_crc (encode s.ptag es)
  pub end :
      (enter_all block s es).off + Tag.dsize (enter_all block s es).ptag
      ≡ s.off + Tag.dsize s.ptag + length (encode s.ptag es)
  pub committed : (enter_all block s es).committed_end ≡ s.committed_end
  pub fuel : s.off ≤ (enter_all block s es).off
  pub follows :
      drop ((enter_all block s es).off + Tag.dsize (enter_all block s es).ptag) block ≡ rest

-- The walk consumes encoded entries one by one.
pub walk_entries :
    (f : ℕ) (block : List ℕ) (s : WalkState) (es : List TagEntry) (rest : List ℕ)
    → AreEntries es
    → s.ptag < 2 ^ 32
    → length block < f + s.off
    → drop (s.off + Tag.dsize s.ptag) block ≡ encode s.ptag es ++ rest
    → (walk f block s ≡ walk f block (enter_all block s es)) × Entered block s es rest
unfolding enter_all encode last_tag
walk_entries f block s [] rest h small room d = (
  refl,
  record {
    ptag = refl;
    small = small;
    crc = unfold Crc.update in refl;
    end = omega arith;
    committed = refl;
    fuel = omega arith;
    follows = d;
  },
)
walk_entries f block s (e ∷ es) rest h small room d =
    let o = s.off + Tag.dsize s.ptag in
    let bytes = to_be32 (bit_xor e.tag s.ptag) ++ e.body in
    let d' : drop o block ≡ bytes ++ (encode e.tag es ++ rest) =
      d ∙ append_assoc bytes (encode e.tag es) rest in
    let st =
      Stored-drop block o (bit_xor e.tag s.ptag) e.body (encode e.tag es ++ rest)
        (bit_xor-lt 32 e.tag s.ptag h.0.word small) d' in
    let size : 4 + length e.body ≡ Tag.dsize e.tag =
      unfold Tag.dsize in omega (arith, h.0.body_length) in
    let after : drop (o + Tag.dsize e.tag) block ≡ encode e.tag es ++ rest =
      ap (λ (k : ℕ). drop (o + k) block) (sym size) ∙ st.after in
    let one = walk_step_entry block s e (encode e.tag es ++ rest) h.0 small d' in
    let more = walk_entries f block (entered block s e) es rest h.1 h.0.word (omega arith) after in
    let m = more.1 in
    (
      walk_round f block s (entered block s e) room one ∙ more.0,
      record {
        ptag = m.ptag;
        small = m.small;
        crc = m.crc ∙ sym (update-append s.running_crc bytes (encode e.tag es));
        end = omega (
          arith,
          m.end,
          length-append bytes (encode e.tag es),
          length-append (to_be32 (bit_xor e.tag s.ptag)) e.body,
          length-to_be32 (bit_xor e.tag s.ptag),
        );
        committed = m.committed;
        fuel = omega (arith, m.fuel);
        follows = m.follows;
      },
    )
