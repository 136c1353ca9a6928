-- ===== src/Meta/Encoding/Ccrc.antt =====
-- The round of the walk that meets a commit CRC, and the erased bytes that end it.
use littlefs2_pure.Prelude.{
  ℕ, ◌+◌, ◌/◌, ◌%◌, ◌^◌, ◌≤◌, ◌<◌, bit_xor, ◌≡◌, refl, ap, sym, ◌∙◌, ◌⊎◌, inl, inr, List, ◌++◌,
  arith, true, false, length, drop, length-drop, some, none, ==_refl,
}
use littlefs2_pure.Prelude.Bits.{bit_xor-lt, bit_xor_cancel, bit_xor-zero, bit_xor_shift}
use littlefs2_pure.Prelude.Bytes.{
  le32_at, be32_at, to_le32, to_be32, length-to_le32, be32_at-drop, le32_at-drop, le32_at-to_le32,
}
use littlefs2_pure.Crc
use littlefs2_pure.Crc.Laws.{update-lt}
use littlefs2_pure.Tag
use littlefs2_pure.Tag.Kind
use littlefs2_pure.Tag.Kind.{commit_crc}
use littlefs2_pure.Tag.Fields.{new_fields, new-lt, new-sum}
use littlefs2_pure.Meta.Reader.{WalkState, walk_ccrc, walk_step, flip_parity}
use littlefs2_pure.Meta.Commit.Session.{plain_ccrc, ccrc_bytes}
use littlefs2_pure.Meta.Encoding.Read.{Stored-drop}

-- What the reader asks of the word that `finish` emits.
pub record CcrcWord (chunk : ℕ) : Type 0 where
  pub word : plain_ccrc chunk < 2 ^ 32
  pub valid : Tag.is_valid (plain_ccrc chunk) ≡ true
  pub ccrc : Tag.is_ccrc (plain_ccrc chunk) ≡ true
  pub chunk_is : Tag.ccrc_chunk (plain_ccrc chunk) ≡ some chunk
  pub body_four : Tag.body_len (plain_ccrc chunk) ≡ 4
  pub high : plain_ccrc chunk < 2 ^ 31

pub plain_ccrc-CcrcWord : (chunk : ℕ) → chunk < 0x80 → CcrcWord chunk
plain_ccrc-CcrcWord chunk h =
    let f = new_fields true (commit_crc chunk) 0x3ff 4 h (omega arith) (omega arith) in
    let small = Kind.into_bits-lt (commit_crc chunk) h in
    let four = f.3 in
    record {
      word = new-lt true (commit_crc chunk) 0x3ff 4 small;
      valid = f.0;
      ccrc = unfold Tag.is_ccrc in rw f.1;
      chunk_is = unfold Tag.ccrc_chunk in rw f.1;
      body_four = unfold Tag.body_len Tag.is_special_length in rw four;
      high = omega (arith, new-sum true (commit_crc chunk) 0x3ff 4 small);
    }

-- The state behind a commit CRC at `o`.
abbrev pub committed : WalkState → ℕ → ℕ → WalkState
committed s o chunk = record {
  ptag = flip_parity (plain_ccrc chunk) (some chunk);
  running_crc = Crc.init;
  off = o;
  committed_end = o + Tag.dsize (plain_ccrc chunk);
  next_ptag = flip_parity (plain_ccrc chunk) (some chunk);
  pending_fcrc = none;
  last_fcrc = s.pending_fcrc;
}

pub walk_step_ccrc :
    (block : List ℕ) (s : WalkState) (chunk : ℕ) (rest : List ℕ)
    → chunk < 0x80
    → s.ptag < 2 ^ 32
    → s.running_crc < 2 ^ 32
    → drop (s.off + Tag.dsize s.ptag) block
      ≡ ccrc_bytes s.ptag s.running_crc (plain_ccrc chunk) ++ rest
    → walk_step block s ≡ some (committed s (s.off + Tag.dsize s.ptag) chunk)
unfolding walk_step walk_ccrc
walk_step_ccrc block s chunk rest h small crc d =
    let o = s.off + Tag.dsize s.ptag in
    let t = plain_ccrc chunk in
    let x = bit_xor t s.ptag in
    let v = Crc.update s.running_crc (to_be32 x) in
    let w = plain_ccrc-CcrcWord chunk h in
    let st = Stored-drop block o x (to_le32 v) rest (bit_xor-lt 32 t s.ptag w.word small) d in
    let size : Tag.dsize t ≡ 8 = unfold Tag.dsize in omega (arith, w.body_four) in
    let long : o + 8 ≤ length block = omega (arith, st.long, length-to_le32 v) in
    let stored : le32_at block (o + 4) ≡ v =
      ap (le32_at block) {x = o + 4} {y = o + 4 + 0} (omega arith)
      ∙ sym (le32_at-drop block (o + 4) 0)
      ∙ ap (λ (l : List ℕ). le32_at l 0) st.behind
      ∙ le32_at-to_le32 v rest (update-lt s.running_crc (to_be32 x) crc) in
    rw
      (
        st.word,
        st.word_bytes,
        bit_xor_cancel t s.ptag,
        w.valid,
        w.ccrc,
        w.body_four,
        w.chunk_is,
        stored,
        size,
        ==_refl v,
      )
      (ground arith)

-- Bytes after which a reader whose base has a clear top bit finds no further tag: too few for a
-- word, or a word with its top bit set.
abbrev pub EndsLog : List ℕ → Type 0
EndsLog rest = (length rest < 4) ⊎ ((2 ^ 31 ≤ be32_at rest 0) × (be32_at rest 0 < 2 ^ 32))

pub not_valid :
    (raw ptag : ℕ)
    → 2 ^ 31 ≤ raw
    → raw < 2 ^ 32
    → ptag < 2 ^ 31
    → Tag.is_valid (bit_xor raw ptag) ≡ false
unfolding Tag.is_valid
not_valid raw ptag p q r =
    let one : raw / 2 ^ 31 ≡ 1 = omega arith in
    let none : ptag / 2 ^ 31 ≡ 0 = omega arith in rw (bit_xor_shift 31 raw ptag, one, none) refl

pub walk_step_end :
    (block : List ℕ) (s : WalkState) (rest : List ℕ)
    → s.ptag < 2 ^ 31
    → drop (s.off + Tag.dsize s.ptag) block ≡ rest
    → EndsLog rest
    → walk_step block s ≡ none
unfolding walk_step
walk_step_end block s rest small d (inl short) =
    let o = s.off + Tag.dsize s.ptag in
    let len : length block < o + 4 = omega (arith, ap length d, length-drop o block) in ground arith
walk_step_end block s rest small d (inr (high, word)) =
    let o = s.off + Tag.dsize s.ptag in
    let raw : be32_at block o ≡ be32_at rest 0 =
      ap (be32_at block) {x = o} {y = o + 0} (omega arith)
      ∙ sym (be32_at-drop block o 0)
      ∙ ap (λ (l : List ℕ). be32_at l 0) d in
    rw (raw, not_valid (be32_at rest 0) s.ptag high word small) (ground arith)

pub flip_even :
    (chunk : ℕ) → chunk % 2 ≡ 0 → flip_parity (plain_ccrc chunk) (some chunk) ≡ plain_ccrc chunk
unfolding flip_parity
flip_even chunk e = rw e (bit_xor-zero (plain_ccrc chunk))
