-- ===== src/Meta/Encoding/Iterate.antt =====
-- The tag iterator over encoded entries and the commit CRC behind them.
use littlefs2_pure.Prelude.{
  ℕ, zero, suc, ◌+◌, ◌≤◌, ◌<◌, ◌^◌, bit_xor, ◌≡◌, refl, ap, sym, ◌∙◌, inl, inr, List, [], ◌∷◌, ◌++◌,
  arith, true, false, length, drop, length-append, some, none, Option-cases,
}
use mathlib.Core.List.{append_assoc}
use littlefs2_pure.Prelude.Bits.{bit_xor-lt, bit_xor_cancel}
use littlefs2_pure.Prelude.Bytes.{slice, to_be32, length-to_be32}
use littlefs2_pure.Tag
use littlefs2_pure.Tag.Sizes.{dsize_bounds}
use littlefs2_pure.Meta.Reader.{flip_parity}
use littlefs2_pure.Meta.Iter.{TagEntry, TagIter, next, collect}
use littlefs2_pure.Meta.Encoding.{encode, last_tag, AreEntries}
use littlefs2_pure.Meta.Encoding.Read.{Stored-drop}

abbrev advanced : TagIter → ℕ → TagIter
advanced it ptag = record it { offset = it.offset + Tag.dsize it.ptag; ptag = ptag }

next_advances :
    (it it' : TagIter) (e : TagEntry)
    → next it ≡ some (e, it')
    → (it.offset + 4 ≤ it'.offset) × (it.offset + 4 ≤ it.end) × (it'.end ≡ it.end)
unfolding next
next_advances it it' e h = ground (arith, dsize_bounds it.ptag)

pub collect_fuel :
    (f g : ℕ) (it : TagIter)
    → it.end < f + it.offset
    → it.end < g + it.offset
    → collect f it ≡ collect g it
unfolding collect
collect_fuel zero zero it p q = refl
collect_fuel zero (suc g) it p q = elim (Option-cases (next it)) [
  | inl e ↦ rw (e, collect)
  | inr ((e, it'), h) ↦ absurd (omega (arith, next_advances it it' e h))
]
collect_fuel (suc f) zero it p q = elim (Option-cases (next it)) [
  | inl e ↦ rw (e, collect)
  | inr ((e, it'), h) ↦ absurd (omega (arith, next_advances it it' e h))
]
collect_fuel (suc f) (suc g) it p q = elim (Option-cases (next it)) [
  | inl e ↦ rw (e, collect)
  | inr ((e, it'), h) ↦
      let a = next_advances it it' e h in
      rw (h, collect)
        (ap (λ (es : List TagEntry). e ∷ es) (collect_fuel f g it' (omega arith) (omega arith)))
]

pub collect-next :
    (f : ℕ) (it it' : TagIter) (e : TagEntry)
    → it.end < f + it.offset
    → next it ≡ some (e, it')
    → collect f it ≡ e ∷ collect f it'
collect-next zero it it' e p h = absurd (omega (arith, next_advances it it' e h))
collect-next (suc f) it it' e p h =
    let a = next_advances it it' e h in
    unfold collect in
    rw (h, collect)
      (ap (λ (es : List TagEntry). e ∷ es) (collect_fuel f (suc f) it' (omega arith) (omega arith)))

pub collect_done : (f : ℕ) (it : TagIter) → next it ≡ none → collect f it ≡ []
unfolding collect
collect_done zero it h = refl
collect_done (suc f) it h = rw (h, collect)

-- A stored valid tag that ends within the region is the next entry.
pub next_stored :
    (it : TagIter) (t : ℕ) (body rest : List ℕ)
    → t < 2 ^ 32
    → it.ptag < 2 ^ 32
    → Tag.is_valid t ≡ true
    → length body ≡ Tag.body_len t
    → it.offset + Tag.dsize it.ptag + 4 + length body ≤ it.end
    → drop (it.offset + Tag.dsize it.ptag) it.block ≡ (to_be32 (bit_xor t it.ptag) ++ body) ++ rest
    → next it
      ≡ some (record { tag = t; body = body }, advanced it (flip_parity t (Tag.ccrc_chunk t)))
unfolding next
next_stored it t body rest word small valid size within d =
    let o = it.offset + Tag.dsize it.ptag in
    let st =
      Stored-drop it.block o (bit_xor t it.ptag) body rest (bit_xor-lt 32 t it.ptag word small) d in
    let read : slice it.block (o + 4) (Tag.body_len t) ≡ body = rw (← size) st.body_bytes in
    let fits : o + Tag.dsize t ≤ it.end = unfold Tag.dsize in omega arith in
    rw (st.word, bit_xor_cancel t it.ptag, valid, read) (ground arith)

no_chunk : (t : ℕ) → Tag.is_ccrc t ≡ false → Tag.ccrc_chunk t ≡ none
unfolding Tag.is_ccrc Tag.ccrc_chunk
no_chunk t h = ground arith

-- The iterator where the encoded entries end.
unfoldable pub behind : TagIter → List TagEntry → TagIter
behind it [] = it
behind it (e ∷ es) = behind (advanced it e.tag) es

pub record Behind (it : TagIter) (es : List TagEntry) (rest : List ℕ) : Type 0 where
  pub block : (behind it es).block ≡ it.block
  pub end : (behind it es).end ≡ it.end
  pub ptag : (behind it es).ptag ≡ last_tag it.ptag es
  pub small : (behind it es).ptag < 2 ^ 32
  pub reach : it.offset ≤ (behind it es).offset
  pub offset :
      (behind it es).offset + Tag.dsize (behind it es).ptag
      ≡ it.offset + Tag.dsize it.ptag + length (encode it.ptag es)
  pub follows : drop ((behind it es).offset + Tag.dsize (behind it es).ptag) it.block ≡ rest

pub collect_entries :
    (f : ℕ) (it : TagIter) (es : List TagEntry) (rest : List ℕ)
    → AreEntries es
    → it.ptag < 2 ^ 32
    → it.end < f + it.offset
    → it.offset + Tag.dsize it.ptag + length (encode it.ptag es) ≤ it.end
    → drop (it.offset + Tag.dsize it.ptag) it.block ≡ encode it.ptag es ++ rest
    → (collect f it ≡ es ++ collect f (behind it es)) × Behind it es rest
unfolding behind encode last_tag
collect_entries f it [] rest h small room within d = (
  refl,
  record {
    block = refl;
    end = refl;
    ptag = refl;
    small = small;
    reach = omega arith;
    offset = omega arith;
    follows = d;
  },
)
collect_entries f it (e ∷ es) rest h small room within d =
    let o = it.offset + Tag.dsize it.ptag in
    let word = to_be32 (bit_xor e.tag it.ptag) in
    let bytes = word ++ e.body in
    let d' : drop o it.block ≡ bytes ++ (encode e.tag es ++ rest) =
      d ∙ append_assoc bytes (encode e.tag es) rest in
    let st =
      Stored-drop it.block o (bit_xor e.tag it.ptag) e.body (encode e.tag es ++ rest)
        (bit_xor-lt 32 e.tag it.ptag h.0.word small) d' in
    let total : length (bytes ++ encode e.tag es) ≡ 4 + length e.body + length (encode e.tag es) =
      omega (
        arith,
        length-append bytes (encode e.tag es),
        length-append word e.body,
        length-to_be32 (bit_xor e.tag it.ptag),
      ) in
    let size : 4 + length e.body ≡ Tag.dsize e.tag =
      unfold Tag.dsize in omega (arith, h.0.body_length) in
    let after : drop (o + Tag.dsize e.tag) it.block ≡ encode e.tag es ++ rest =
      ap (λ (k : ℕ). drop (o + k) it.block) (sym size) ∙ st.after in
    let plain : flip_parity e.tag (Tag.ccrc_chunk e.tag) ≡ e.tag =
      unfold flip_parity in rw (no_chunk e.tag h.0.not_ccrc) in
    let one =
      next_stored it e.tag e.body (encode e.tag es ++ rest) h.0.word small h.0.valid h.0.body_length
        (omega arith) d' in
    let more =
      collect_entries f (advanced it e.tag) es rest h.1 h.0.word (omega arith) (omega arith)
        after in
    let m = more.1 in
    (
      collect-next f it (advanced it e.tag) e room (
            one ∙ ap (λ (k : ℕ). some (record { tag = e.tag; body = e.body }, advanced it k)) plain)
          ∙ ap (λ (l : List TagEntry). e ∷ l) more.0,
      record {
        block = m.block;
        end = m.end;
        ptag = m.ptag;
        small = m.small;
        reach = omega (arith, m.reach);
        offset = omega (arith, m.offset);
        follows = m.follows;
      },
    )
