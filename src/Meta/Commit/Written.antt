-- ===== src/Meta/Commit/Written.antt =====
-- What the builder has written: the bytes before its offset grow by the encoding of each tag, the
-- bytes from its offset on are those of the buffer that it was given.
use littlefs2_pure.Prelude.{
  ℕ, ◌+◌, ◌≤◌, bit_xor, ◌≡◌, refl, ap, subst, sym, ◌∙◌, false, List, [], ◌∷◌, ◌++◌, arith, length,
  take, drop, length-append, length-drop, take-append, drop-append, drop-drop, Result, ok,
}
use mathlib.Core.List.{append_assoc, append-nil}
use littlefs2_pure.Prelude.Bytes.{copy_at, to_be32, length-to_be32}
use littlefs2_pure.Crc
use littlefs2_pure.Crc.Laws.{update-append}
use littlefs2_pure.Tag
use littlefs2_pure.Meta.Commit.{Commit, write_body, tag}

pub take_exact : (n : ℕ) (xs ys : List ℕ) → n ≡ length xs → take n (xs ++ ys) ≡ xs
take_exact n xs ys e = ap (λ (k : ℕ). take k (xs ++ ys)) e ∙ take-append xs ys

pub drop_exact : (n : ℕ) (xs ys : List ℕ) → n ≡ length xs → drop n (xs ++ ys) ≡ ys
drop_exact n xs ys e = ap (λ (k : ℕ). drop k (xs ++ ys)) e ∙ drop-append xs ys

-- `buf` holds `done` and then what `from` held after as many bytes.
pub record Holds (from buf : List ℕ) (offset : ℕ) (done : List ℕ) : Type 0 where
  pub done_length : length done ≡ offset
  pub content : buf ≡ done ++ drop offset from

pub Holds-start : (from : List ℕ) → Holds from from 0 []
Holds-start from = record { done_length = refl; content = refl }

-- A copy at the offset moves the boundary behind the copied bytes.
pub Holds-copy_at :
    (from buf : List ℕ) (offset : ℕ) (done xs : List ℕ)
    → Holds from buf offset done
    → Holds from (copy_at buf offset xs) (offset + length xs) (done ++ xs)
unfolding copy_at
Holds-copy_at from buf offset done xs h =
    let rest = drop offset from in
    let kept : take offset buf ≡ done =
      ap (take offset) h.content ∙ take_exact offset done rest (sym h.done_length) in
    let after : drop (offset + length xs) buf ≡ drop (offset + length xs) from =
      sym (drop-drop (length xs) offset buf)
      ∙ ap (drop (length xs))
          (ap (drop offset) h.content ∙ drop_exact offset done rest (sym h.done_length))
      ∙ drop-drop (length xs) offset from in
    record {
      done_length = omega (arith, h.done_length, length-append done xs);
      content = rw (kept, after) (sym (append_assoc done xs (drop (offset + length xs) from)));
    }

Holds-write_body :
    (from buf : List ℕ) (offset : ℕ) (done xs : List ℕ)
    → Holds from buf offset done
    → Holds from (write_body buf offset xs) (offset + length xs) (done ++ xs)
unfolding write_body
Holds-write_body from buf offset done [] h = record {
  done_length = omega (arith, h.done_length, length-append done []);
  content =
      h.content
      ∙ ap (λ (k : ℕ). done ++ drop k from) {x = offset} {y = offset + 0} (omega arith)
      ∙ ap (λ (l : List ℕ). l ++ drop (offset + 0) from) (sym (append-nil done));
}
Holds-write_body from buf offset done (x ∷ xs) h = Holds-copy_at from buf offset done (x ∷ xs) h

pub Holds-length :
    (from buf : List ℕ) (offset : ℕ) (done : List ℕ)
    → Holds from buf offset done
    → offset ≤ length from
    → length buf ≡ length from
Holds-length from buf offset done h le = omega (
  arith,
  ap length h.content,
  length-append done (drop offset from),
  length-drop offset from,
  h.done_length,
)

-- The state of a builder that started on `from` and has written `done`.
pub record Wrote (from : List ℕ) (c : Commit) (done : List ℕ) : Type 0 where
  pub holds : Holds from c.buf c.offset done
  pub room : c.offset ≤ length from

pub Wrote-length :
    {from done : List ℕ} {c : Commit} → Wrote from c done → length c.buf ≡ length from
Wrote-length {from} {done} {c} w = Holds-length from c.buf c.offset done w.holds w.room

-- One tag appended, with its body.
pub record Appended (from done : List ℕ) (c : Commit) (t : ℕ) (bytes : List ℕ) (r : Result Commit)
    : Type 0 where
  pub result : Commit
  pub returns : r ≡ ok result
  pub wrote : Wrote from result (done ++ bytes)
  pub ptag : result.ptag ≡ t
  pub crc : result.crc ≡ Crc.update c.crc bytes
  pub offset : result.offset ≡ c.offset + length bytes

-- A data tag whose body has the announced length, for which there is room, is appended: the builder
-- returns, the region before the offset grows by the word and the body, and nothing else changes.
pub tag_lem :
    (from done : List ℕ) (c : Commit) (t : ℕ) (body : List ℕ)
    → Wrote from c done
    → Tag.is_ccrc t ≡ false
    → length body ≡ Tag.body_len t
    → c.offset + Tag.dsize t ≤ length from
    → Appended from done c t (to_be32 (bit_xor t c.ptag) ++ body) (tag c t body)
unfolding tag
tag_lem from done c t body w plain fits room =
    let word = to_be32 (bit_xor t c.ptag) in
    let four : length word ≡ 4 = length-to_be32 (bit_xor t c.ptag) in
    let size : length (word ++ body) ≡ Tag.dsize t =
      length-append word body ∙ unfold Tag.dsize in omega arith in
    let one : Holds from (copy_at c.buf c.offset word) (c.offset + 4) (done ++ word) =
      subst (λ (k : ℕ). Holds from (copy_at c.buf c.offset word) (c.offset + k) (done ++ word)) four
        (Holds-copy_at from c.buf c.offset done word w.holds) in
    let two =
      Holds-write_body from (copy_at c.buf c.offset word) (c.offset + 4) (done ++ word) body one in
    let same : c.offset + 4 + length body ≡ c.offset + Tag.dsize t =
      unfold Tag.dsize in omega arith in
    record {
      result = record {
        buf = write_body (copy_at c.buf c.offset word) (c.offset + 4) body;
        offset = c.offset + Tag.dsize t;
        ptag = t;
        crc = Crc.update (Crc.update c.crc word) body;
      };
      returns = rw plain (ground (arith, Wrote-length w));
      wrote = record {
        holds = rw (← append_assoc done word body) (
            subst
              (λ (k : ℕ).
                Holds from (write_body (copy_at c.buf c.offset word) (c.offset + 4) body) k
                  ((done ++ word) ++ body))
              same two);
        room = room;
      };
      ptag = refl;
      crc = sym (update-append c.crc word body);
      offset = omega arith;
    }
