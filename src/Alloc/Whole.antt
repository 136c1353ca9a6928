-- ===== src/Alloc/Whole.antt =====
-- A scan of the forest keeps the size of the bitmap.
use littlefs2_pure.Prelude.{
  ℕ, zero, suc, ◌-◌, ◌%◌, ◌≡◌, subst, inl, inr, ◌||◌, Bool-cases, Option, none, some, List, [], ◌∷◌,
  ltb, ◌==◌, take, replicate, Result, ok, err, chain_ok, Result-cases, corrupt, geometry_mismatch,
}
use littlefs2_pure.Prelude.Words.{u32}
use littlefs2_pure.Prelude.Bytes.{le32_at}
use littlefs2_pure.Block.{BlockAddress, BlockPair}
use littlefs2_pure.Storage.{Storage, read_or_io}
use littlefs2_pure.Ctz.{require_in_bounds, block_count}
use littlefs2_pure.Meta.Pair.{parse}
use littlefs2_pure.Dir.{max_live_entries}
use littlefs2_pure.Alloc.{Bitmap, mark}
use littlefs2_pure.Alloc.Laws.{IsBitmap, mark_ok}
use littlefs2_pure.Alloc.Scan.{
  LiveStruct, no_struct, max_queued_pairs, mark_in_bounds, mark_chain, header_len, walk_ctz_chain,
  live_struct_step, live_structs_walk, collect_child, collect_tail, gather_live_structs, visit_pair,
  enqueue, search_queue, finished, scan_used_blocks,
}

abbrev Keeps : Bitmap → Result Bitmap → Type 0
Keeps m r = (m' : Bitmap) → r ≡ ok m' → IsBitmap m'

mark_in_bounds-Keeps :
    (s : Storage) (b : BlockAddress) (m : Bitmap) → IsBitmap m → Keeps m (mark_in_bounds s b m)
unfolding mark_in_bounds
mark_in_bounds-Keeps s b m w m' h =
    let (b', k, e) = chain_ok (require_in_bounds s b) (λ b. mark b m) h in (mark_ok m m' b' w e).1

mark_chain-Keeps :
    (s : Storage) (i : ℕ) (head : BlockAddress) (m : Bitmap)
    → IsBitmap m
    → Keeps m (mark_chain s i head m)
unfolding mark_chain
mark_chain-Keeps s zero head m w m' h = mark_in_bounds-Keeps s head m w m' h
mark_chain-Keeps s (suc zero) head m w m' h =
    let (m1, e1, h1) = chain_ok (mark_in_bounds s head m) _ h in
    let (ps, e2, h2) = chain_ok (read_or_io s head 0 (header_len s 1)) _ h1 in
    mark_chain-Keeps s zero (le32_at ps 0) m1 (mark_in_bounds-Keeps s head m w m1 e1) m' h2
mark_chain-Keeps s (suc (suc i)) head m w m' h =
    let (m1, e1, h1) = chain_ok (mark_in_bounds s head m) _ h in
    let w1 = mark_in_bounds-Keeps s head m w m1 e1 in
    let (ps, e2, h2) = chain_ok (read_or_io s head 0 (header_len s (2 - suc (suc i) % 2))) _ h1 in
    elim (Bool-cases (2 - suc (suc i) % 2 == 2)) [
      | inl e ↦
          let (m2, e3, h3) =
            chain_ok (mark_in_bounds s (le32_at ps 0) m1) (λ u. mark_chain s i (le32_at ps 4) u)
              (rw e at h2) in
          mark_chain-Keeps s i (le32_at ps 4) m2 (mark_in_bounds-Keeps s (le32_at ps 0) m1 w1 m2 e3)
            m' h3
      | inr e ↦ mark_chain-Keeps s (suc i) (le32_at ps 0) m1 w1 m' (rw e at h2)
    ]

walk_ctz_chain-Keeps :
    (s : Storage) (head size : ℕ) (m : Bitmap) → IsBitmap m → Keeps m (walk_ctz_chain s head size m)
unfolding walk_ctz_chain
walk_ctz_chain-Keeps s head size m w m' h =
    let total = block_count size (u32 s.block_size) in
    elim (Bool-cases (size == 0)) [
      | inl e ↦ let same : ok m ≡ ok m' = rw e at h in let at : m ≡ m' = cc in subst IsBitmap at w
      | inr e ↦ elim (Bool-cases (ltb s.block_count total)) [
        | inl f ↦
            let failed : ◌≡◌ {A = Result Bitmap} (err corrupt) (ok m') = rw (e, f) at h in
            absurd (cc)
        | inr f ↦ mark_chain-Keeps s (total - 1) head m w m' (rw (e, f) at h)
      ]
    ]

-- A step on a bitmap next to something else.
abbrev KeepsFirst : {A : Type 0} → Result (Bitmap × A) → Type 0
KeepsFirst {A} r = (p : Bitmap × A) → r ≡ ok p → IsBitmap p.0

live_struct_step-Keeps :
    (s : Storage) (ls : LiveStruct) (st : Bitmap × List BlockPair)
    → IsBitmap st.0
    → KeepsFirst (live_struct_step s ls st)
unfolding live_struct_step
live_struct_step-Keeps s ls st w p h = elim (Bool-cases (ls.kind == 1)) [
  | inl e ↦
      let (m, k, h1) =
        chain_ok (walk_ctz_chain s ls.w0 ls.w1 st.0) (λ used. ok (used, st.1)) (rw e at h) in
      let at : m ≡ p.0 = cc in subst IsBitmap at (walk_ctz_chain-Keeps s ls.w0 ls.w1 st.0 w m k)
  | inr e ↦ elim (Bool-cases (ls.kind == 2)) [
    | inl f ↦
        let (children, k, h1) =
          chain_ok (collect_child s st.0 (record { a = ls.w0; b = ls.w1 }) st.1)
            (λ children. ok (st.0, children)) (rw (e, f) at h) in
        let at : st.0 ≡ p.0 = cc in subst IsBitmap at w
    | inr f ↦
        let same : ok st ≡ ok p = rw (e, f) at h in let at : st.0 ≡ p.0 = cc in subst IsBitmap at w
  ]
]

live_structs_walk-Keeps :
    (s : Storage) (live : List LiveStruct) (st : Bitmap × List BlockPair)
    → IsBitmap st.0
    → KeepsFirst (live_structs_walk s live st)
unfolding live_structs_walk
live_structs_walk-Keeps s [] st w p h = let at : st.0 ≡ p.0 = cc in subst IsBitmap at w
live_structs_walk-Keeps s (ls ∷ rest) st w p h =
    let (st', k, h1) = chain_ok (live_struct_step s ls st) _ h in
    live_structs_walk-Keeps s rest st' (live_struct_step-Keeps s ls st w st' k) p h1

collect_tail-Keeps :
    (s : Storage) (tail : Option BlockPair) (st : Bitmap × List BlockPair)
    → IsBitmap st.0
    → KeepsFirst (collect_tail s tail st)
unfolding collect_tail
collect_tail-Keeps s none st w p h = let at : st.0 ≡ p.0 = cc in subst IsBitmap at w
collect_tail-Keeps s (some t) st w p h =
    let (children, k, h1) = chain_ok (collect_child s st.0 t st.1) (λ c. ok (st.0, c)) h in
    let at : st.0 ≡ p.0 = cc in subst IsBitmap at w

first_of :
    (m : Bitmap) (slots : List LiveStruct) (c : List BlockPair) (st : Bitmap × List LiveStruct)
    (children : List BlockPair)
    → ◌≡◌ {A = Result ((Bitmap × List LiveStruct) × List BlockPair)}
        (ok ((m, slots), c))
        (ok (st, children))
    → m ≡ st.0
first_of m slots c st children h = cc

visit_pair-Keeps :
    (s : Storage) (pair : BlockPair) (st : Bitmap × List LiveStruct)
    → IsBitmap st.0
    → (st' : Bitmap × List LiveStruct) (children : List BlockPair)
    → visit_pair s pair st ≡ ok (st', children)
    → IsBitmap st'.0
unfolding visit_pair
visit_pair-Keeps s pair st w st' children h =
    let (ma, ea, h1) = chain_ok (mark pair.a st.0) _ h in
    let (mb, eb, h2) = chain_ok (mark pair.b ma) _ h1 in
    let (block_a, ra, h3) = chain_ok (read_or_io s pair.a 0 s.block_size) _ h2 in
    let (block_b, rb, h4) = chain_ok (read_or_io s pair.b 0 s.block_size) _ h3 in
    let (parsed, ep, h5) = chain_ok (parse pair.a block_a pair.b block_b) _ h4 in
    let (live, el, h6) = chain_ok (gather_live_structs parsed.reader st.1) _ h5 in
    let (walked, ew, h7) =
      chain_ok (live_structs_walk s (take live.count live.slots) (mb, [])) _ h6 in
    let (ended, ee, h8) = chain_ok (collect_tail s parsed.reader.tail walked) _ h7 in
    let wb = (mark_ok ma mb pair.b (mark_ok st.0 ma pair.a w ea).1 eb).1 in
    let ww = live_structs_walk-Keeps s (take live.count live.slots) (mb, []) wb walked ew in
    let at = first_of ended.0 live.slots ended.1 st' children h8 in
    subst IsBitmap at (collect_tail-Keeps s parsed.reader.tail walked ww ended ee)

-- What the visits keep, the search keeps.
search_queue-Keeps :
    (s : Storage) (fuel : ℕ) (pending : List BlockPair) (tail : ℕ) (st : Bitmap × List LiveStruct)
    (out : Bitmap × List LiveStruct)
    → IsBitmap st.0
    → search_queue (visit_pair s) fuel pending tail st ≡ some (ok out)
    → IsBitmap out.0
unfolding search_queue
search_queue-Keeps s zero [] tail st out w h = let at : st.0 ≡ out.0 = cc in subst IsBitmap at w
search_queue-Keeps s (suc fuel) [] tail st out w h =
    let at : st.0 ≡ out.0 = cc in subst IsBitmap at w
search_queue-Keeps s zero (pair ∷ rest) tail st out w h = absurd (cc)
search_queue-Keeps s (suc fuel) (pair ∷ rest) tail st out w h =
    elim (Result-cases (visit_pair s pair st)) [
      | inr (e, v) ↦
          let failed : some (err e) ≡ some (ok out) = rw (v, search_queue) at h in absurd (cc)
      | inl ((st', children), v) ↦
          elim (Result-cases (enqueue children (record { pending = rest; tail = tail }))) [
            | inr (e, q) ↦
                let failed : some (err e) ≡ some (ok out) = rw (v, q, search_queue) at h in
                absurd (cc)
            | inl (q', q) ↦
                search_queue-Keeps s fuel q'.pending q'.tail st' out
                  (visit_pair-Keeps s pair st w st' children v) (rw (v, q, search_queue) at h)
          ]
    ]

finished_ok : {A : Type 0} (r : Option (Result A)) (a : A) → finished r ≡ ok a → r ≡ some (ok a)
unfolding finished
finished_ok none a h = absurd (cc)
finished_ok (some r) a h = cc

-- A scan that succeeds leaves a bitmap of the size that it was given.
pub scan_used_blocks-IsBitmap :
    (s : Storage) (root : BlockPair) (len_a len_b : ℕ) (m m' : Bitmap)
    → IsBitmap m
    → scan_used_blocks s root len_a len_b m ≡ ok m'
    → IsBitmap m'
unfolding scan_used_blocks
scan_used_blocks-IsBitmap s root len_a len_b m m' w h =
    elim (Bool-cases (ltb len_a s.block_size || ltb len_b s.block_size)) [
      | inl e ↦
          let failed : ◌≡◌ {A = Result Bitmap} (err geometry_mismatch) (ok m') = rw e at h in
          absurd (cc)
      | inr e ↦
          let found =
            search_queue (visit_pair s) max_queued_pairs (root ∷ []) 1
              (m, replicate max_live_entries no_struct) in
          let (st, f, h1) = chain_ok (finished found) (λ st. ok st.0) (rw e at h) in
          let at : st.0 ≡ m' = cc in
          subst IsBitmap at (
            search_queue-Keeps s max_queued_pairs (root ∷ []) 1
              (m, replicate max_live_entries no_struct) st w (finished_ok found st f))
    ]
