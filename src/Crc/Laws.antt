-- ===== src/Crc/Laws.antt =====
-- The table driven CRC is the bit by bit CRC, chains over concatenation, and stays a 32 bit word.
use littlefs2_pure.Prelude.{
  ℕ, zero, suc, ◌*◌, ◌/◌, ◌%◌, ◌^◌, ◌<◌, bit_xor, ◌≡◌, refl, sym, ap, ◌∙◌, ◌⊎◌, inl, inr, Bool,
  true, false, if◌then◌else◌, List, [], ◌∷◌, ◌++◌, arith, ◌==◌, ==_iff, ltb, ltb→lt,
}
use littlefs2_pure.Prelude.Bits.{
  bit_xor_half, bit_xor_parity, bit_xor_comm, bit_xor_assoc, bit_xor_cancel, bit_xor-zero,
  bit_xor_shift4, bit_xor_fields, bit_xor-lt,
}
use littlefs2_pure.Prelude.Bytes.{byte_at, IsBytes}
use littlefs2_pure.Crc.{
  nibble_table, polynomial, update_nibble, update, bitwise_round, bitwise_rounds, update_bitwise,
}

-- A test that holds of each number below a bound, by evaluation.
checked_below : (ℕ → Bool) → ℕ → Bool
checked_below test zero = true
checked_below test (suc last) =
    let earlier = checked_below test last in if test last then earlier else false

checked_at :
    (test : ℕ → Bool) (bound i : ℕ) → i < bound → checked_below test bound ≡ true → test i ≡ true
unfolding checked_below
checked_at test zero i below holds = absurd (omega arith)
checked_at test (suc last) i below holds = ground (arith, checked_at test last i)

parity_cases : (n : ℕ) → (n % 2 ≡ 0) ⊎ (n % 2 ≡ 1)
parity_cases n = grind arith

round_even : (n : ℕ) → n % 2 ≡ 0 → bitwise_round n ≡ n / 2
unfolding bitwise_round
round_even n e = rw e (bit_xor-zero (n / 2))

round_odd : (n : ℕ) → n % 2 ≡ 1 → bitwise_round n ≡ bit_xor (n / 2) polynomial
unfolding bitwise_round
round_odd n e = rw e

-- Three arrangements of the polynomial among two halves.
left_swap : (a b p : ℕ) → bit_xor (bit_xor a b) p ≡ bit_xor (bit_xor a p) b
left_swap a b p =
    bit_xor_assoc a b p ∙ ap (λ (t : ℕ). bit_xor a t) (bit_xor_comm b p) ∙ sym (bit_xor_assoc a p b)

both_cancel : (a b p : ℕ) → bit_xor a b ≡ bit_xor (bit_xor a p) (bit_xor b p)
both_cancel a b p =
    ap (λ (t : ℕ). bit_xor t b) (sym (bit_xor_cancel a p))
    ∙ bit_xor_assoc (bit_xor a p) p b
    ∙ ap (λ (t : ℕ). bit_xor (bit_xor a p) t) (bit_xor_comm p b)

-- A round is linear over exclusive or.
round-bit_xor :
    (a b : ℕ) → bitwise_round (bit_xor a b) ≡ bit_xor (bitwise_round a) (bitwise_round b)
round-bit_xor a b = go (parity_cases a) (parity_cases b)
  where
    go :
        (a % 2 ≡ 0) ⊎ (a % 2 ≡ 1)
        → (b % 2 ≡ 0) ⊎ (b % 2 ≡ 1)
        → bitwise_round (bit_xor a b) ≡ bit_xor (bitwise_round a) (bitwise_round b)
    go (inl p) (inl q) =
        rw (round_even a p, round_even b q)
          (round_even (bit_xor a b) (omega (arith, bit_xor_parity a b)) ∙ bit_xor_half a b)
    go (inl p) (inr q) =
        rw (round_even a p, round_odd b q)
          (round_odd (bit_xor a b) (omega (arith, bit_xor_parity a b))
            ∙ ap (λ (t : ℕ). bit_xor t polynomial) (bit_xor_half a b)
            ∙ bit_xor_assoc (a / 2) (b / 2) polynomial)
    go (inr p) (inl q) =
        rw (round_odd a p, round_even b q)
          (round_odd (bit_xor a b) (omega (arith, bit_xor_parity a b))
            ∙ ap (λ (t : ℕ). bit_xor t polynomial) (bit_xor_half a b)
            ∙ left_swap (a / 2) (b / 2) polynomial)
    go (inr p) (inr q) =
        rw (round_odd a p, round_odd b q)
          (round_even (bit_xor a b) (omega (arith, bit_xor_parity a b))
            ∙ bit_xor_half a b
            ∙ both_cancel (a / 2) (b / 2) polynomial)

rounds-bit_xor :
    (n a b : ℕ) → bitwise_rounds n (bit_xor a b) ≡ bit_xor (bitwise_rounds n a) (bitwise_rounds n b)
unfolding bitwise_rounds
rounds-bit_xor zero a b = refl
rounds-bit_xor (suc n) a b = rw round-bit_xor (rounds-bit_xor n (bitwise_round a) (bitwise_round b))

rounds_high : (h : ℕ) → bitwise_rounds 4 (h * 16) ≡ h
unfolding bitwise_rounds
rounds_high h =
    rw
      (
        round_even (h * 16) (omega arith),
        round_even (h * 16 / 2) (omega arith),
        round_even (h * 16 / 2 / 2) (omega arith),
        round_even (h * 16 / 2 / 2 / 2) (omega arith),
      )
      (omega arith)

table_rounds : checked_below (λ l. bitwise_rounds 4 l == byte_at nibble_table l) 16 ≡ true
unfolding checked_below bitwise_rounds bitwise_round
table_rounds = refl

rounds_low : (l : ℕ) → l < 16 → bitwise_rounds 4 l ≡ byte_at nibble_table l
rounds_low l h = (==_iff _ _).0 (checked_at _ 16 l h table_rounds)

-- Four rounds are one look-up in the table.
rounds_nibble :
    (c : ℕ) → bitwise_rounds 4 c ≡ bit_xor (c / 2 ^ 4) (byte_at nibble_table (c % 2 ^ 4))
rounds_nibble c =
    ap (bitwise_rounds 4) {x = c} {y = bit_xor (c / 16 * 16) (c % 16)}
      (omega (arith, bit_xor_fields (c / 16) (c % 16)))
    ∙ rounds-bit_xor 4 (c / 16 * 16) (c % 16)
    ∙ rw (rounds_high (c / 16), rounds_low (c % 16) (omega arith))

nibble-bit_xor :
    (c n : ℕ) → bitwise_rounds 4 (bit_xor c n) ≡ bit_xor (update_nibble c n) (n / 2 ^ 4)
unfolding update_nibble
nibble-bit_xor c n =
    rounds_nibble (bit_xor c n)
    ∙ ap (λ (t : ℕ). bit_xor t (byte_at nibble_table (bit_xor c n % 2 ^ 4))) (bit_xor_shift4 c n)
    ∙ left_swap (c / 2 ^ 4) (n / 2 ^ 4) (byte_at nibble_table (bit_xor c n % 2 ^ 4))

rounds_twice : (c : ℕ) → bitwise_rounds 8 c ≡ bitwise_rounds 4 (bitwise_rounds 4 c)
unfolding bitwise_rounds
rounds_twice c = refl

byte_step :
    (c b : ℕ)
    → b < 256
    → update_nibble (update_nibble c b) (b / 2 ^ 4) ≡ bitwise_rounds 8 (bit_xor c b)
byte_step c b h = sym (
    rounds_twice (bit_xor c b)
    ∙ ap (bitwise_rounds 4) (nibble-bit_xor c b)
    ∙ nibble-bit_xor (update_nibble c b) (b / 2 ^ 4)
    ∙ rw (let e : b / 2 ^ 4 / 2 ^ 4 ≡ 0 = omega arith in e)
        (bit_xor-zero (update_nibble (update_nibble c b) (b / 2 ^ 4))))

-- For every seed and every string of bytes, the table driven `update` returns what the bit by bit
-- reference `update_bitwise` returns.
pub update-eq-update_bitwise :
    (crc : ℕ) (bytes : List ℕ) → IsBytes bytes → update crc bytes ≡ update_bitwise crc bytes
unfolding update update_bitwise
update-eq-update_bitwise crc [] h = refl
update-eq-update_bitwise crc (b ∷ rest) h =
    rw (byte_step crc b h.0) (update-eq-update_bitwise (bitwise_rounds 8 (bit_xor crc b)) rest h.1)

-- Running over a concatenation is running over the first part and then, from the register that it
-- leaves, over the second.
pub update-append : (crc : ℕ) (xs ys : List ℕ) → update crc (xs ++ ys) ≡ update (update crc xs) ys
unfolding update
update-append crc [] ys = refl
update-append crc (b ∷ xs) ys =
    update-append (update_nibble (update_nibble crc b) (b / 2 ^ 4)) xs ys

table_words : checked_below (λ l. ltb (byte_at nibble_table l) (2 ^ 32)) 16 ≡ true
unfolding checked_below
table_words = refl

update_nibble-lt : (c n : ℕ) → c < 2 ^ 32 → update_nibble c n < 2 ^ 32
unfolding update_nibble
update_nibble-lt c n h =
    bit_xor-lt 32 (c / 2 ^ 4) _ (omega arith)
      (ltb→lt _ _ (checked_at _ 16 (bit_xor c n % 2 ^ 4) (omega arith) table_words))

-- The register of a seed below 2 ^ 32 stays below 2 ^ 32.
pub update-lt : (crc : ℕ) (bytes : List ℕ) → crc < 2 ^ 32 → update crc bytes < 2 ^ 32
unfolding update
update-lt crc [] h = h
update-lt crc (b ∷ rest) h =
    update-lt (update_nibble (update_nibble crc b) (b / 2 ^ 4)) rest
      (update_nibble-lt (update_nibble crc b) (b / 2 ^ 4) (update_nibble-lt crc b h))
