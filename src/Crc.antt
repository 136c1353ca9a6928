-- ===== src/Crc.antt =====
-- src/crc.rs: the nibble table, `update`, `compute` and `update_bitwise`.
pub mod Laws
use littlefs2_pure.Prelude.{
  ℕ, zero, suc, ◌+◌, ◌-◌, ◌*◌, ◌/◌, ◌%◌, ◌^◌, bit_and, bit_xor, List, [], ◌∷◌,
}
use littlefs2_pure.Prelude.Words.{◌>>>◌, low_bits}
use littlefs2_pure.Prelude.Bytes.{byte_at}

abbrev pub nibble_table : List ℕ
nibble_table =
    0x0000_0000 ∷ 0x1db7_1064 ∷ 0x3b6e_20c8 ∷ 0x26d9_30ac ∷ 0x76dc_4190 ∷ 0x6b6b_51f4 ∷ 0x4db2_6158
    ∷ 0x5005_713c ∷ 0xedb8_8320 ∷ 0xf00f_9344 ∷ 0xd6d6_a3e8 ∷ 0xcb61_b38c ∷ 0x9b64_c2b0
    ∷ 0x86d3_d2d4 ∷ 0xa00a_e278 ∷ 0xbdbd_f21c ∷ []

abbrev pub init : ℕ
init = 0xffff_ffff

abbrev pub polynomial : ℕ
polynomial = 0xedb8_8320

-- One nibble: `crc = (crc >> 4) ^ NIBBLE_TABLE[(crc ^ n) & 0xf]`.
unfoldable pub update_nibble : ℕ → ℕ → ℕ
update_nibble crc n = bit_xor (crc >>> 4) (byte_at nibble_table (low_bits (bit_xor crc n) 4))

unfoldable pub update : ℕ → List ℕ → ℕ
update crc [] = crc
update crc (b ∷ rest) = update (update_nibble (update_nibble crc b) (b >>> 4)) rest

unfoldable pub compute : List ℕ → ℕ
compute bytes = update init bytes

-- One of the eight rounds: `mask = (crc & 1).wrapping_neg()`, then shift and subtract.
pub bitwise_round : ℕ → ℕ
bitwise_round crc =
    let mask = (2 ^ 32 - low_bits crc 1) % 2 ^ 32 in bit_xor (crc >>> 1) (bit_and polynomial mask)

-- `for _ in 0..n`
pub bitwise_rounds : ℕ → ℕ → ℕ
bitwise_rounds zero crc = crc
bitwise_rounds (suc n) crc = bitwise_rounds n (bitwise_round crc)

pub update_bitwise : ℕ → List ℕ → ℕ
update_bitwise crc [] = crc
update_bitwise crc (byte ∷ rest) = update_bitwise (bitwise_rounds 8 (bit_xor crc byte)) rest
