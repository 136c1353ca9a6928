-- ===== src/Ctz/Codec.antt =====
-- The eight bytes of a `CtzStruct` are read back.
use littlefs2_pure.Prelude.{ℕ, ◌<◌, ◌^◌, ◌≡◌, refl, ◌++◌, arith, length, ok}
use littlefs2_pure.Prelude.Bytes.{le32_at, to_le32, le32_at-to_le32}
use littlefs2_pure.Ctz.{CtzStruct, from_bytes, to_bytes}

second_word : (x y : ℕ) → y < 2 ^ 32 → le32_at (to_le32 x ++ to_le32 y) 4 ≡ y
unfolding le32_at to_le32
second_word x y h = omega arith

-- Encoding a struct of two words and decoding it gives the struct back.
from_bytes-to_bytes :
    (c : CtzStruct) → c.head_block < 2 ^ 32 → c.size < 2 ^ 32 → from_bytes (to_bytes c) ≡ ok c
unfolding from_bytes to_bytes
from_bytes-to_bytes c h k =
    let first = le32_at-to_le32 c.head_block (to_le32 c.size) h in
    let size_ok : length (to_le32 c.head_block ++ to_le32 c.size) ≡ 8 = unfold to_le32 in refl in
    rw (size_ok, first, second_word c.head_block c.size k) refl
