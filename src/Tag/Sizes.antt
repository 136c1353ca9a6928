-- ===== src/Tag/Sizes.antt =====
-- Bounds on the sizes that a tag announces.
use littlefs2_pure.Prelude.{◌+◌, ◌≤◌, arith}
use littlefs2_pure.Tag.{Tag, body_len, dsize}

-- The word itself takes four bytes, and no body is longer than 1022 bytes.
pub dsize_bounds : (tag : Tag) → (4 ≤ dsize tag) × (dsize tag ≤ 4 + 0x3fe)
unfolding dsize body_len
dsize_bounds tag = ground arith
