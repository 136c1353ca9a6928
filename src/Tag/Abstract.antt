-- ===== src/Tag/Abstract.antt =====
-- `AbstractType` of src/tag.rs: the three high bits of the type field.
use mathlib.Core.Option
use littlefs2_pure.Prelude.{ℕ, ◌<◌, ◌≡◌, Option, none, some, arith, ◌==◌, if◌then◌else◌}

pub data AbstractType : Type 0 where
  name struct user_attr from tail crc splice globals : AbstractType

unfoldable pub from_bits : ℕ → Option AbstractType
from_bits b =
    if b == 0x0
    then some name
    else if b == 0x1
    then some from
    else if b == 0x2
    then some struct
    else if b == 0x3
    then some user_attr
    else if b == 0x4
    then some splice
    else if b == 0x5
    then some crc
    else if b == 0x6
    then some tail
    else if b == 0x7
    then some globals
    else none

-- The discriminants of the enum.
unfoldable pub discriminant : AbstractType → ℕ
discriminant name = 0x0
discriminant struct = 0x2
discriminant user_attr = 0x3
discriminant from = 0x1
discriminant tail = 0x6
discriminant crc = 0x5
discriminant splice = 0x4
discriminant globals = 0x7

-- Below eight every number is the discriminant of the type that `from_bits` gives, so the decoder
-- of a masked three bit field never fails.
from_bits_total : (b : ℕ) → b < 8 → Option.map discriminant (from_bits b) ≡ some b
unfolding from_bits discriminant
from_bits_total b h = ground arith
