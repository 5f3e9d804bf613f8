-- ===== src/Bitmap.antt =====
-- Bits in an array of bytes: the macros `SET_PAGE_BIT`, `CLEAR_PAGE_BIT`, `GET_PAGE_BIT` of
-- kernel/mem/pmm.c, and `SW_BITMAP_GET`, `HW_BITMAP_SET` and their like in kernel/cpu/irqhandler.c.
pub mod Laws
mod Tests
use gewodsys.Base.{ℕ, ◌-◌, ◌/◌, ◌%◌, ◌^◌, bit_and, bit_or, ◌==◌, if◌then◌else◌}

-- The byte at each index. A cell stands for its low eight bits.
abbrev pub Bitmap : Type 0
Bitmap = ℕ → ℕ

unfoldable pub set_byte : ℕ → ℕ → Bitmap → Bitmap
set_byte k v bits j = if j == k then v else bits j

-- `bits[x >> 3] |= 1 << (x % 8)`
unfoldable pub set_bit : ℕ → Bitmap → Bitmap
unfolding set_byte
set_bit x bits = set_byte (x / 8) (bit_or (bits (x / 8) % 256) (2 ^ (x % 8))) bits

-- `bits[x >> 3] &= ~(1 << (x % 8))`, with the complement cut to a byte
unfoldable pub clear_bit : ℕ → Bitmap → Bitmap
unfolding set_byte
clear_bit x bits = set_byte (x / 8) (bit_and (bits (x / 8) % 256) (255 - 2 ^ (x % 8))) bits

-- `(bits[x >> 3] & (1 << (x % 8))) >> (x % 8)`
unfoldable pub get_bit : ℕ → Bitmap → ℕ
get_bit x bits = bit_and (bits (x / 8) % 256) (2 ^ (x % 8)) / 2 ^ (x % 8)
