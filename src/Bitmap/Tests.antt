-- ===== src/Bitmap/Tests.antt =====
-- Bits of a small bitmap.
use gewodsys.Base.{◌≡◌, refl}
use gewodsys.Bitmap.{set_bit, clear_bit, get_bit}

set_then_read : get_bit 13 (set_bit 13 (set_bit 9 (λ _. 0))) ≡ 1
unfolding get_bit set_bit
set_then_read = refl

cleared_apart : get_bit 9 (clear_bit 13 (set_bit 13 (set_bit 9 (λ _. 0)))) ≡ 1
unfolding get_bit set_bit clear_bit
cleared_apart = refl
