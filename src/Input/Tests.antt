-- ===== src/Input/Tests.antt =====
-- A mouse behind a port that counts up with each byte read.
use gewodsys.Base.{ℕ, ◌+◌, ◌%◌, ◌≡◌, refl}
use gewodsys.Ports.{Ports}
use gewodsys.Input.{Mouse, ps2_mouse_handler}
use gewodsys.Input.Packets.{interrupts, AtPacket, interrupts-AtPacket}

abbrev counter : Ports
counter = record {
  Dev = ℕ;
  out8 = λ port v d. d;
  out16 = λ port v d. d;
  out32 = λ port v d. d;
  in8 = λ port d. (d % 256, d + 1);
  in32 = λ port d. (d, d);
}

abbrev still : Mouse
still = record {
  mouse_cycle = 0;
  mouse_byte0 = 0;
  mouse_byte1 = 0;
  mouse_byte2 = 0;
  mouse_x = 0;
  mouse_y = 0;
}

moved : (interrupts counter 7 still 5).0.mouse_y ≡ 10
unfolding interrupts ps2_mouse_handler
moved = refl

interrupts-AtPacket_example : AtPacket counter 3 still 5 (interrupts counter 6 still 5).0
interrupts-AtPacket_example = interrupts-AtPacket counter 1 still 5 refl
