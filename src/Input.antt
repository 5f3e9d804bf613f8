-- ===== src/Input.antt =====
-- kernel/kernel.c: the PS/2 keyboard and mouse.
pub mod Packets
mod Tests
use gewodsys.Base.{ℕ, zero, suc, bit_and, bit_or, ◌==◌, if◌then◌else◌}
use gewodsys.Ports.{Ports}

-- The static variables of the mouse. The bytes are bit patterns of `int8_t`.
pub record Mouse : Type 0 where
  pub mouse_cycle : ℕ
  pub mouse_byte0 : ℕ
  pub mouse_byte1 : ℕ
  pub mouse_byte2 : ℕ
  pub mouse_x : ℕ
  pub mouse_y : ℕ

module _ (P : Ports) where
  open P use {Dev, out8, in8}

  unfoldable pub ps2_keyboard_handler : Dev → Dev
  ps2_keyboard_handler d = (in8 0x60 d).1

  unfoldable pub ps2_mouse_handler : Mouse → Dev → Mouse × Dev
  ps2_mouse_handler s d =
      let (byte, d') = in8 0x60 d in
      if s.mouse_cycle == 0
      then (record s { mouse_byte0 = byte; mouse_cycle = 1 }, d')
      else if s.mouse_cycle == 1
      then (record s { mouse_byte1 = byte; mouse_cycle = 2 }, d')
      else if s.mouse_cycle == 2
      then (
        record s { mouse_byte2 = byte; mouse_x = s.mouse_byte1; mouse_y = byte; mouse_cycle = 0 },
        d',
      )
      else (s, d)

  -- The loops of `mouse_wait`, with the rounds left.
  unfoldable pub wait_loop : ℕ → ℕ → Dev → Dev
  wait_loop zero kind d = d
  wait_loop (suc n) kind d =
      let (status, d') = in8 0x64 d in
      let rest = wait_loop n kind d' in
      if kind == 0
      then (if bit_and status 1 == 1 then d' else rest)
      else (if bit_and status 2 == 0 then d' else rest)

  abbrev pub time_out : ℕ
  time_out = 100000

  unfoldable pub mouse_wait : ℕ → Dev → Dev
  unfolding wait_loop
  mouse_wait kind d = wait_loop time_out kind d

  unfoldable pub mouse_write : ℕ → Dev → Dev
  unfolding mouse_wait
  mouse_write value d = out8 0x60 value (mouse_wait 1 (out8 0x64 0xD4 (mouse_wait 1 d)))

  unfoldable pub mouse_read : Dev → ℕ × Dev
  unfolding mouse_wait
  mouse_read d = in8 0x60 (mouse_wait 0 d)

  -- The part of `KeMain` that turns the mouse on.
  unfoldable pub enable_mouse : Dev → Dev
  unfolding mouse_wait mouse_write mouse_read
  enable_mouse d =
      let d1 = out8 0x64 0x20 (mouse_wait 1 (out8 0x64 0xA8 (mouse_wait 1 d))) in
      let (status, d2) = in8 0x60 (mouse_wait 0 d1) in
      let d3 = out8 0x60 (bit_or status 2) (mouse_wait 1 (out8 0x64 0x60 (mouse_wait 1 d2))) in
      (mouse_read (mouse_write 0xF4 (mouse_read (mouse_write 0xF6 d3)).1)).1
