-- ===== src/Input/Packets.antt =====
-- The packets of three bytes that the mouse sends.
use gewodsys.Base.{ℕ, zero, suc, ◌+◌, ◌*◌, ◌≡◌, refl, sym, ap, ◌∙◌, arith}
use gewodsys.Ports.{Ports}
use gewodsys.Input.{Mouse, ps2_mouse_handler}

module _ (P : Ports) where
  open P use {Dev, in8}

  -- `n` interrupts of the mouse, one after the other.
  unfoldable pub interrupts : ℕ → Mouse → Dev → Mouse × Dev
  interrupts zero s d = (s, d)
  interrupts (suc n) s d = let (s', d') = interrupts n s d in ps2_mouse_handler P s' d'

  -- The byte that the interrupt after `n` others reads.
  abbrev pub byte_after : ℕ → Mouse → Dev → ℕ
  byte_after n s d = (in8 0x60 (interrupts n s d).1).0

  -- The mouse between two packets: it is where the second and the third byte of the last one say.
  abbrev pub AtPacket : ℕ → Mouse → Dev → Mouse → Type 0
  AtPacket n s d r =
      (r.mouse_cycle ≡ 0)
      × (r.mouse_byte0 ≡ byte_after n s d)
      × (r.mouse_x ≡ byte_after (n + 1) s d)
      × (r.mouse_y ≡ byte_after (n + 2) s d)

  step0 :
      (s : Mouse) (d : Dev)
      → s.mouse_cycle ≡ 0
      → ps2_mouse_handler P s d
        ≡ (record s { mouse_byte0 = (in8 0x60 d).0; mouse_cycle = 1 }, (in8 0x60 d).1)
  unfolding ps2_mouse_handler
  step0 s d e = rw (ps2_mouse_handler, e)

  step1 :
      (s : Mouse) (d : Dev)
      → s.mouse_cycle ≡ 1
      → ps2_mouse_handler P s d
        ≡ (record s { mouse_byte1 = (in8 0x60 d).0; mouse_cycle = 2 }, (in8 0x60 d).1)
  unfolding ps2_mouse_handler
  step1 s d e = rw (ps2_mouse_handler, e)

  step2 :
      (s : Mouse) (d : Dev)
      → s.mouse_cycle ≡ 2
      → ps2_mouse_handler P s d ≡ (
        record s {
          mouse_byte2 = (in8 0x60 d).0;
          mouse_x = s.mouse_byte1;
          mouse_y = (in8 0x60 d).0;
          mouse_cycle = 0;
        },
        (in8 0x60 d).1,
      )
  unfolding ps2_mouse_handler
  step2 s d e = rw (ps2_mouse_handler, e)

  packet :
      (n : ℕ) (s : Mouse) (d : Dev)
      → (interrupts n s d).0.mouse_cycle ≡ 0
      → AtPacket n s d (interrupts (n + 3) s d).0
  unfolding interrupts
  packet n s d start =
      let (s0, d0) = interrupts n s d in
      let n1 : n + 1 ≡ suc n = omega arith in
      let n2 : n + 2 ≡ suc (suc n) = omega arith in
      let n3 : n + 3 ≡ suc (suc (suc n)) = omega arith in
      let d1 = (in8 0x60 d0).1 in
      let d2 = (in8 0x60 d1).1 in
      let s1 = record s0 { mouse_byte0 = (in8 0x60 d0).0; mouse_cycle = 1 } in
      let s2 = record s1 { mouse_byte1 = (in8 0x60 d1).0; mouse_cycle = 2 } in
      let e0 : interrupts (suc n) s d ≡ (s1, d1) = step0 s0 d0 start in
      let e1 : interrupts (suc (suc n)) s d ≡ (s2, d2) =
        ap (λ r. ps2_mouse_handler P r.0 r.1) e0 ∙ step1 s1 d1 refl in
      let e2 = ap (λ r. ps2_mouse_handler P r.0 r.1) e1 ∙ step2 s2 d2 refl in
      let b1 = ap (λ r. (in8 0x60 r.1).0) e0 in
      let b2 = ap (λ r. (in8 0x60 r.1).0) e1 in
      rw (n1, n2, n3)
        (
          ap (λ r. r.0.mouse_cycle) e2,
          ap (λ r. r.0.mouse_byte0) e2,
          ap (λ r. r.0.mouse_x) e2 ∙ sym b1,
          ap (λ r. r.0.mouse_y) e2 ∙ sym b2,
        )

  at_start :
      (k : ℕ) (s : Mouse) (d : Dev) → s.mouse_cycle ≡ 0 → (interrupts (3 * k) s d).0.mouse_cycle ≡ 0
  unfolding interrupts
  at_start zero s d start = let e : 3 * 0 ≡ 0 = omega arith in rw e start
  at_start (suc k) s d start =
      let e : 3 * suc k ≡ 3 * k + 3 = omega arith in
      rw e (packet (3 * k) s d (at_start k s d start)).0

  -- From the start of a packet, whatever the ports give, the interrupts come in packets of three: after
  -- the packet that follows `k` others the next interrupt starts a packet, the buttons are those of
  -- the packet's first byte, and the position is its second and its third byte.
  pub interrupts-AtPacket :
      (k : ℕ) (s : Mouse) (d : Dev)
      → s.mouse_cycle ≡ 0
      → AtPacket (3 * k) s d (interrupts (3 * k + 3) s d).0
  interrupts-AtPacket k s d start = packet (3 * k) s d (at_start k s d start)
