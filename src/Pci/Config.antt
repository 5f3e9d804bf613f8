-- ===== src/Pci/Config.antt =====
-- What the reads and writes of the configuration space see and change.
use gewodsys.Base.{
  ℕ, ◌+◌, ◌*◌, ◌/◌, ◌%◌, ◌^◌, ◌<◌, ◌≡◌, inl, inr, ap₂, ◌∙◌, arith, bit_and, true, ◌==◌, ==_iff,
  Bool-cases,
}
use gewodsys.Base.Bits.{bit_or_shifted}
use gewodsys.Base.Masks.{bit_and-ones, bit_and-shifted}
use gewodsys.Ports.{Ports, HasConfig}
use gewodsys.Pci.{PciDevice, config_address, read8, read16, read32}
use gewodsys.Pci.Address.{offset_word}

pub config_address-same :
    (p : PciDevice) (i j : ℕ)
    → i < 256
    → j < 256
    → i / 4 ≡ j / 4
    → config_address p i ≡ config_address p j
unfolding config_address
config_address-same p i j hi hj e = rw (offset_word i hi, offset_word j hj, e)

module _ (P : Ports) (C : HasConfig P) where
  open P use {Dev, out8, out16, out32, in8, in32}
  open C use {
    byte, plain, byte-lt, byte-select, in32-data, in32-keeps, in8-data, in8-keeps, out16-data,
    out8-data,
  }

  -- The byte of a register, and whether it keeps what is written to it.
  abbrev pub config : PciDevice → ℕ → Dev → ℕ
  config p o d = byte (config_address p o) (o % 4) d

  abbrev pub IsPlain : PciDevice → ℕ → Type 0
  IsPlain p o = plain (config_address p o) (o % 4) ≡ true

  pub read8-config :
      (p : PciDevice) (o b j : ℕ) (d : Dev)
      → ((read8 P p o d).0 ≡ config p o d) × (byte b j (read8 P p o d).1 ≡ byte b j d)
  unfolding read8
  read8-config p o b j d =
      let m : bit_and o 3 ≡ o % 4 = bit_and-ones 2 o in
      rw (read8, m)
        (
          in8-data (config_address p o) (o % 4) d (omega arith),
          in8-keeps (config_address p o) (o % 4) b j d (omega arith),
        )

  read16-bytes :
      (p : PciDevice) (o : ℕ) (d : Dev)
      → (read16 P p o d).0
        ≡ byte (config_address p o) (o / 2 % 2 * 2) d
          + 256 * byte (config_address p o) (o / 2 % 2 * 2 + 1) d
  unfolding read16
  read16-bytes p o d =
      let a : ℕ = config_address p o in
      let m : bit_and o 2 ≡ o / 2 % 2 * 2 = bit_and-shifted 1 1 o in
      let mask = bit_and-ones 16 in
      let b0 = byte-lt a 0 d in
      let b1 = byte-lt a 1 d in
      let b2 = byte-lt a 2 d in
      let b3 = byte-lt a 3 d in
      rw (read16, in32-data a d, m)
        (elim (Bool-cases (o / 2 % 2 == 0)) [
          | inl low ↦
              let e : o / 2 % 2 ≡ 0 = (==_iff _ _).0 low in
              rw e (
                omega (
                  arith,
                  mask
                      (byte a 0 d + 2 ^ 8 * byte a 1 d + 2 ^ 16 * byte a 2 d + 2 ^ 24 * byte a 3 d),
                ))
          | inr high ↦
              let e : o / 2 % 2 ≡ 1 = ground arith in
              rw e (
                omega (
                  arith,
                  mask (
                      (byte a 0 d + 2 ^ 8 * byte a 1 d + 2 ^ 16 * byte a 2 d + 2 ^ 24 * byte a 3 d)
                      / 2 ^ 16),
                ))
        ])

  pub read16-config :
      (p : PciDevice) (o : ℕ) (d : Dev)
      → o < 256
      → (read16 P p o d).0 ≡ config p (o / 2 * 2) d + 256 * config p (o / 2 * 2 + 1) d
  read16-config p o d h =
      let e0 = config_address-same p o (o / 2 * 2) h (omega arith) (omega arith) in
      let e1 = config_address-same p o (o / 2 * 2 + 1) h (omega arith) (omega arith) in
      let k0 : o / 2 % 2 * 2 ≡ o / 2 * 2 % 4 = omega arith in
      let k1 : o / 2 % 2 * 2 + 1 ≡ (o / 2 * 2 + 1) % 4 = omega arith in
      read16-bytes p o d
      ∙ ap₂ (λ x y. x + 256 * y) (ap₂ (λ b k. byte b k d) e0 k0) (ap₂ (λ b k. byte b k d) e1 k1)

  pub read16-keeps :
      (p : PciDevice) (o b j : ℕ) (d : Dev) → byte b j (read16 P p o d).1 ≡ byte b j d
  unfolding read16
  read16-keeps p o b j d = in32-keeps (config_address p o) b j d

  pub read16-lt : (p : PciDevice) (o : ℕ) (d : Dev) → (read16 P p o d).0 < 2 ^ 16
  read16-lt p o d = omega (
    arith,
    read16-bytes p o d,
    byte-lt (config_address p o) (o / 2 % 2 * 2) d,
    byte-lt (config_address p o) (o / 2 % 2 * 2 + 1) d,
  )

  -- The four bytes of a register at an even offset, with those of the next word where the register
  -- crosses into it.
  pub read32-config :
      (p : PciDevice) (o b j : ℕ) (d : Dev)
      → o % 2 ≡ 0
      → o + 3 < 256
      → ((read32 P p o d).0
          ≡ config p o d
            + 2 ^ 8 * config p (o + 1) d
            + 2 ^ 16 * config p (o + 2) d
            + 2 ^ 24 * config p (o + 3) d)
        × (byte b j (read32 P p o d).1 ≡ byte b j d)
  unfolding read32
  read32-config p o b j d even h =
      let d1 = (read16 P p o d).1 in
      let n : (o + 2) % 256 ≡ o + 2 = omega arith in
      let low = read16-config p o d (omega arith) in
      let high = read16-config p (o + 2) d1 (omega arith) in
      let same = λ (i : ℕ). read16-keeps p o (config_address p i) (i % 4) d in
      let e0 : o / 2 * 2 ≡ o = omega arith in
      let e2 : (o + 2) / 2 * 2 ≡ o + 2 = omega arith in
      let e3 : o + 2 + 1 ≡ o + 3 = omega arith in
      let low' : (read16 P p o d).0 ≡ config p o d + 256 * config p (o + 1) d = rw e0 at low in
      let high' : (read16 P p (o + 2) d1).0 ≡ config p (o + 2) d1 + 256 * config p (o + 3) d1 =
        rw (e2, e3) at high in
      rw (read32, n)
        (
          bit_or_shifted 16 (read16 P p (o + 2) d1).0 (read16 P p o d).0 (read16-lt p o d)
              ∙ omega (arith, low', high', same (o + 2), same (o + 3)),
          read16-keeps p (o + 2) b j d1 ∙ read16-keeps p o b j d,
        )
