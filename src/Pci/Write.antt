-- ===== src/Pci/Write.antt =====
-- What a write to the configuration space changes, and what is read after it.
use gewodsys.Base.{
  ℕ, ◌+◌, ◌*◌, ◌/◌, ◌%◌, ◌^◌, ◌≤◌, ◌<◌, ◌≡◌, ◌≢◌, ◌⊎◌, inl, inr, refl, ap, ◌∙◌, arith, bit_and,
  true, false, ◌&&◌, ◌||◌, ◌==◌, ==_iff, eq→==, if◌then◌else◌, Bool-cases,
}
use gewodsys.Base.Masks.{bit_and-shifted}
use gewodsys.Ports.{Ports, HasConfig}
use gewodsys.Pci.{PciDevice, config_address, read32, write16, write32}
use gewodsys.Pci.Address.{IsPlace, config_address_iff}
use gewodsys.Pci.Config.{config_address-same, config, IsPlain, read32-config}

-- Different functions, or bytes outside the `n` from `o` on.
abbrev pub Elsewhere : PciDevice → ℕ → ℕ → PciDevice → ℕ → Type 0
Elsewhere p o n q j =
    (p.bus ≢ q.bus) ⊎ (p.device ≢ q.device) ⊎ (p.function ≢ q.function) ⊎ (j < o) ⊎ (o + n ≤ j)

module _ (P : Ports) (C : HasConfig P) where
  open P use {Dev, out8, out16, out32, in8, in32}
  open C use {
    byte, plain, byte-lt, byte-select, in32-data, in32-keeps, in8-data, in8-keeps, out16-data,
    out8-data,
  }

  pub write16-byte :
      (p : PciDevice) (o v b j : ℕ) (d : Dev)
      → v < 2 ^ 16
      → let a = config_address p o in
        let k = o / 2 % 2 * 2 in
        byte b j (write16 P p o v d) ≡ (
          if b == a && (j == k || j == k + 1) && plain a j
          then (if j == k then v % 256 else v / 256)
          else byte b j d)
  unfolding write16
  write16-byte p o v b j d small =
      let m : bit_and o 2 ≡ o / 2 % 2 * 2 = bit_and-shifted 1 1 o in
      rw (write16, m) (out16-data (config_address p o) (o / 2 % 2 * 2) v b j d (omega arith) small)

  pub write16-low :
      (p : PciDevice) (o v : ℕ) (d : Dev)
      → v < 2 ^ 16
      → o % 2 ≡ 0
      → IsPlain P C p o
      → config P C p o (write16 P p o v d) ≡ v % 256
  write16-low p o v d small even keeps =
      let k : o / 2 % 2 * 2 ≡ o % 4 = omega arith in
      write16-byte p o v (config_address p o) (o % 4) d small
      ∙ rw (k, eq→== (config_address p o) _ refl, eq→== (o % 4) _ refl, keeps)

  pub write16-high :
      (p : PciDevice) (o v : ℕ) (d : Dev)
      → v < 2 ^ 16
      → o % 2 ≡ 0
      → o + 1 < 256
      → IsPlain P C p (o + 1)
      → config P C p (o + 1) (write16 P p o v d) ≡ v / 256
  write16-high p o v d small even h keeps =
      let a : ℕ = config_address p (o + 1) in
      let e : config_address p o ≡ a =
        config_address-same p o (o + 1) (omega arith) h (omega arith) in
      let k : o / 2 % 2 * 2 ≡ o % 4 = omega arith in
      let j : (o + 1) % 4 ≡ o % 4 + 1 = omega arith in
      let keeps' : plain a (o % 4 + 1) ≡ true = rw j at keeps in
      let other : (o % 4 + 1 == o % 4) ≡ false = ground arith in
      ap (λ i. byte a i (write16 P p o v d)) j
      ∙ write16-byte p o v a (o % 4 + 1) d small
      ∙ rw (e, k, eq→== a a refl, eq→== (o % 4 + 1) _ refl, other, keeps')

  pub write16-Elsewhere :
      (p q : PciDevice) (o v j : ℕ) (d : Dev)
      → IsPlace p
      → IsPlace q
      → v < 2 ^ 16
      → o % 2 ≡ 0
      → o < 256
      → j < 256
      → Elsewhere p o 2 q j
      → config P C q j (write16 P p o v d) ≡ config P C q j d
  write16-Elsewhere p q o v j d pp qq small even ho hj far =
      let same = (config_address_iff q p j o qq pp hj ho).0 in
      write16-byte p o v (config_address q j) (j % 4) d small
      ∙ elim (Bool-cases (config_address q j == config_address p o)) [
        | inr e ↦ rw e
        | inl e ↦
            let parts = same ((==_iff _ _).0 e) in
            let off : (j % 4 == o / 2 % 2 * 2 || j % 4 == o / 2 % 2 * 2 + 1) ≡ false =
              ground (arith, parts) in
            rw (e, off)
      ]

  -- Writing a 32-bit register at an even offset and reading it gives back the value, where its four
  -- bytes are plain; no other byte of any function changes.
  pub read32-write32 :
      (p : PciDevice) (o v : ℕ) (d : Dev)
      → IsPlace p
      → o % 2 ≡ 0
      → o + 3 < 256
      → v < 2 ^ 32
      → IsPlain P C p o
      → IsPlain P C p (o + 1)
      → IsPlain P C p (o + 2)
      → IsPlain P C p (o + 3)
      → ((read32 P p o (write32 P p o v d)).0 ≡ v)
        × ((q : PciDevice) (j : ℕ)
            → IsPlace q
            → j < 256
            → Elsewhere p o 4 q j
            → config P C q j (write32 P p o v d) ≡ config P C q j d)
  unfolding write32
  read32-write32 p o v d place even h small k0 k1 k2 k3 =
      let n : (o + 2) % 256 ≡ o + 2 = omega arith in
      let lo : ℕ = v % 2 ^ 16 in
      let hi : ℕ = v / 2 ^ 16 % 2 ^ 16 in
      let d1 = write16 P p o lo d in
      let d2 = write16 P p (o + 2) hi d1 in
      let e3 : o + 2 + 1 ≡ o + 3 = omega arith in
      let k3' : IsPlain P C p (o + 2 + 1) = rw e3 k3 in
      let read = (read32-config P C p o 0 0 d2 even h).0 in
      let b0 = write16-low p o lo d (omega arith) even k0 in
      let b1 = write16-high p o lo d (omega arith) even (omega arith) k1 in
      let b2 = write16-low p (o + 2) hi d1 (omega arith) (omega arith) k2 in
      let b3' = write16-high p (o + 2) hi d1 (omega arith) (omega arith) (omega arith) k3' in
      let b3 : config P C p (o + 3) d2 ≡ hi / 256 = rw e3 at b3' in
      let s0 =
        write16-Elsewhere p p (o + 2) hi o d1 place place (omega arith) (omega arith) (omega arith)
          (omega arith) (inr (inr (inr (inl (omega arith))))) in
      let s1 =
        write16-Elsewhere p p (o + 2) hi (o + 1) d1 place place (omega arith) (omega arith)
          (omega arith) (omega arith) (inr (inr (inr (inl (omega arith))))) in
      rw (write32, n)
        (
          omega (arith, read, b0, b1, b2, b3, s0, s1),
          λ q j at hj far.
              write16-Elsewhere p q (o + 2) hi j d1 place at (omega arith) (omega arith)
                (omega arith) hj (ground (arith, far))
              ∙ write16-Elsewhere p q o lo j d place at (omega arith) even (omega arith) hj
                  (ground (arith, far)),
        )
