-- ===== src/Pci/Bars.antt =====
-- The base address registers, and the bits of the command register.
use mathlib.Core.Option
use gewodsys.Base.{
  ℕ, ◌+◌, ◌-◌, ◌*◌, ◌/◌, ◌%◌, ◌^◌, ◌≤◌, ◌<◌, ◌≡◌, inl, inr, refl, ap, ◌∙◌, arith, bit_and, false,
  ◌==◌, ==_iff, ne→==, if◌then◌else◌, Bool-cases, Option, none, some, field,
}
use gewodsys.Base.Bits.{bit_or-bit}
use gewodsys.Base.Masks.{bit_and-ones, bit_and-shifted}
use gewodsys.Ports.{Ports, HasConfig}
use gewodsys.Pci.{
  PciDevice, PciBar, config_address, read16, read32, write16, read_bar, maybe_enable,
  maybe_enable_bus_mastering, maybe_enable_memory_access,
}
use native.Mathlib.Nat.{one-le-pow}
use gewodsys.Pci.Address.{IsPlace}
use gewodsys.Pci.Config.{config, IsPlain, read32-config, read16-config, read16-keeps, read16-lt}
use gewodsys.Pci.Write.{Elsewhere, write16-low, write16-high, write16-Elsewhere}

-- What a base address register of 32 bits asks for, by its lowest three bits.
abbrev pub bar_of : ℕ → PciBar → Option PciBar
bar_of value out =
    if field 2 1 value == 1
    then none
    else if field 0 1 value == 1
    then some (record out { base = value / 4 * 4; kind = 1; size = 0 })
    else some out

module _ (P : Ports) (C : HasConfig P) where
  open P use {Dev}

  -- `PciReadBar` decides by bits 2 and 0 of the register: where bit 2 is set the code shifts a
  -- 32-bit word by 32, where bit 0 is set it gives an I/O range, and else it leaves the result as it
  -- was. It changes no register.
  pub read_bar-bar_of :
      (p : PciDevice) (bar : ℕ) (out : PciBar) (d : Dev)
      → bar < 6
      → let o = 0x10 + bar * 4 in
        let value =
          config P C p o d
          + 2 ^ 8 * config P C p (o + 1) d
          + 2 ^ 16 * config P C p (o + 2) d
          + 2 ^ 24 * config P C p (o + 3) d in
        Option.map (λ r. r.0) (read_bar P p bar out d) ≡ bar_of value out
  unfolding read_bar
  read_bar-bar_of p bar out d small =
      let o : ℕ = 0x10 + bar * 4 in
      let n : (0x10 + bar * 4) % 256 ≡ o = omega arith in
      let r : ℕ = (read32 P p o d).0 in
      let read = (read32-config P C p o 0 0 d (omega arith) (omega arith)).0 in
      let m4 : bit_and r 4 ≡ r / 2 ^ 2 % 2 ^ 1 * 2 ^ 2 = bit_and-shifted 2 1 r in
      let m1 : bit_and r 1 ≡ r % 2 = bit_and-ones 1 r in rw (n, ← read, m4, m1) (ground arith)

  -- What setting a bit of the command register does to it and to the other bytes.
  abbrev pub Enabled : ℕ → PciDevice → Dev → Dev → Type 0
  Enabled bit p d e =
      let c = (read16 P p 4 d).0 in
      ((read16 P p 4 e).0 ≡ (if c / 2 ^ bit % 2 == 0 then c + 2 ^ bit else c))
      × ((q : PciDevice) (j : ℕ)
          → IsPlace q
          → j < 256
          → Elsewhere p 4 2 q j
          → config P C q j e ≡ config P C q j d)

  maybe_enable-Enabled :
      (bit : ℕ) (p : PciDevice) (d : Dev)
      → ((c : ℕ) → c < 2 ^ 16 → c / 2 ^ bit % 2 ≡ 0 → c + 2 ^ bit < 2 ^ 16)
      → IsPlace p
      → IsPlain P C p 4
      → IsPlain P C p 5
      → Enabled bit p d (maybe_enable P bit p d)
  unfolding maybe_enable
  maybe_enable-Enabled bit p d room place k4 k5 =
      let c : ℕ = (read16 P p 4 d).0 in
      let d' = (read16 P p 4 d).1 in
      let keeps = λ (q : PciDevice) (j : ℕ). read16-keeps P C p 4 (config_address q j) (j % 4) d in
      let old = read16-config P C p 4 d (omega arith) in
      let old' = read16-config P C p 4 d' (omega arith) in
      let bound = read16-lt P C p 4 d in
      let one : (2 ^ 1 - 1) * 2 ^ bit ≡ 2 ^ bit = omega arith in
      let m : bit_and c (2 ^ bit) ≡ c / 2 ^ bit % 2 ^ 1 * 2 ^ bit =
        rw one at (bit_and-shifted bit 1 c) in
      let positive : 1 ≤ 2 ^ bit = one-le-pow bit 2 (omega arith) in
      elim (Bool-cases (c / 2 ^ bit % 2 == 0)) [
        | inl clear ↦
            let z : c / 2 ^ bit % 2 ≡ 0 = (==_iff _ _).0 clear in
            let none_set : bit_and c (2 ^ bit) ≡ 0 = m ∙ omega (arith, ap (λ t. t * 2 ^ bit) z) in
            let sum = bit_or-bit bit c z in
            let fits = room c bound z in
            let w = write16 P p 4 (c + 2 ^ bit) d' in
            let lo = write16-low P C p 4 (c + 2 ^ bit) d' fits refl k4 in
            let hi = write16-high P C p 4 (c + 2 ^ bit) d' fits refl (omega arith) k5 in
            rw (none_set, clear, sum)
              (
                omega (arith, read16-config P C p 4 w (omega arith), lo, hi),
                λ q j at hj far.
                    write16-Elsewhere P C p q 4 (c + 2 ^ bit) j d' place at fits refl (omega arith)
                      hj far
                    ∙ keeps q j,
              )
        | inr set ↦
            let s : c / 2 ^ bit % 2 ≡ 1 = ground arith in
            let some_set : (bit_and c (2 ^ bit) == 0) ≡ false =
              ne→== _ 0 (λ e. omega (arith, m, e, ap (λ t. t * 2 ^ bit) s)) in
            rw (some_set, set)
              (omega (arith, old, old', keeps p 4, keeps p 5), λ q j at hj far. keeps q j)
      ]

  -- Turning on bus mastering or memory access sets bit 2 or bit 1 of the command register and leaves
  -- its other bits, and every other byte of every function, as they were.
  pub enable-Enabled :
      (p : PciDevice) (d : Dev)
      → IsPlace p
      → IsPlain P C p 4
      → IsPlain P C p 5
      → Enabled 2 p d (maybe_enable_bus_mastering P p d)
        × Enabled 1 p d (maybe_enable_memory_access P p d)
  unfolding maybe_enable_bus_mastering maybe_enable_memory_access
  enable-Enabled p d place k4 k5 = (
    maybe_enable-Enabled 2 p d (λ c h z. omega arith) place k4 k5,
    maybe_enable-Enabled 1 p d (λ c h z. omega arith) place k4 k5,
  )
