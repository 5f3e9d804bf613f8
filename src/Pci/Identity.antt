-- ===== src/Pci/Identity.antt =====
-- The accesses to the configuration space, where the bytes that identify functions are read-only.
use gewodsys.Base.{
  ℕ, ◌+◌, ◌*◌, ◌/◌, ◌%◌, ◌^◌, ◌<◌, ◌≡◌, ◌∙◌, inl, inr, arith, false, bit_and, ◌||◌, ◌==◌, ==_iff,
  Bool-cases,
}
use gewodsys.Ports.{Ports, HasConfig}
use gewodsys.Pci.{PciDevice, config_address, read16, read32, write16, write32, bar_64}
use gewodsys.Pci.Address.{IsPlace}
use gewodsys.Pci.Base.{bar_address}
use gewodsys.Pci.Config.{read16-keeps}
use gewodsys.Pci.Write.{write16-byte}
use gewodsys.Pci.Enumerate.{IsIdByte, SameIds}

module _ (P : Ports) (C : HasConfig P) (Rest : Type 0) where
  open P use {Dev}
  open C use {byte, plain}

  -- The bytes that identify a function do not keep what is written to them.
  abbrev pub HasFixedIds : Type 0
  HasFixedIds =
      (p : PciDevice) (j : ℕ) → IsPlace p → IsIdByte j → plain (config_address p j) (j % 4) ≡ false

  pub SameIds-trans :
      (d e f : Dev) → SameIds P C Rest d e → SameIds P C Rest e f → SameIds P C Rest d f
  SameIds-trans d e f first second p j place id = second p j place id ∙ first p j place id

  pub read16-SameIds : (p : PciDevice) (o : ℕ) (d : Dev) → SameIds P C Rest d (read16 P p o d).1
  read16-SameIds p o d q j place id = read16-keeps P C p o (config_address q j) (j % 4) d

  pub read32-SameIds : (p : PciDevice) (o : ℕ) (d : Dev) → SameIds P C Rest d (read32 P p o d).1
  unfolding read32
  read32-SameIds p o d =
      SameIds-trans d (read16 P p o d).1 _ (read16-SameIds p o d)
        (read16-SameIds p ((o + 2) % 256) _)

  pub bar_address-SameIds :
      (p : PciDevice) (o : ℕ) (d : Dev) → SameIds P C Rest d (bar_address P p o d).1
  unfolding bar_address
  bar_address-SameIds p o d = elim (Bool-cases (bit_and (read32 P p o d).0 bar_64 == 0)) [
    | inl small ↦ rw small (read32-SameIds p o d)
    | inr wide ↦
        rw wide
          (SameIds-trans d (read32 P p o d).1 _ (read32-SameIds p o d) (read32-SameIds p (o + 4) _))
  ]

  module _ (fixed : HasFixedIds) where
    write16-SameIds :
        (p : PciDevice) (o v : ℕ) (d : Dev) → v < 2 ^ 16 → SameIds P C Rest d (write16 P p o v d)
    write16-SameIds p o v d small q j place id =
        let a : ℕ = config_address q j in
        let k : ℕ = o / 2 % 2 * 2 in
        write16-byte P C p o v a (j % 4) d small ∙ elim (Bool-cases (a == config_address p o)) [
          | inl e ↦
              let same : a ≡ config_address p o = (==_iff _ _).0 e in
              rw (e, ← same, fixed q j place id)
                (elim (Bool-cases (j % 4 == k || j % 4 == k + 1)) [ inl e ↦ rw e | inr e ↦ rw e ])
          | inr e ↦ rw e
        ]

    pub write32-SameIds :
        (p : PciDevice) (o v : ℕ) (d : Dev) → SameIds P C Rest d (write32 P p o v d)
    unfolding write32
    write32-SameIds p o v d =
        SameIds-trans d (write16 P p o (v % 2 ^ 16) d) _ (write16-SameIds p o _ d (omega arith))
          (write16-SameIds p ((o + 2) % 256) _ _ (omega arith))
