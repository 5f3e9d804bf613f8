-- ===== src/Pci/Command.antt =====
-- `PciMaybeEnableBusMastering` and `PciMaybeEnableMemoryAccess`, seen from the bytes that identify
-- functions.
use gewodsys.Base.{
  ℕ, ◌+◌, ◌*◌, ◌/◌, ◌%◌, ◌^◌, ◌<◌, ◌≡◌, ◌∙◌, inl, inr, arith, bit_and, ◌==◌, ==_iff, Bool-cases,
}
use gewodsys.Base.Bits.{bit_or-bit}
use gewodsys.Base.Masks.{bit_and-shifted}
use gewodsys.Ports.{Ports, HasConfig}
use gewodsys.Pci.{
  PciDevice, config_address, read16, maybe_enable, maybe_enable_bus_mastering,
  maybe_enable_memory_access,
}
use gewodsys.Pci.Address.{IsPlace}
use gewodsys.Pci.Config.{read16-keeps, read16-lt}
use gewodsys.Pci.Write.{write16-Elsewhere}
use gewodsys.Pci.Enumerate.{SameIds}

module _ (P : Ports) (C : HasConfig P) (Rest : Type 0) where
  open P use {Dev}

  maybe_enable-SameIds :
      (bit : ℕ) (p : PciDevice) (d : Dev)
      → ((c : ℕ) → c < 2 ^ 16 → bit_and c (2 ^ bit) ≡ c / 2 ^ bit % 2 * 2 ^ bit)
      → ((c : ℕ)
          → c < 2 ^ 16
          → c / 2 ^ bit % 2 * 2 ^ bit ≡ 0
          → (c / 2 ^ bit % 2 ≡ 0) × (c + 2 ^ bit < 2 ^ 16))
      → IsPlace p
      → SameIds P C Rest d (maybe_enable P bit p d)
  unfolding maybe_enable
  maybe_enable-SameIds bit p d mask fits place q j at id =
      let c : ℕ = (read16 P p 4 d).0 in
      let d1 = (read16 P p 4 d).1 in
      let small = read16-lt P C p 4 d in
      let read = read16-keeps P C p 4 (config_address q j) (j % 4) d in
      elim (Bool-cases (bit_and c (2 ^ bit) == 0)) [
        | inr set ↦ rw set read
        | inl clear ↦
            let (bit_clear, wide) =
              fits c small (omega (arith, mask c small, (==_iff _ 0).0 clear)) in
            let sum = bit_or-bit bit c bit_clear in
            rw (clear, sum)
              (write16-Elsewhere P C p q 4 (c + 2 ^ bit) j d1 place at wide (omega arith)
                  (omega arith) (ground (arith, id))
                  (elim id [
                    | inl low ↦ inr (inr (inr (inl low)))
                    | inr high ↦ inr (inr (inr (inr (omega (arith, high)))))
                  ])
                ∙ read)
      ]

  -- Neither of the two changes the bytes that identify functions.
  pub start-SameIds :
      (p : PciDevice) (d : Dev)
      → IsPlace p
      → SameIds P C Rest d (maybe_enable_memory_access P p (maybe_enable_bus_mastering P p d))
  unfolding maybe_enable_bus_mastering maybe_enable_memory_access
  start-SameIds p d place q j at id =
      maybe_enable-SameIds 1 p (maybe_enable P 2 p d) (λ c small. bit_and-shifted 1 1 c)
        (λ c small clear. (omega (arith, clear), omega (arith, clear))) place q j at id
      ∙ maybe_enable-SameIds 2 p d (λ c small. bit_and-shifted 2 1 c)
          (λ c small clear. (omega (arith, clear), omega (arith, clear))) place q j at id
