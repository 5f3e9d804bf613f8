-- ===== src/Apic/Enable.antt =====
-- `ApicEnableInterrupt` and `ApicDisableInterrupt`.
use gewodsys.Base.{
  ℕ, ◌+◌, ◌%◌, ◌≤◌, ◌<◌, bit_and, ◌≡◌, refl, ap, ◌∙◌, ◌⊎◌, inl, inr, Option, none, some, arith, ltb,
  leb, ◌==◌, if◌then◌else◌, Bool-cases, with_field,
}
use gewodsys.Base.Int.{ℤ, pos, negsuc}
use gewodsys.Apic.Hardware.{Device}
use gewodsys.Apic.{
  Apic, get_by_irq, change_entry, set_irq_mask, set_ignored, mask_interrupt, enable_interrupt,
  disable_interrupt, IoApic,
}

module _ (D : Device) where
  set_irq_mask-handlers :
      (irq mask : ℕ) (s : Apic D) → (set_irq_mask D irq mask s).1.handlers ≡ s.handlers
  unfolding set_irq_mask
  set_irq_mask-handlers irq mask s = go (get_by_irq irq s.ioapics)
    where
      go :
          (o : Option IoApic)
          → (change_entry D o irq (λ raw. with_field 16 1 (bit_and mask 1) raw) s).1.handlers
            ≡ s.handlers
      go none = refl
      go (some a) = refl

  -- What the two functions do to the vectors, for the flag that they set.
  abbrev pub Masked : ℕ → ℕ → Apic D → ℤ × Apic D → Type 0
  Masked flag irq s r =
      ((irq ≤ 224)
        × (r.0 ≡ pos 0)
        × ((v : ℕ)
            → (r.1.handlers v).ignored
              ≡ (if v == (irq + 32) % 256 then flag else (s.handlers v).ignored)))
      ⊎ ((224 < irq) × (r ≡ (negsuc 0, s)))

  mask_interrupt-Masked :
      (flag irq : ℕ) (s : Apic D) → Masked flag irq s (mask_interrupt D flag irq s)
  unfolding mask_interrupt set_ignored
  mask_interrupt-Masked flag irq s = elim (Bool-cases (ltb 224 irq)) [
    | inl over ↦ rw over (inr (ground arith, refl))
    | inr under ↦ elim (Bool-cases (leb irq s.highest_irq)) [
      | inl routed ↦
          rw (under, routed)
            (inl (
              ground arith,
              refl,
              λ v.
                  ap (λ h. (h v).ignored)
                    (set_irq_mask-handlers irq flag (set_ignored D ((irq + 32) % 256) flag s))
                  ∙ ground arith,
            ))
      | inr beyond ↦ rw (under, beyond) (inl (ground arith, refl, λ v. ground arith))
    ]
  ]

  -- Up to request 224 `ApicEnableInterrupt` and `ApicDisableInterrupt` return 0, write 0 and 1 to the
  -- `ignored` flag of the vector `irq + 32`, taken modulo 256, and to no other vector's; above 224
  -- they return -1 and change nothing.
  pub enable_disable-Masked :
      (irq : ℕ) (s : Apic D)
      → Masked 0 irq s (enable_interrupt D irq s) × Masked 1 irq s (disable_interrupt D irq s)
  unfolding enable_interrupt disable_interrupt
  enable_disable-Masked irq s = (mask_interrupt-Masked 0 irq s, mask_interrupt-Masked 1 irq s)
