-- ===== src/Boot/Inputs.antt =====
-- What the interrupts of the keyboard and of the mouse call when `KeMain` has registered them.
use gewodsys.Base.{
  ℕ, ◌+◌, ◌%◌, ◌≡◌, ◌≢◌, refl, ◌∙◌, arith, inl, inr, Option, some, none, ltb, leb, ◌&&◌, Bool-cases,
  ◌==◌, if◌then◌else◌,
}
use gewodsys.Ports.{Ports}
use gewodsys.Apic.Hardware.{Device}
use gewodsys.Apic.{
  Apic, IoApic, num_isa, get_by_irq, change_entry, override_vector, set_irq_vector,
  set_irq_isa_routing, set_irq_mask, set_handler, set_ignored, irq_map_to_vector,
  register_irq_handler, mask_interrupt, enable_interrupt, irq_handler,
}
use gewodsys.Apic.Dispatch.{vector_for, irq_handler-register}
use gewodsys.System.{System}
use gewodsys.Boot.{start_inputs}

module _ (D : Device) where
  -- The variables that decide on the vector of a request stay.
  IsRouted : Apic D → Apic D → Type 0
  IsRouted s t = (t.overrides ≡ s.overrides) × (t.highest_irq ≡ s.highest_irq)

  -- An interrupt calls the same as before.
  IsCalling : Apic D → Apic D → Type 0
  IsCalling s t = (u : ℕ) → (irq_handler D u t).0 ≡ (irq_handler D u s).0

  change_entry-IsRouted :
      (o : Option IoApic) (irq : ℕ) (change : ℕ → ℕ) (s : Apic D)
      → IsRouted s (change_entry D o irq change s).1
  unfolding change_entry IsRouted
  change_entry-IsRouted none irq change s = (refl, refl)
  change_entry-IsRouted (some a) irq change s = (refl, refl)

  change_entry-IsCalling :
      (o : Option IoApic) (irq : ℕ) (change : ℕ → ℕ) (s : Apic D)
      → IsCalling s (change_entry D o irq change s).1
  unfolding change_entry IsCalling irq_handler
  change_entry-IsCalling none irq change s u = refl
  change_entry-IsCalling (some a) irq change s u = refl

  register_irq_handler-IsRouted :
      (irq handler arg : ℕ) (s : Apic D) → IsRouted s (register_irq_handler D irq handler arg s)
  unfolding register_irq_handler set_handler irq_map_to_vector override_vector set_irq_vector
      set_irq_isa_routing IsRouted
  register_irq_handler-IsRouted irq handler arg s = elim (Bool-cases (leb irq s.highest_irq)) [
    | inr beyond ↦ rw beyond (refl, refl)
    | inl routed ↦ elim (Bool-cases (ltb irq num_isa && (s.overrides irq).used)) [
      | inl given ↦ rw (routed, given) (change_entry-IsRouted _ irq _ s)
      | inr own ↦ rw (routed, own) (change_entry-IsRouted _ irq _ s)
    ]
  ]

  enable_interrupt_lem :
      (irq : ℕ) (s : Apic D)
      → IsRouted s (enable_interrupt D irq s).1 × IsCalling s (enable_interrupt D irq s).1
  unfolding enable_interrupt mask_interrupt set_ignored set_irq_mask IsRouted IsCalling irq_handler
  enable_interrupt_lem irq s =
      let t = set_ignored D ((irq + 32) % 256) 0 s in
      let same : IsCalling s t = λ u. ground arith in
      elim (Bool-cases (ltb 224 irq)) [
        | inl over ↦ rw over ((refl, refl), λ u. refl)
        | inr under ↦ elim (Bool-cases (leb irq s.highest_irq)) [
          | inl routed ↦
              rw (under, routed)
                (
                  change_entry-IsRouted (get_by_irq irq s.ioapics) irq _ t,
                  λ u. change_entry-IsCalling (get_by_irq irq s.ioapics) irq _ t u ∙ same u,
                )
          | inr beyond ↦ rw (under, beyond) ((refl, refl), same)
        ]
      ]

  vector_for-IsRouted :
      (irq : ℕ) (s t : Apic D) → IsRouted s t → vector_for D irq t ≡ vector_for D irq s
  unfolding IsRouted
  vector_for-IsRouted irq s t r = rw (r.0, r.1) refl

-- After the registrations of `KeMain` the interrupt at the vector of request 12 calls the mouse's
-- handler, that at the vector of request 1 the keyboard's, unless it is the same vector, and every
-- other interrupt what it called before.
pub irq_handler-start_inputs :
    (D : Device) (P : Ports) (keyboard mouse u : ℕ) (s : System D P)
    → keyboard ≢ 0
    → mouse ≢ 0
    → (irq_handler D u (start_inputs D P keyboard mouse s).apic).0 ≡ (
        if u == vector_for D 12 s.apic
        then some (mouse, (u + 224) % 256, 0)
        else if u == vector_for D 1 s.apic
        then some (keyboard, (u + 224) % 256, 0)
        else (irq_handler D u s.apic).0)
unfolding start_inputs IsCalling
irq_handler-start_inputs D P keyboard mouse u s real real' =
    let a = register_irq_handler D 1 keyboard 0 s.apic in
    let b = (enable_interrupt D 1 a).1 in
    let c = register_irq_handler D 12 mouse 0 b in
    let same =
      vector_for-IsRouted D 12 a b (enable_interrupt_lem D 1 a).0
      ∙ vector_for-IsRouted D 12 s.apic a (register_irq_handler-IsRouted D 1 keyboard 0 s.apic) in
    let first =
      (enable_interrupt_lem D 1 a).1 u ∙ irq_handler-register D 1 keyboard 0 u s.apic real in
    (enable_interrupt_lem D 12 c).1 u
    ∙ irq_handler-register D 12 mouse 0 u b real'
    ∙ rw (same, first) refl
