-- ===== src/Apic/Dispatch.antt =====
-- A registered handler is the one that the interrupt calls.
use gewodsys.Base.{
  ℕ, ◌+◌, ◌%◌, ◌≡◌, refl, ap, ◌≢◌, inl, inr, ◌&&◌, Option, none, some, arith, ltb, leb, ◌==◌,
  if◌then◌else◌, ne→==, Bool-cases,
}
use gewodsys.Apic.Hardware.{Device}
use gewodsys.Apic.{
  Apic, IoApic, change_entry, register_irq_handler, irq_map_to_vector, irq_handler, override_vector,
  set_irq_vector, set_irq_isa_routing, num_isa,
}

module _ (D : Device) where
  change_entry-keeps :
      (o : Option IoApic) (irq : ℕ) (change : ℕ → ℕ) (s : Apic D)
      → (change_entry D o irq change s).1.handlers ≡ s.handlers
  unfolding change_entry
  change_entry-keeps none irq change s = refl
  change_entry-keeps (some a) irq change s = refl

  -- The vector that a request is mapped to.
  abbrev pub vector_for : ℕ → Apic D → ℕ
  vector_for irq s =
      if leb irq s.highest_irq && (ltb irq num_isa && (s.overrides irq).used)
      then ((s.overrides irq).dest_irq + 32) % 256
      else (irq + 32) % 256

  irq_map_to_vector-vector_for :
      (irq : ℕ) (s : Apic D)
      → ((irq_map_to_vector D irq s).0 ≡ vector_for irq s)
        × ((irq_map_to_vector D irq s).1.handlers ≡ s.handlers)
  unfolding irq_map_to_vector set_irq_vector set_irq_isa_routing override_vector
  irq_map_to_vector-vector_for irq s = elim (Bool-cases (leb irq s.highest_irq)) [
    | inr beyond ↦ rw beyond (refl, refl)
    | inl routed ↦ elim (Bool-cases (ltb irq num_isa && (s.overrides irq).used)) [
      | inl given ↦ rw (routed, given) (refl, change_entry-keeps _ irq _ s)
      | inr own ↦ rw (routed, own) (refl, change_entry-keeps _ irq _ s)
    ]
  ]

  -- After a registration, the interrupt at the vector of the request calls the handler with its data
  -- and the vector's number less 32 modulo 256, and the interrupt at any other vector calls what it
  -- called before. The vector is that of the override where the request is routed and has one, and
  -- else the request's number plus 32, modulo 256.
  pub irq_handler-register :
      (irq handler arg u : ℕ) (s : Apic D)
      → handler ≢ 0
      → (irq_handler D u (register_irq_handler D irq handler arg s)).0 ≡ (
          if u == vector_for irq s
          then some (handler, (u + 224) % 256, arg)
          else (irq_handler D u s).0)
  unfolding register_irq_handler irq_handler
  irq_handler-register irq handler arg u s real =
      let r = irq_map_to_vector-vector_for irq s in
      rw (r.0, r.1)
        (elim (Bool-cases (u == vector_for irq s)) [
          | inl here ↦
              rw (here, ne→== handler 0 real) (ap (λ n. some (handler, n, arg)) (omega arith))
          | inr there ↦ rw there
        ])
