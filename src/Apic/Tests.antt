-- ===== src/Apic/Tests.antt =====
-- The theorems at a device whose registers are a function, with one I/O APIC of 24 entries.
use gewodsys.Base.{◌+◌, ◌%◌, ◌≤◌, ◌≡◌, refl, arith, if◌then◌else◌, ◌==◌, some, none, [], ◌∷◌}
use gewodsys.Base.Int.{pos}
use gewodsys.Bitmap.{get_bit}
use gewodsys.Apic.Chip.{chip}
use gewodsys.Apic.{
  IoApic, Apic, get_by_irq, get_highest_irq, set_irq_vector, set_irq_dest, set_irq_mask,
  set_irq_isa_routing, enable_interrupt, disable_interrupt, register_irq_handler, irq_handler,
  allocate_software_irq, find_software,
}
use gewodsys.Apic.Routing.{highest_irq_unrouted}
use gewodsys.Apic.Fields.{fields_at, level_of, trigger_of, set_irq-fields}
use gewodsys.Apic.Enable.{Masked, enable_disable-Masked}
use gewodsys.Apic.Dispatch.{vector_for, irq_handler-register}
use gewodsys.Apic.Software.{Allocated, allocate_software_irq-Allocated}

abbrev io : IoApic
io = record {
  id = 1;
  max_rentry = 23;
  version = 0x20;
  gsi_base = 0;
  phys_addr = 0xFEC00000;
  address = 0xFEC00000;
}

abbrev idle : Apic chip
idle = record {
  dev = record { select = λ _. 0; registers = λ _ _. 0 };
  ioapics = io ∷ [];
  handlers = λ _. record { ignored = 1; kind = 0; handler = 0; arg = 0 };
  overrides = λ irq. record { used = irq == 0; dest_irq = 2; flags = 0 };
  highest_irq = 23;
  sw = λ _. 0;
  hw = λ _. 0;
  ipi_vector = 0;
  local_apic_address = 0xFEE00000;
}

allocated : (allocate_software_irq chip idle).0 ≡ pos 24
unfolding allocate_software_irq get_bit find_software
allocated = refl

highest : get_highest_irq (io ∷ []) ≤ 23
unfolding get_highest_irq
highest = omega arith

highest_irq_unrouted_example : get_by_irq 23 (io ∷ []) ≡ none
highest_irq_unrouted_example = highest_irq_unrouted 23 (io ∷ []) highest

found : get_by_irq 5 (io ∷ []) ≡ some io
unfolding get_by_irq
found = refl

set_irq-fields_example :
    ((set_irq_vector chip 5 37 idle).0 ≡ pos 0)
    × (fields_at chip io 5 (set_irq_vector chip 5 37 idle).1
        ≡ record (fields_at chip io 5 idle) { vector = 37; trigger = 0 })
    × ((set_irq_dest chip 5 1 9 idle).0 ≡ pos 0)
    × (fields_at chip io 5 (set_irq_dest chip 5 1 9 idle).1
        ≡ record (fields_at chip io 5 idle) { mode = 1 % 2; to = 9 })
    × ((set_irq_mask chip 5 1 idle).0 ≡ pos 0)
    × (fields_at chip io 5 (set_irq_mask chip 5 1 idle).1
        ≡ record (fields_at chip io 5 idle) { masked = 1 % 2 })
    × ((set_irq_isa_routing chip 5 37 13 idle).0 ≡ pos 0)
    × (fields_at chip io 5 (set_irq_isa_routing chip 5 37 13 idle).1
        ≡ record (fields_at chip io 5 idle) {
          vector = 37;
          masked = 1;
          level = level_of 13 (fields_at chip io 5 idle).level;
          trigger = trigger_of 13 (fields_at chip io 5 idle).trigger;
        })
set_irq-fields_example =
    set_irq-fields chip io 5 37 13 1 9 1 idle found (omega arith) (omega arith) (omega arith)

enable_disable-Masked_example :
    Masked chip 0 5 idle (enable_interrupt chip 5 idle)
    × Masked chip 1 5 idle (disable_interrupt chip 5 idle)
enable_disable-Masked_example = enable_disable-Masked chip 5 idle

irq_handler-register_example :
    (irq_handler chip 37 (register_irq_handler chip 5 0x9000 7 idle)).0 ≡ (
      if 37 == vector_for chip 5 idle
      then some (0x9000, (37 + 224) % 256, 7)
      else (irq_handler chip 37 idle).0)
irq_handler-register_example = irq_handler-register chip 5 0x9000 7 37 idle (omega arith)

allocate_software_irq-Allocated_example : Allocated chip idle (allocate_software_irq chip idle)
allocate_software_irq-Allocated_example = allocate_software_irq-Allocated chip idle
