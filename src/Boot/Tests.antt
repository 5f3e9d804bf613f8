-- ===== src/Boot/Tests.antt =====
-- The registrations of `KeMain` at an empty interrupt code.
mod Drivers
use gewodsys.Base.{ℕ, ◌+◌, ◌%◌, ◌≡◌, arith, false, some, [], ◌∷◌, ◌==◌, if◌then◌else◌}
use gewodsys.Ports.{Ports}
use gewodsys.Pmm.{Pmm}
use gewodsys.Heap.{header_predicate}
use gewodsys.Apic.{Apic, IoApic, irq_handler}
use gewodsys.Apic.Chip.{chip}
use gewodsys.Apic.Dispatch.{vector_for}
use gewodsys.System.{System}
use gewodsys.Boot.{start_inputs}
use gewodsys.Boot.Inputs.{irq_handler-start_inputs}

-- Ports behind which nothing lies.
abbrev silent : Ports
silent = record {
  Dev = ℕ;
  out8 = λ _ _ d. d;
  out16 = λ _ _ d. d;
  out32 = λ _ _ d. d;
  in8 = λ _ d. (0xFF, d);
  in32 = λ _ d. (0xFFFFFFFF, d);
}

abbrev no_pages : Pmm
no_pages = record {
  total_available_pages = 0;
  first_available_page_addr = 0;
  last_available_page_address = 0;
  total_memory = 0;
  total_pages = 0;
  bitfield = 0;
  free_memory = 0;
  locked_memory = 0;
  reserved_memory = 0;
  bits = λ _. 0;
  last_requested = 0;
  warnings = 0;
}

abbrev io : IoApic
io = record {
  id = 1;
  max_rentry = 23;
  version = 0x20;
  gsi_base = 0;
  phys_addr = 0xFEC00000;
  address = 0xFEC00000;
}

abbrev pub idle : Apic chip
idle = record {
  dev = record { select = λ _. 0; registers = λ _ _. 0 };
  ioapics = io ∷ [];
  handlers = λ _. record { ignored = 1; kind = 0; handler = 0; arg = 0 };
  overrides = λ _. record { used = false; dest_irq = 0; flags = 0 };
  highest_irq = 23;
  sw = λ _. 0;
  hw = λ _. 0;
  ipi_vector = 0;
  local_apic_address = 0xFEE00000;
}

abbrev pub system : System chip silent
system = record {
  apic = idle;
  ports = 0;
  kernel = record {
    heap = record {
      index = record { array = 0; size = 0; capacity = 0; predicate = header_predicate };
      start_address = 0;
      end_address = 0;
      max_address = 0;
      supervisor = 0;
      readonly = 0;
    };
    mem = λ _. 0;
    machine = record { mem = λ _. 0; pmm = no_pages; pml4 = 0; warnings = 0 };
  };
}

irq_handler-start_inputs_example :
    (irq_handler chip 33 (start_inputs chip silent 0x9000 0xA000 system).apic).0 ≡ (
      if 33 == vector_for chip 12 idle
      then some (0xA000, (33 + 224) % 256, 0)
      else if 33 == vector_for chip 1 idle
      then some (0x9000, (33 + 224) % 256, 0)
      else (irq_handler chip 33 idle).0)
irq_handler-start_inputs_example =
    irq_handler-start_inputs chip silent 0x9000 0xA000 33 system (omega arith) (omega arith)
