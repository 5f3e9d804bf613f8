-- ===== src/Intel/Tests.antt =====
-- The tables for a task state and handlers at high addresses.
use gewodsys.Base.{
  ℕ, ◌+◌, ◌*◌, ◌/◌, ◌%◌, ◌<◌, ◌≡◌, refl, arith, List, [], ◌∷◌, field, word64, get_elem?, some,
}
use gewodsys.Ports.{Ports}
use gewodsys.Intel.{
  tss_entry, gate_intr, Processor, intel_initialize, gdt_segments, kernel_cs, interrupt_gate,
}
use gewodsys.Intel.Tables.{IsGate, base_of, intel_initialize-IsGate}

-- Ports that keep what is written, the last first.
abbrev written : Ports
written = record {
  Dev = List (ℕ × ℕ);
  out8 = λ port v d. (port, v) ∷ d;
  out16 = λ port v d. d;
  out32 = λ port v d. d;
  in8 = λ port d. (0, d);
  in32 = λ port d. (0, d);
}

abbrev off : Processor written
off = record {
  tss = record { rsp0 = 0; ist1 = 0; iopb_offset = 0 };
  tss_descriptor = tss_entry;
  idt = λ _. 0;
  ports = [];
}

-- The segment of the kernel's code is the sixth, a present code segment of 64 bits.
code_segment : get_elem? gdt_segments (kernel_cs / 8) ≡ some 0x00A29A0000000000
unfolding gdt_segments
code_segment = refl

abbrev isr : ℕ
isr = 0xFFFFFFFF80001000

first_gate : interrupt_gate isr gate_intr ≡ 0xFFFFFFFF80008E0000281000
unfolding interrupt_gate
first_gate = refl

intel_initialize-IsGate_example :
    let r = intel_initialize written 0x9000 0xFFFFFFFF80123456 isr off in
    ((v : ℕ) → v < 256 → IsGate ((isr + 32 * v) % word64) gate_intr (r.idt v))
    × (base_of r.tss_descriptor ≡ 0xFFFFFFFF80123456)
    × (field 0 16 r.tss_descriptor ≡ field 0 16 tss_entry)
    × (field 40 16 r.tss_descriptor ≡ field 40 16 tss_entry)
intel_initialize-IsGate_example =
    intel_initialize-IsGate written 0x9000 0xFFFFFFFF80123456 isr off (omega arith) (omega arith)
