-- ===== src/Intel.antt =====
-- kernel/cpu/intel.c: the tables of segments and interrupts, and the legacy interrupt controller.
-- A descriptor is a word of 64 or 128 bits. Loading the tables into the processor is assembly.
pub mod Tables
mod Tests
use gewodsys.Base.{
  ℕ, zero, suc, ◌+◌, ◌*◌, ◌/◌, ◌%◌, ◌^◌, List, [], ◌∷◌, ◌==◌, if◌then◌else◌, with_field, word64,
}
use gewodsys.Ports.{Ports}

abbrev pub kernel_cs : ℕ
kernel_cs = 0x28

abbrev pub gate_intr : ℕ
gate_intr = 0xE

-- `GlobalDescriptorTableEntry`
abbrev pub segment : ℕ → ℕ → ℕ → ℕ → ℕ → ℕ → ℕ
segment limit base_low16 base_mid8 access granularity base_high8 =
    limit
    + base_low16 * 2 ^ 16
    + base_mid8 * 2 ^ 32
    + access * 2 ^ 40
    + granularity * 2 ^ 48
    + base_high8 * 2 ^ 56

-- The segments of `kIntelGDT`, before that of the task state.
unfoldable pub gdt_segments : List ℕ
gdt_segments =
    segment 0 0 0 0 0 0
    ∷ segment 0xFFFF 0 0 0x9A 0x80 0
    ∷ segment 0xFFFF 0 0 0x92 0x80 0
    ∷ segment 0xFFFF 0 0 0x9A 0xCF 0
    ∷ segment 0xFFFF 0 0 0x92 0xCF 0
    ∷ segment 0 0 0 0x9A 0xA2 0
    ∷ segment 0 0 0 0x92 0xA0 0
    ∷ segment 0 0 0 0xF2 0 0
    ∷ segment 0 0 0 0xFA 0x20 0
    ∷ []

-- `TaskStateSegmentEntry` as the table begins, and with the base that `IntelInitialize` writes.
abbrev pub tss_entry : ℕ
tss_entry = segment 0x68 0 0 0x89 0x20 0

unfoldable pub with_base : ℕ → ℕ → ℕ
with_base address w = with_field 64 32 (address / 2 ^ 32) (
    with_field 56 8 (address / 2 ^ 24 % 256)
      (with_field 32 8 (address / 2 ^ 16 % 256) (with_field 16 16 (address % 2 ^ 16) w)))

-- The part of `TaskStateSegment` that is written.
pub record TaskState : Type 0 where
  pub rsp0 : ℕ
  pub ist1 : ℕ
  pub iopb_offset : ℕ

abbrev pub sizeof_tss : ℕ
sizeof_tss = 104

-- The word that `IntelSetInterrupt` leaves, from the zeroed entry on.
unfoldable pub interrupt_gate : ℕ → ℕ → ℕ
interrupt_gate handler kind = with_field 47 1 1 (
    with_field 40 4 kind (
      with_field 16 16 kernel_cs (
        with_field 64 32 (handler / 2 ^ 32 % 2 ^ 32)
          (with_field 48 16 (handler / 2 ^ 16 % 2 ^ 16) (with_field 0 16 (handler % 2 ^ 16) 0)))))

abbrev pub Gates : Type 0
Gates = ℕ → ℕ

unfoldable pub set_interrupt : ℕ → ℕ → ℕ → Gates → Gates
unfolding interrupt_gate
set_interrupt interrupt handler kind idt v =
    if v == interrupt then interrupt_gate handler kind else idt v

-- The loop over the vectors, with the rounds left.
unfoldable pub fill_idt : ℕ → ℕ → ℕ → Gates → Gates
unfolding set_interrupt
fill_idt zero vector isr idt = idt
fill_idt (suc n) vector isr idt =
    fill_idt n (vector + 1) ((isr + 32) % word64) (set_interrupt vector isr gate_intr idt)

module _ (P : Ports) where
  open P use {Dev, out8}

  -- `IntelInitializePic`
  unfoldable pub initialize_pic : Dev → Dev
  initialize_pic d =
      let d1 = out8 0xA0 0x11 (out8 0x20 0x11 d) in
      let d2 = out8 0xA1 0x28 (out8 0x21 0x20 d1) in
      let d3 = out8 0xA1 2 (out8 0x21 4 d2) in
      let d4 = out8 0xA1 1 (out8 0x21 1 d3) in out8 0xA1 0xFF (out8 0x21 0xFF d4)

  -- What `IntelInitialize` sets up.
  pub record Processor : Type 0 where
    pub tss : TaskState
    pub tss_descriptor : ℕ
    pub idt : Gates
    pub ports : Dev

  -- `IntelInitialize`, for the addresses of the task state and of the handlers.
  unfoldable pub intel_initialize : ℕ → ℕ → ℕ → Processor → Processor
  unfolding with_base fill_idt initialize_pic
  intel_initialize kernel_stack tss_address isr_table c = record {
    tss = record { rsp0 = kernel_stack; ist1 = 0; iopb_offset = sizeof_tss };
    tss_descriptor = with_base tss_address c.tss_descriptor;
    idt = fill_idt 256 0 isr_table c.idt;
    ports = out8 0xA1 0xFF (out8 0x21 0xFD (initialize_pic c.ports));
  }
