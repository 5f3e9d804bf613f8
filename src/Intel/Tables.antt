-- ===== src/Intel/Tables.antt =====
-- What the processor reads from the tables that `IntelInitialize` fills.
use gewodsys.Base.{
  ℕ, zero, suc, ◌+◌, ◌-◌, ◌*◌, ◌%◌, ◌^◌, ◌≤◌, ◌<◌, ◌≡◌, inl, inr, refl, ap, ◌∙◌, arith, Bool-cases,
  ◌==◌, ==_iff, ne→==, field, word64,
}
use gewodsys.Ports.{Ports}
use gewodsys.Intel.{
  kernel_cs, gate_intr, with_base, interrupt_gate, Gates, set_interrupt, fill_idt, Processor,
  intel_initialize,
}

-- A gate to the handler: the address in its three parts, the segment of the kernel, the kind, and
-- the bit that makes it present; neither a stack of its own nor a privilege.
pub record IsGate (handler kind w : ℕ) : Type 0 where
  pub offset : field 0 16 w + field 48 16 w * 2 ^ 16 + field 64 32 w * 2 ^ 32 ≡ handler
  pub selector : field 16 16 w ≡ kernel_cs
  pub kind_is : field 40 4 w ≡ kind
  pub present : field 47 1 w ≡ 1
  pub stack : field 32 3 w ≡ 0
  pub level : field 45 2 w ≡ 0
  pub size : w < 2 ^ 96

interrupt_gate-IsGate :
    (handler kind : ℕ)
    → handler < word64
    → kind < 16
    → IsGate handler kind (interrupt_gate handler kind)
unfolding interrupt_gate
interrupt_gate-IsGate handler kind small k = record {
  offset = omega arith;
  selector = omega arith;
  kind_is = omega arith;
  present = omega arith;
  stack = omega arith;
  level = omega arith;
  size = omega arith;
}

fill_idt_below : (n v i isr : ℕ) (idt : Gates) → i < v → fill_idt n v isr idt i ≡ idt i
unfolding fill_idt set_interrupt
fill_idt_below zero v i isr idt lt = refl
fill_idt_below (suc n) v i isr idt lt =
    fill_idt_below n (v + 1) i ((isr + 32) % word64) (set_interrupt v isr gate_intr idt)
      (omega arith)
    ∙ rw (ne→== i v (λ e. omega (arith, e)))

fill_idt_lem :
    (n v i isr : ℕ) (idt : Gates)
    → isr < word64
    → v ≤ i
    → i < v + n
    → fill_idt n v isr idt i ≡ interrupt_gate ((isr + 32 * (i - v)) % word64) gate_intr
unfolding fill_idt set_interrupt
fill_idt_lem zero v i isr idt small lo hi = absurd (omega arith)
fill_idt_lem (suc n) v i isr idt small lo hi =
    let rest = set_interrupt v isr gate_intr idt in
    let isr' : ℕ = (isr + 32) % word64 in
    elim (Bool-cases (i == v)) [
      | inl e ↦
          let p : i ≡ v = (==_iff i v).0 e in
          let own : (isr + 32 * (i - v)) % word64 ≡ isr = omega (arith, p) in
          rw own (fill_idt_below n (v + 1) i isr' rest (omega (arith, p)) ∙ rw e)
      | inr e ↦
          let next : (isr' + 32 * (i - (v + 1))) % word64 ≡ (isr + 32 * (i - v)) % word64 =
            ground arith in
          fill_idt_lem n (v + 1) i isr' rest (omega arith) (ground arith) (omega arith)
          ∙ ap (λ a. interrupt_gate a gate_intr) next
    ]

-- The base and the other fields of the descriptor of the task state.
abbrev pub base_of : ℕ → ℕ
base_of w = field 16 16 w + field 32 8 w * 2 ^ 16 + field 56 8 w * 2 ^ 24 + field 64 32 w * 2 ^ 32

with_base-base_of :
    (a w : ℕ)
    → a < word64
    → (base_of (with_base a w) ≡ a)
      × (field 0 16 (with_base a w) ≡ field 0 16 w)
      × (field 40 16 (with_base a w) ≡ field 40 16 w)
unfolding with_base
with_base-base_of a w small = (omega arith, omega arith, omega arith)

-- `IntelInitialize` leaves a gate for each of the 256 vectors, to the handler 32 bytes behind that of
-- the vector before it, and the descriptor of the task state with its address as the base and its
-- limit and flags as they were.
pub intel_initialize-IsGate :
    (P : Ports) (stack tss isr : ℕ) (c : Processor P)
    → tss < word64
    → isr < word64
    → let r = intel_initialize P stack tss isr c in
      ((v : ℕ) → v < 256 → IsGate ((isr + 32 * v) % word64) gate_intr (r.idt v))
      × (base_of r.tss_descriptor ≡ tss)
      × (field 0 16 r.tss_descriptor ≡ field 0 16 c.tss_descriptor)
      × (field 40 16 r.tss_descriptor ≡ field 40 16 c.tss_descriptor)
unfolding intel_initialize
intel_initialize-IsGate P stack tss isr c small small' =
    let (base, limit, flags) = with_base-base_of tss c.tss_descriptor small in
    (
      λ v lt.
          let same : v - 0 ≡ v = omega arith in
          rw (fill_idt_lem 256 0 v isr c.idt small' (omega arith) (omega arith), same)
            (interrupt_gate-IsGate ((isr + 32 * v) % word64) gate_intr (omega arith) (omega arith)),
      base,
      limit,
      flags,
    )
