-- ===== src/Apic.antt =====
-- kernel/cpu/apic.c and kernel/cpu/irqhandler.c: the routing of interrupt requests, the vectors'
-- handlers, and the bitmaps of vectors in use.
pub mod Hardware
pub mod Chip
pub mod Dispatch
pub mod Enable
pub mod Fields
pub mod Routing
pub mod Software
mod Tests
use gewodsys.Base.{
  ℕ, zero, suc, ◌+◌, ◌-◌, ◌%◌, bit_and, Bool, ◌&&◌, Option, none, some, List, ltb, leb, ◌==◌,
  if◌then◌else◌, with_field,
}
use gewodsys.Base.Int.{ℤ, pos, negsuc}
use gewodsys.Bitmap.{Bitmap, set_bit, get_bit}
use gewodsys.Apic.Hardware.{Device}
pub use gewodsys.IoApic.{
  IoApic, vector_of, dest_mode, polarity, trigger_mode, mask_of, dest, end_of, rentry_index,
}
unfoldable pub use gewodsys.IoApic.{
  get_by_id, get_by_irq, highest_from, get_highest_irq, route_polarity, route_trigger, read64,
  write64,
}

-- `IrqHandlerEntry`; a handler is its address, 0 for none.
pub record IrqHandlerEntry : Type 0 where
  pub ignored : ℕ
  pub kind : ℕ
  pub handler : ℕ
  pub arg : ℕ

pub record IrqIsaOverride : Type 0 where
  pub used : Bool
  pub dest_irq : ℕ
  pub flags : ℕ

abbrev pub num_vectors : ℕ
num_vectors = 256

abbrev pub num_isa : ℕ
num_isa = 16

abbrev pub vector_base : ℕ
vector_base = 32

unfoldable pub find_software : ℕ → ℕ → Bitmap → Option ℕ
find_software zero bm bits = none
find_software (suc n) bm bits =
    let rest = find_software n (bm + 1) bits in if get_bit bm bits == 0 then some bm else rest

-- `for (bm = from; bm < from + n; bm++) SET(bm)`
unfoldable pub set_run : ℕ → ℕ → Bitmap → Bitmap
set_run zero bm bits = bits
set_run (suc n) bm bits = set_run n (bm + 1) (set_bit bm bits)

module _ (D : Device) where
  open D use {Dev, put, fetch}

  pub record Apic : Type 0 where
    pub dev : Dev
    pub ioapics : List IoApic
    pub handlers : ℕ → IrqHandlerEntry
    pub overrides : ℕ → IrqIsaOverride
    pub highest_irq : ℕ
    pub sw : Bitmap
    pub hw : Bitmap
    pub ipi_vector : ℕ
    pub local_apic_address : ℕ

  -- The part that the `ApicSetIrq` functions share: find the I/O APIC, and change its entry.
  unfoldable pub change_entry : Option IoApic → ℕ → (ℕ → ℕ) → Apic → ℤ × Apic
  change_entry none irq change s = (negsuc 0, s)
  change_entry (some a) irq change s =
      let (raw, d) = read64 D a.address (rentry_index irq) s.dev in
      (pos 0, record s { dev = write64 D a.address (rentry_index irq) (change raw) d })

  unfoldable pub update_rentry : ℕ → (ℕ → ℕ) → Apic → ℤ × Apic
  unfolding change_entry
  update_rentry irq change s = change_entry (get_by_irq irq s.ioapics) irq change s

  unfoldable pub set_irq_isa_routing : ℕ → ℕ → ℕ → Apic → ℤ × Apic
  unfolding update_rentry route_polarity route_trigger
  set_irq_isa_routing isa_irq vector flags = update_rentry isa_irq λ raw.
      route_trigger flags (route_polarity flags (with_field 0 8 vector (with_field 16 1 1 raw)))

  unfoldable pub set_irq_vector : ℕ → ℕ → Apic → ℤ × Apic
  unfolding update_rentry
  set_irq_vector irq vector = update_rentry irq λ raw. with_field 0 8 vector (with_field 15 1 0 raw)

  unfoldable pub set_irq_dest : ℕ → ℕ → ℕ → Apic → ℤ × Apic
  unfolding update_rentry
  set_irq_dest irq mode to = update_rentry irq λ raw. with_field 56 8 to (with_field 11 1 mode raw)

  unfoldable pub set_irq_mask : ℕ → ℕ → Apic → ℤ × Apic
  unfolding update_rentry
  set_irq_mask irq mask = update_rentry irq λ raw. with_field 16 1 (bit_and mask 1) raw

  -- `kIrqHandlers[vector].ignored = ignored`
  unfoldable pub set_ignored : ℕ → ℕ → Apic → Apic
  set_ignored vector ignored s = record s {
    handlers =
        λ v. if v == vector then record (s.handlers v) { ignored = ignored } else s.handlers v;
  }

  -- The body that `ApicEnableInterrupt` and `ApicDisableInterrupt` share; `flag` is 0 and 1.
  unfoldable pub mask_interrupt : ℕ → ℕ → Apic → ℤ × Apic
  unfolding set_ignored set_irq_mask
  mask_interrupt flag irq s =
      if ltb (num_vectors - vector_base) irq
      then (negsuc 0, s)
      else let s' = set_ignored ((irq + vector_base) % 256) flag s in
        (pos 0, if leb irq s.highest_irq then (set_irq_mask irq flag s').1 else s')

  unfoldable pub enable_interrupt : ℕ → Apic → ℤ × Apic
  unfolding mask_interrupt
  enable_interrupt irq s = mask_interrupt 0 irq s

  unfoldable pub disable_interrupt : ℕ → Apic → ℤ × Apic
  unfolding mask_interrupt
  disable_interrupt irq s = mask_interrupt 1 irq s

  unfoldable pub override_vector : ℕ → Apic → ℕ × Apic
  unfolding set_irq_isa_routing
  override_vector irq s =
      let vector = ((s.overrides irq).dest_irq + vector_base) % 256 in
      (vector, (set_irq_isa_routing irq vector (s.overrides irq).flags s).1)

  -- `ApicIrqMapToVector`
  unfoldable pub irq_map_to_vector : ℕ → Apic → ℕ × Apic
  unfolding override_vector set_irq_vector
  irq_map_to_vector irq s =
      let own = (irq + vector_base) % 256 in
      if leb irq s.highest_irq
      then if ltb irq num_isa && (s.overrides irq).used
        then override_vector irq s
        else (own, (set_irq_vector irq own s).1)
      else (own, s)

  unfoldable pub set_handler : ℕ → ℕ → ℕ → Apic → Apic
  set_handler vector handler arg s = record s {
    handlers = λ v.
        if v == vector
        then record { ignored = 1; kind = 1; handler = handler; arg = arg }
        else s.handlers v;
  }

  unfoldable pub register_irq_handler : ℕ → ℕ → ℕ → Apic → Apic
  unfolding irq_map_to_vector set_handler
  register_irq_handler irq handler arg s =
      let (vector, s') = irq_map_to_vector irq s in set_handler vector handler arg s'

  -- `IrqHandler`: the end of interrupt, and the call that is made, if any: the handler, its
  -- `uint8_t` argument and its data.
  unfoldable pub irq_handler : ℕ → Apic → Option (ℕ × ℕ × ℕ) × Apic
  irq_handler vector s =
      let e = s.handlers vector in
      (
        if e.handler == 0
            then none
            else some (e.handler, (vector + 256 - vector_base) % 256, e.arg),
        record s { dev = put (s.local_apic_address + 0xB0) 0 s.dev },
      )

  unfoldable pub taken : Option ℕ → Apic → ℤ × Apic
  taken none s = (negsuc 0, s)
  taken (some bm) s = (pos (bm + s.highest_irq + 1), record s { sw = set_bit bm s.sw })

  -- `ApicAllocateSoftwareIrq`
  unfoldable pub allocate_software_irq : Apic → ℤ × Apic
  unfolding taken
  allocate_software_irq s = taken (find_software num_vectors 0 s.sw) s

  -- The loop over the ISA interrupts.
  unfoldable pub route_isa : ℕ → ℕ → Apic → Apic
  unfolding set_irq_isa_routing set_irq_vector
  route_isa zero irq s = s
  route_isa (suc n) irq s = route_isa n (irq + 1) (
      if (s.overrides irq).used
      then (set_irq_isa_routing irq (((s.overrides irq).dest_irq + vector_base) % 256)
          (s.overrides irq).flags s).1
      else (set_irq_vector irq (irq + vector_base) s).1)

  unfoldable pub initialize_bitmaps : Apic → Apic
  initialize_bitmaps s =
      let highest = get_highest_irq s.ioapics in
      record s {
        highest_irq = highest;
        sw = set_run vector_base (num_vectors - vector_base) s.sw;
        hw =
            set_run (num_vectors - vector_base + 1 - (highest + 1)) (highest + 1)
              (set_run num_isa 0 (set_run vector_base (num_vectors - vector_base) s.hw));
      }

  -- `ApicInitializeInterrupts`
  unfoldable pub initialize_interrupts : Apic → Apic
  unfolding initialize_bitmaps route_isa enable_interrupt
  initialize_interrupts s =
      let s' = route_isa num_isa 0 (initialize_bitmaps s) in
      (enable_interrupt (num_vectors - 1) (record s' {
        ipi_vector = num_vectors - 1;
        sw = set_bit (num_vectors - 1 - vector_base) s'.sw;
      })).1
