-- ===== src/System/Madt.antt =====
-- `ApicInitialize` of kernel/cpu/apic.c: the walk of the table that lists the interrupt controllers.
use mathlib.Core.Option
use gewodsys.Base.{
  ℕ, zero, suc, ◌+◌, ◌/◌, ◌%◌, ◌^◌, Option, none, some, [], ◌∷◌, ◌++◌, ltb, ◌==◌, if◌then◌else◌,
  with_field,
}
use gewodsys.Rt.{Mem, load}
use gewodsys.Ports.{Ports}
use gewodsys.Apic.Hardware.{Device}
use gewodsys.Apic.{IoApic, rentry_index, read64, write64, initialize_interrupts}
use gewodsys.System.{System, map_identity, allocate_for}

-- The fields of `AcpiMadt`, `AcpiMadtEntry` and `AcpiMadtIoApic`.
abbrev pub madt_length : ℕ → Mem → ℕ
madt_length madt m = load 4 (madt + 4) m

abbrev pub local_apic_address : ℕ → Mem → ℕ
local_apic_address madt m = load 4 (madt + 36) m

abbrev pub madt_flags : ℕ → Mem → ℕ
madt_flags madt m = load 4 (madt + 40) m

abbrev pub sizeof_madt : ℕ
sizeof_madt = 44

abbrev pub entry_type : ℕ → Mem → ℕ
entry_type e m = load 1 e m

abbrev pub entry_length : ℕ → Mem → ℕ
entry_length e m = load 1 (e + 1) m

abbrev pub io_apic_id : ℕ → Mem → ℕ
io_apic_id e m = load 1 (e + 2) m

abbrev pub io_apic_address : ℕ → Mem → ℕ
io_apic_address e m = load 4 (e + 4) m

abbrev pub io_apic_gsi_base : ℕ → Mem → ℕ
io_apic_gsi_base e m = load 4 (e + 8) m

abbrev pub type_io_apic : ℕ
type_io_apic = 1

abbrev pub sizeof_io_apic : ℕ
sizeof_io_apic = 40

module _ (D : Device) where
  open D use {Dev, put, fetch}

  -- `IoApicRead`
  unfoldable pub read32_at : ℕ → ℕ → Dev → ℕ × Dev
  read32_at base index d = let d' = put base index d in (fetch (base + 0x10) d', d')

  -- The loop that masks the entries, with the rounds left.
  unfoldable pub mask_entries : ℕ → ℕ → ℕ → Dev → Dev
  unfolding read64 write64
  mask_entries zero i base d = d
  mask_entries (suc n) i base d =
      let (raw, d') = read64 D base (rentry_index i) d in
      mask_entries n (i + 1) base (write64 D base (rentry_index i) (with_field 16 1 1 raw) d')

  module _ (P : Ports) where
    -- The I/O APIC of an entry. `LIST_ADD` puts it behind the others, and nothing reads the count
    -- `kNumIoApics`.
    unfoldable pub add_io_apic : ℕ → ℕ → System D P → Option (System D P)
    unfolding read32_at mask_entries map_identity allocate_for
    add_io_apic fuel e s = Option.bind (allocate_for D P fuel sizeof_io_apic s) (λ r.
        let m = r.1.kernel.machine.mem in
        let address = io_apic_address e m in
        let masked : System D P → System D P = λ t.
          let (version, d) = read32_at address 1 t.apic.dev in
          let a : IoApic = record {
            id = io_apic_id e m;
            max_rentry = version / 2 ^ 16 % 256;
            version = version % 256;
            gsi_base = io_apic_gsi_base e m;
            phys_addr = address;
            address = address;
          } in
          record t {
            apic = record t.apic {
              dev = mask_entries (a.max_rentry + 1) 0 address d;
              ioapics = t.apic.ioapics ++ (a ∷ []);
            };
          } in
        Option.map masked (map_identity D P fuel address r.1))

    -- The switch over the type of an entry. The other types are passed over.
    unfoldable pub visit_entry : ℕ → ℕ → System D P → Option (System D P)
    unfolding add_io_apic
    visit_entry fuel e s =
        if entry_type e s.kernel.machine.mem == type_io_apic then add_io_apic fuel e s else some s

    -- The walk, up to `end_`; the first fuel is for its rounds. An entry of length 0 is met for ever.
    unfoldable pub walk_entries : ℕ → ℕ → ℕ → ℕ → System D P → Option (System D P)
    unfolding visit_entry
    walk_entries zero fuel end_ e s = none
    walk_entries (suc n) fuel end_ e s =
        let next = λ (t : System D P).
          walk_entries n fuel end_ (e + entry_length e t.kernel.machine.mem) t in
        if ltb e end_ then Option.bind (visit_entry fuel e s) next else some s

    unfoldable pub disable_pic : ℕ → System D P → System D P
    disable_pic flags s =
        if flags % 2 == 0
        then s
        else record s { ports = P.out8 0xA1 0xFF (P.out8 0x21 0xFF s.ports) }

    -- `ApicInitialize`
    unfoldable pub apic_initialize : ℕ → ℕ → System D P → Option (System D P)
    unfolding map_identity disable_pic walk_entries
    apic_initialize fuel madt s =
        Option.bind (map_identity D P fuel (local_apic_address madt s.kernel.machine.mem) s) (λ t.
          let m = t.kernel.machine.mem in
          let u = disable_pic (madt_flags madt m) (record t {
            apic = record t.apic { local_apic_address = local_apic_address madt m };
          }) in
          let routed : System D P → System D P =
            λ v. record v { apic = initialize_interrupts D v.apic } in
          Option.map routed
            (walk_entries fuel fuel (madt + madt_length madt m) (madt + sizeof_madt) u))
