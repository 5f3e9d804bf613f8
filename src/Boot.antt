-- ===== src/Boot.antt =====
-- kernel/kernel.c and kernel/cpu/acpi.c: how `KeMain` and `AcpiInitialize` put the parts together.
pub mod Inputs
pub mod Drivers
mod Tests
use mathlib.Core.Option
use gewodsys.Base.{ℕ, ◌+◌, Option, none, some, List, [], ◌∷◌, ◌++◌}
use gewodsys.Rt.{Mem, load}
use gewodsys.Ports.{Ports, Mmio}
use gewodsys.Bitmap.{Bitmap}
use gewodsys.Pmm.{MemmapEntry}
use gewodsys.Vmm.{Machine, initialize_paging}
use gewodsys.Heap.Calls.{initialize_heap}
use gewodsys.Pci.{PciDevice, Bus, PciDriver}
use gewodsys.Acpi.{tables}
use gewodsys.Apic.Hardware.{Device}
use gewodsys.Apic.{Apic, register_irq_handler, enable_interrupt}
use gewodsys.Sched.{Sched, zero_task, create_kernel_task}
use gewodsys.Input.{enable_mouse}
use gewodsys.Intel.{Processor, intel_initialize}
use gewodsys.System.{System, allocate_for}
use gewodsys.System.Madt.{apic_initialize}
use gewodsys.Gpu.{cherry_trail_try_probe, cherry_trail_initialize}
use gewodsys.Xhci.Start.{XhciDevice, Host, xhci_try_probe}
use gewodsys.Xhci.Initialize.{xhci_initialize}

-- The fields of `AcpiMcfg`.
abbrev pub start_bus_number : ℕ → Mem → ℕ
start_bus_number mcfg m = load 1 (mcfg + 54) m

abbrev pub end_bus_number : ℕ → Mem → ℕ
end_bus_number mcfg m = load 1 (mcfg + 55) m

abbrev pub sizeof_task : ℕ
sizeof_task = 72

-- A function that becomes a task, with its name.
pub record TaskStart : Type 0 where
  pub name : ℕ
  pub entry : ℕ

-- The addresses in the kernel's image, what the boot loader hands over, and what the memory and the
-- variables of the interrupt code hold at first.
pub record Image (D : Device) (P : Ports) : Type 0 where
  pub stack : ℕ
  pub tss : ℕ
  pub isr_table : ℕ
  pub host_irq : ℕ
  pub keyboard : ℕ
  pub mouse : ℕ
  pub idle : TaskStart
  pub test_1 : TaskStart
  pub test_2 : TaskStart
  pub usable : ℕ
  pub memmap : List MemmapEntry
  pub bitmap : Bitmap
  pub physical : Mem
  pub virtual : Mem
  pub cr3 : ℕ
  pub rsdp : ℕ
  pub processor : Processor P
  pub apic : Apic D

module _ (D : Device) (P : Ports) where
  -- `TskCreateKernelTask`, with its allocation.
  unfoldable pub add_task : ℕ → TaskStart → System D P × Sched → Option (System D P × Sched)
  unfolding allocate_for create_kernel_task
  add_task fuel e s =
      Option.map (λ r. (r.1, create_kernel_task r.0 e.name e.entry s.1))
        (allocate_for D P fuel sizeof_task s.0)

  -- The part of `KeMain` that registers the keyboard and the mouse.
  unfoldable pub start_inputs : ℕ → ℕ → System D P → System D P
  unfolding register_irq_handler enable_interrupt enable_mouse
  start_inputs keyboard mouse s =
      let a = (enable_interrupt D 1 (register_irq_handler D 1 keyboard 0 s.apic)).1 in
      record s {
        apic = (enable_interrupt D 12 (register_irq_handler D 12 mouse 0 a)).1;
        ports = enable_mouse P s.ports;
      }

module _ (D : Device) (P : Ports) (R : Mmio) where
  -- What the drivers change beside the ports: the kernel, and the controllers that were started.
  -- `none` where a driver did not come to an end.
  abbrev pub Started : Type 0
  Started = Option (List XhciDevice × Host D P R)

  abbrev on_ports : P.Dev → Host D P R → Host D P R
  on_ports d s = record s { system = record s.system { ports = d } }

  -- The start of a driver within the enumeration.
  unfoldable pub on_bus :
      (PciDevice → Host D P R → Option (List XhciDevice × Host D P R))
      → PciDevice
      → Bus P Started
      → Bus P Started
  on_bus start p b = elim b.rest [
    | none ↦ b
    | some r ↦ elim (start p (on_ports b.dev r.1)) [
      | none ↦ record b { rest = none }
      | some q ↦ record b { dev = q.1.system.ports; rest = some (r.0 ++ q.0, q.1) }
    ]
  ]

  -- `kPciDrivers`
  unfoldable pub pci_drivers : ℕ → ℕ → List (PciDriver P Started)
  unfolding on_bus xhci_initialize cherry_trail_initialize
  pci_drivers fuel host_irq =
      record {
        name = 0;
        try_probe = xhci_try_probe;
        initialize =
            on_bus
              (λ p s. Option.map (λ q. (q.0 ∷ [], q.1)) (xhci_initialize D P R fuel host_irq p s));
      }
      ∷ record {
        name = 1;
        try_probe = cherry_trail_try_probe;
        initialize = on_bus (λ p s.
            Option.map (λ t. ([], record s { system = t }))
              (cherry_trail_initialize D P fuel p s.system));
      }
      ∷ []

  -- `PciInitialize` on the buses of the table at `mcfg`.
  unfoldable pub start_pci : ℕ → ℕ → ℕ → Host D P R → Bus P Started
  unfolding pci_drivers
  start_pci fuel host_irq mcfg s =
      let m = s.system.kernel.machine.mem in
      gewodsys.Pci.initialize P Started (pci_drivers fuel host_irq) (start_bus_number mcfg m)
        (end_bus_number mcfg m)
        (record { dev = s.system.ports; loaded = λ _. none; count = 0; rest = some ([], s) })

  -- `AcpiInitialize`. The function that it calls on the FADT is empty.
  unfoldable pub acpi_initialize : ℕ → ℕ → ℕ → Host D P R → Option (Bus P Started)
  unfolding tables apic_initialize start_pci
  acpi_initialize fuel host_irq rsdp s =
      let t = tables rsdp s.system.kernel.machine.mem in
      Option.map (λ v. start_pci fuel host_irq t.mcfg (record s { system = v }))
        (apic_initialize D P fuel t.madt s.system)

  -- The kernel when `KeMain` comes to its last loop; the ports in `processor` are those of the start.
  pub record Running : Type 0 where
    pub processor : Processor P
    pub bus : Bus P Started
    pub system : System D P
    pub sched : Sched

  -- The variables of the scheduler at first.
  abbrev pub no_tasks : ℕ → Sched
  no_tasks cr3 = record {
    task = λ _. zero_task;
    tasks = 0;
    last_task = 0;
    current = 0;
    next_pid = 0;
    cr3 = cr3;
  }

  -- `KeMain` up to `AcpiInitialize`, from the memory on.
  unfoldable pub start_memory : ℕ → Image D P → P.Dev → Option (System D P)
  unfolding initialize_paging initialize_heap
  start_memory fuel i ports =
      Option.bind (gewodsys.Pmm.initialize i.usable i.memmap i.bitmap) (λ pmm.
        let machine : Machine = record { mem = i.physical; pmm = pmm; pml4 = 0; warnings = 0 } in
        Option.map (λ k. record { apic = i.apic; ports = ports; kernel = k })
          (initialize_heap fuel i.virtual (initialize_paging i.cr3 machine).1))

  -- `KeMain` behind `AcpiInitialize`.
  unfoldable pub finish : ℕ → Image D P → Processor P → Bus P Started → Sched → Option Running
  unfolding start_inputs add_task
  finish fuel i processor bus sched = Option.bind bus.rest (λ r.
      let s = start_inputs D P i.keyboard i.mouse (on_ports bus.dev r.1).system in
      Option.bind (add_task D P fuel i.test_1 (s, sched)) (λ t.
        Option.map (λ u. record { processor = processor; bus = bus; system = u.0; sched = u.1 })
          (add_task D P fuel i.test_2 t)))

  -- `KeMain`, for the registers of the USB controller.
  unfoldable pub ke_main : ℕ → Image D P → R.Dev → Option Running
  unfolding intel_initialize start_memory add_task acpi_initialize finish
  ke_main fuel i regs =
      let processor = intel_initialize P i.stack i.tss i.isr_table i.processor in
      Option.bind (start_memory fuel i processor.ports) (λ s.
        Option.bind (add_task D P fuel i.idle (s, no_tasks i.cr3)) (λ t.
          Option.bind
            (acpi_initialize fuel i.host_irq i.rsdp (record { system = t.0; regs = regs }))
            (λ bus. finish fuel i processor bus t.1)))
