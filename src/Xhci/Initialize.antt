-- ===== src/Xhci/Initialize.antt =====
-- `XhciInitialize` and `XhciHostIrq` of kernel/dev/usb/xhci.c.
use mathlib.Core.Option
use gewodsys.Base.{
  ℕ, zero, suc, ◌+◌, ◌-◌, ◌*◌, ◌/◌, ◌%◌, ◌^◌, bit_and, Option, none, some, ◌==◌, if◌then◌else◌,
  word32,
}
use gewodsys.Rt.{zero_memory}
use gewodsys.Ports.{Ports, Mmio}
use gewodsys.Vmm.{get_physical_address}
use gewodsys.Pci.{PciDevice, maybe_enable_bus_mastering, maybe_enable_memory_access}
use gewodsys.Pci.Base.{bar_address}
use gewodsys.Apic.Hardware.{Device}
use gewodsys.System.{System, map_identity, allocate_for}
use gewodsys.Xhci.{Ring, ring_create, cmd_ring_size}
use gewodsys.Xhci.Start.{XhciDevice, Host, sizeof_device, set_bits, keep_bits, interrupter_create}

-- Where the registers of `XhciCapabilityRegisters` lie,
abbrev pub hcs_params1 : ℕ
hcs_params1 = 4

abbrev pub hcc_params1 : ℕ
hcc_params1 = 16

abbrev pub doorbell_offset : ℕ
doorbell_offset = 20

abbrev pub run_regs_off : ℕ
run_regs_off = 24

-- and those of `XhciOperationalRegisters` as the structure is declared.
abbrev pub usb_status : ℕ
usb_status = 4

abbrev pub dcbaap_low : ℕ
dcbaap_low = 56

abbrev pub dcbaap_high : ℕ
dcbaap_high = 60

abbrev pub config : ℕ
config = 64

abbrev pub interrupters : ℕ
interrupters = 32

module _ (D : Device) (P : Ports) (R : Mmio) where
  open R use {put32, take32, take8}

  -- The loop that waits for the controller, on fuel. Its message reads the status once more.
  unfoldable pub wait_ready : ℕ → ℕ → R.Dev → Option R.Dev
  wait_ready zero op d = none
  wait_ready (suc n) op d =
      let (status, d1) = take32 (op + usb_status) d in
      let rest = wait_ready n op (take32 (op + usb_status) d1).1 in
      if bit_and status (2 ^ 11) == 0 then some d1 else rest

  -- The addresses of the registers, with the ring and the bitmap still to come.
  unfoldable pub locate : PciDevice → ℕ → R.Dev → XhciDevice × R.Dev
  locate p mmio d =
      let (length, d1) = take8 mmio d in
      let (rt, d2) = take32 (mmio + run_regs_off) d1 in
      let (db, d3) = take32 (mmio + doorbell_offset) d2 in
      let (params, d4) = take32 (mmio + hcc_params1) d3 in
      (
        record {
          pci = p;
          mmio = mmio;
          cap = mmio;
          op = mmio + length;
          rt = mmio + rt;
          db = mmio + db;
          xcap = mmio + params / 2 ^ 16 % 2 ^ 12 * 2 ^ 2;
          dcbaap = 0;
          interrupter_bitmap_size = 0;
          interrupter_bitmap = 0;
          interrupter = none;
          cmd = record { ptr = 0; index = 0; max_index = 0; cycle = 0 };
        },
        d4,
      )

  -- Reset the controller, and enable every slot.
  unfoldable pub reset : ℕ → XhciDevice → R.Dev → Option R.Dev
  unfolding wait_ready
  reset fuel x d =
      let stopped = set_bits D P R x.op 2 (keep_bits D P R x.op (word32 - 2) d) in
      Option.map
        (λ d1.
          let (params, d2) = take32 (x.cap + hcc_params1) d1 in
          put32 (x.op + config) (params % 256) d2)
        (wait_ready fuel x.op stopped)

  -- The array of the device contexts.
  unfoldable pub create_contexts : ℕ → XhciDevice → Host D P R → Option (XhciDevice × Host D P R)
  unfolding allocate_for
  create_contexts fuel x s =
      let (params, d) = take32 (x.cap + hcs_params1) s.regs in
      let set : ℕ × System D P → XhciDevice × Host D P R = λ r.
        let physical = get_physical_address r.0 r.1.kernel.machine in
        (
          record x { dcbaap = physical },
          record {
            system = r.1;
            regs =
                put32 (x.op + dcbaap_high) (physical / 2 ^ 32 % word32)
                  (put32 (x.op + dcbaap_low) (physical % word32) d);
          },
        ) in
      Option.map set (allocate_for D P fuel (params % 256 * 8) s.system)

  -- The bitmap of the interrupters.
  unfoldable pub create_bitmap : ℕ → XhciDevice → Host D P R → Option (XhciDevice × Host D P R)
  unfolding allocate_for
  create_bitmap fuel x s =
      let (params, d) = take32 (x.cap + hcs_params1) s.regs in
      let size = params / 2 ^ 8 % 2 ^ 11 in
      let clear : ℕ × System D P → XhciDevice × Host D P R = λ r.
        let k = r.1.kernel in
        let k' = record k { mem = zero_memory r.0 (size / 8) k.mem } in
        (
          record x { interrupter_bitmap_size = size; interrupter_bitmap = r.0 },
          record { system = record r.1 { kernel = k' }; regs = d },
        ) in
      Option.map clear (allocate_for D P fuel (size / 8) s.system)

  -- The command ring and the interrupter; `at` is the address of the `XhciDevice`.
  unfoldable pub connect_rings :
      ℕ → ℕ → ℕ → XhciDevice → Host D P R → Option (XhciDevice × Host D P R)
  unfolding ring_create create_bitmap interrupter_create
  connect_rings fuel handler at x s =
      Option.bind (ring_create fuel cmd_ring_size s.system.kernel) (λ r.
        let t : Host D P R = record s { system = record s.system { kernel = r.2 } } in
        Option.bind (create_bitmap fuel (record x { cmd = r.1 }) t) (λ q.
          let keep : Option gewodsys.Xhci.Start.Interrupter × Host D P R → XhciDevice × Host D P R =
            λ u. (record q.0 { interrupter = u.0 }, u.1) in
          Option.map keep (interrupter_create D P R fuel q.0 handler at q.1)))

  -- `XhciInitialize`, for the address of `XhciHostIrq`.
  unfoldable pub xhci_initialize : ℕ → ℕ → PciDevice → Host D P R → Option (XhciDevice × Host D P R)
  unfolding bar_address map_identity allocate_for locate reset create_contexts connect_rings
  xhci_initialize fuel handler p s =
      let d = maybe_enable_memory_access P p (maybe_enable_bus_mastering P p s.system.ports) in
      let (mmio, d') = bar_address P p 0x10 d in
      Option.bind (map_identity D P fuel mmio (record s.system { ports = d' })) (λ t.
        Option.bind (allocate_for D P fuel sizeof_device t) (λ r.
          let (x, d1) = locate p mmio s.regs in
          Option.bind (reset fuel x d1) (λ d2.
            Option.bind (create_contexts fuel x (record { system = r.1; regs = d2 }))
              (λ q. connect_rings fuel handler r.0 q.0 q.1))))

  -- `XhciHostIrq`; the two reads at the end are for messages.
  unfoldable pub xhci_host_irq : XhciDevice → R.Dev → R.Dev
  xhci_host_irq x d =
      let d1 = set_bits D P R (x.rt + interrupters) 1 (set_bits D P R (x.op + usb_status) 8 d) in
      (take32 (x.op + usb_status) (take32 (x.op + usb_status) d1).1).1
