-- ===== src/Xhci/Start.antt =====
-- The part of kernel/dev/usb/xhci.c that starts the host controller and handles its interrupt.
use mathlib.Core.Option
use gewodsys.Base.{
  ℕ, zero, suc, ◌+◌, ◌-◌, ◌*◌, ◌/◌, ◌%◌, ◌^◌, bit_and, bit_or, Bool, ◌&&◌, ◌||◌, Option, none, some,
  ◌==◌, if◌then◌else◌, word32, word64,
}
use gewodsys.Base.Int.{pos, negsuc}
use gewodsys.Rt.{Mem, load8, store8, store}
use gewodsys.Ports.{Ports, Mmio}
use gewodsys.Heap.{Kernel}
use gewodsys.Heap.Calls.{kmalloc}
use gewodsys.Pci.{PciDevice, read32, write32}
use gewodsys.Apic.Hardware.{Device}
use gewodsys.Apic.{allocate_software_irq, register_irq_handler, enable_interrupt}
use gewodsys.System.{System}
use gewodsys.Xhci.{Ring, ring_create, ring_get_physical_address, ring_size, evt_ring_size}

-- `XhciTryProbe`
unfoldable pub xhci_try_probe : PciDevice → Bool
xhci_try_probe p =
    p.vendor_id == 0x1B36 && p.device_id == 0x000D || p.vendor_id == 0x8086 && p.device_id == 0x22B5

-- The macros on the header of a capability.
abbrev pub xcap_id : ℕ → ℕ
xcap_id v = v % 256

abbrev pub xcap_next : ℕ → ℕ
xcap_next v = v / 2 ^ 8 % 256 * 2 ^ 2

-- `XhciInterrupter`, with the ring itself for its address.
pub record Interrupter : Type 0 where
  pub index : ℕ
  pub vector : ℕ
  pub erst : ℕ
  pub ring : Ring

-- `XhciDevice`. The interrupter and the ring stand for their addresses.
pub record XhciDevice : Type 0 where
  pub pci : PciDevice
  pub mmio : ℕ
  pub cap : ℕ
  pub op : ℕ
  pub rt : ℕ
  pub db : ℕ
  pub xcap : ℕ
  pub dcbaap : ℕ
  pub interrupter_bitmap_size : ℕ
  pub interrupter_bitmap : ℕ
  pub interrupter : Option Interrupter
  pub cmd : Ring

abbrev pub sizeof_device : ℕ
sizeof_device = 104

abbrev pub sizeof_erst_entry : ℕ
sizeof_erst_entry = 16

abbrev pub sizeof_interrupter : ℕ
sizeof_interrupter = 24

abbrev pub sizeof_msix_entry : ℕ
sizeof_msix_entry = 16

-- The bits of the bitmap at an address.
abbrev pub interrupter_bitmap_get : ℕ → ℕ → Mem → ℕ
interrupter_bitmap_get at i m = bit_and (load8 (at + i / 8) m) (2 ^ (i % 8))

abbrev pub interrupter_bitmap_set : ℕ → ℕ → Mem → Mem
interrupter_bitmap_set at i m = store8 (at + i / 8) (bit_or (load8 (at + i / 8) m) (2 ^ (i % 8))) m

-- The search for a free interrupter, with the rounds left.
unfoldable pub find_interrupter : ℕ → ℕ → ℕ → Mem → Option ℕ
find_interrupter at zero i m = none
find_interrupter at (suc n) i m =
    let rest = find_interrupter at n (i + 1) m in
    if interrupter_bitmap_get at i m == 0 then some i else rest

module _ (P : Ports) where
  open P use {Dev}

  -- The walk over the capabilities, on fuel: the loop goes on while the next one is not at distance
  -- 0. The result is the address of the table of the controller at `mmio`, 0 if there is none.
  unfoldable pub find_msix : ℕ → PciDevice → ℕ → ℕ → ℕ → Dev → Option (ℕ × Dev)
  unfolding read32 write32
  find_msix zero p mmio address capability d = none
  find_msix (suc n) p mmio address capability d =
      let next = (address + xcap_next capability) % word32 in
      let (raw, d1) = read32 P p ((address + 4) % 256) d in
      let (following, d2) = read32 P p (next % 256) d in
      let rest = find_msix n p mmio next following d2 in
      if xcap_id capability == 0x11
      then some
          ((mmio + raw / 2 ^ 3) % word64, write32 P p (address % 256) (bit_or capability 0x8000) d1)
      else if xcap_next capability == 0
      then some (0, d)
      else rest

-- The kernel's state with the registers of the controller.
pub record Host (D : Device) (P : Ports) (R : Mmio) : Type 0 where
  pub system : System D P
  pub regs : R.Dev

module _ (D : Device) (P : Ports) (R : Mmio) where
  open R use {put32, put64, take32, take8}

  abbrev with_kernel : Kernel → Host D P R → Host D P R
  with_kernel k s = record s { system = record s.system { kernel = k } }

  abbrev with_ports : P.Dev → Host D P R → Host D P R
  with_ports d s = record s { system = record s.system { ports = d } }

  -- `*address |= bits` and `*address &= bits` on a register.
  unfoldable pub set_bits : ℕ → ℕ → R.Dev → R.Dev
  set_bits address bits d = let (v, d') = take32 address d in put32 address (bit_or v bits) d'

  unfoldable pub keep_bits : ℕ → ℕ → R.Dev → R.Dev
  keep_bits address bits d = let (v, d') = take32 address d in put32 address (bit_and v bits) d'

  -- The entry of the table for an interrupter.
  unfoldable pub set_msix_entry : ℕ → ℕ → R.Dev → R.Dev
  unfolding keep_bits
  set_msix_entry entry irq d =
      keep_bits (entry + 12) (word32 - 2) (put32 (entry + 8) irq (put64 entry 0xFEE00000 d))

  -- The end of `XhciInterrupterCreate`: the event ring and its table.
  unfoldable pub create_event_ring : ℕ → ℕ → ℕ → Kernel → Option (Interrupter × Kernel)
  unfolding ring_create
  create_event_ring fuel index irq k = Option.bind (kmalloc fuel sizeof_erst_entry k) (λ r.
      Option.bind (ring_create fuel evt_ring_size r.1) (λ q.
        let (_, ring, k1) = q in
        let m = store 8 r.0 (ring_get_physical_address ring k1.machine) k1.mem in
        let k2 = record k1 { mem = store 4 (r.0 + 8) (ring_size ring % word32) m } in
        Option.map
          (λ t. (record { index = index % 256; vector = irq % 256; erst = r.0; ring = ring }, t.1))
          (kmalloc fuel sizeof_interrupter k2)))

  -- The part of `XhciInterrupterCreate` that follows when an interrupt request is there.
  unfoldable pub connect :
      ℕ → XhciDevice → ℕ → ℕ → ℕ → ℕ → Host D P R → Option (Option Interrupter × Host D P R)
  unfolding find_msix set_msix_entry create_event_ring
  connect fuel x index irq handler arg s =
      let apic = register_irq_handler D (irq % 256) handler arg s.system.apic in
      let apic' = (enable_interrupt D (irq % 256) apic).1 in
      let t : Host D P R = record s { system = record s.system { apic = apic' } } in
      let (pointer, d1) = read32 P x.pci 0x34 t.system.ports in
      let first = pointer % 256 in
      let (capability, d2) = read32 P x.pci first d1 in
      let finish : Host D P R → Option (Option Interrupter × Host D P R) = λ u.
        Option.map (λ r. (some r.0, with_kernel r.1 u))
          (create_event_ring fuel index irq u.system.kernel) in
      Option.bind (find_msix P fuel x.pci x.mmio first capability d2) (λ r.
        let u = with_ports r.1 t in
        if r.0 == 0
        then some (none, u)
        else finish
            (record u { regs = set_msix_entry (r.0 + sizeof_msix_entry * index) irq u.regs }))

  -- `XhciInterrupterCreate`; the inner `none` is the null pointer.
  unfoldable pub interrupter_create :
      ℕ → XhciDevice → ℕ → ℕ → Host D P R → Option (Option Interrupter × Host D P R)
  unfolding find_interrupter connect
  interrupter_create fuel x handler arg s =
      let k = s.system.kernel in
      let found = find_interrupter x.interrupter_bitmap x.interrupter_bitmap_size 0 k.mem in
      elim found [
        | none ↦ some (none, s)
        | some index ↦
            let marked = interrupter_bitmap_set x.interrupter_bitmap index k.mem in
            let t = with_kernel (record k { mem = marked }) s in
            let (irq, apic) = allocate_software_irq D t.system.apic in
            let u : Host D P R = record t { system = record t.system { apic = apic } } in
            elim irq [ negsuc n ↦ some (none, u) | pos n ↦ connect fuel x index n handler arg u ]
      ]
