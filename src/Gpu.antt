-- ===== src/Gpu.antt =====
-- kernel/dev/gpu/cherrytrail.c: the graphics device, whose registers are mapped.
use mathlib.Core.Option
use gewodsys.Base.{ℕ, Bool, ◌&&◌, Option, ◌==◌}
use gewodsys.Ports.{Ports}
use gewodsys.Pci.{PciDevice, read32}
use gewodsys.Pci.Base.{bar_address}
use gewodsys.Apic.Hardware.{Device}
use gewodsys.System.{System, map_identity}

-- `CherryTrailTryProbe`
unfoldable pub cherry_trail_try_probe : PciDevice → Bool
cherry_trail_try_probe p = p.vendor_id == 0x8086 && p.device_id == 0x22B0

-- `CherryTrailInitialize`. The third base address is only printed.
unfoldable pub cherry_trail_initialize :
    (D : Device) (P : Ports) → ℕ → PciDevice → System D P → Option (System D P)
unfolding bar_address map_identity
cherry_trail_initialize D P fuel p s =
    let (gttmmaddr, d1) = bar_address P p 0x10 s.ports in
    let (gmadr, d2) = bar_address P p 0x18 d1 in
    let (iobase, d3) = read32 P p 0x20 d2 in
    Option.bind (map_identity D P fuel gttmmaddr (record s { ports = d3 }))
      (map_identity D P fuel gmadr)
