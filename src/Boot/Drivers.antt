-- ===== src/Boot/Drivers.antt =====
-- The drivers of `kPciDrivers` within the enumeration.
use mathlib.Core.Option
use gewodsys.Ports.{Ports, Mmio, HasConfig}
use gewodsys.Apic.Hardware.{Device}
use gewodsys.Pci.Enumerate.{SameIds}
use gewodsys.Pci.Identity.{HasFixedIds, SameIds-trans}
use gewodsys.System.{System}
use gewodsys.Boot.{Started}

module _ (D : Device) (P : Ports) (R : Mmio) (C : HasConfig P)
    (fixed : HasFixedIds P C (Started D P R)) where
  abbrev Same : P.Dev → P.Dev → Type 0
  Same = SameIds P C (Started D P R)

  abbrev trans : (d e f : P.Dev) → Same d e → Same e f → Same d f
  trans = SameIds-trans P C (Started D P R)
