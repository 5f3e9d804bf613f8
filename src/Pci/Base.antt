-- ===== src/Pci/Base.antt =====
-- The base address that kernel/dev/usb/xhci.c and kernel/dev/gpu/cherrytrail.c read from a pair of
-- registers.
use gewodsys.Base.{ℕ, ◌+◌, ◌*◌, ◌/◌, ◌^◌, bit_and, bit_or, ◌==◌, if◌then◌else◌}
use gewodsys.Ports.{Ports}
use gewodsys.Pci.{PciDevice, read32, bar_64}

module _ (P : Ports) where
  open P use {Dev}

  -- The second register is read where the first says that the address has 64 bits.
  unfoldable pub bar_address : PciDevice → ℕ → Dev → ℕ × Dev
  unfolding read32
  bar_address p offset d =
      let (low, d1) = read32 P p offset d in
      let (high, d2) = read32 P p (offset + 4) d1 in
      if bit_and low bar_64 == 0
      then (low / 16 * 16, d1)
      else (bit_or low (high * 2 ^ 32) / 16 * 16, d2)
