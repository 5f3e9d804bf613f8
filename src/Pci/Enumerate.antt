-- ===== src/Pci/Enumerate.antt =====
-- What `PciInitialize` leaves in the table of loaded drivers.
use gewodsys.Base.{
  ℕ, zero, suc, ◌+◌, ◌*◌, ◌/◌, ◌%◌, ◌≤◌, ◌<◌, ◌≡◌, ◌⊎◌, ◌==◌, if◌then◌else◌, Option, some, List, [],
  ◌∷◌, ◌++◌,
}
use gewodsys.Ports.{Ports, HasConfig}
use gewodsys.Pci.{PciDevice, located, Bus, PciDriver, initialize}
use gewodsys.Pci.Address.{IsPlace}
use gewodsys.Pci.Config.{config}

-- A table of loaded drivers with its count.
abbrev pub Table : Type 0
Table = (ℕ → Option (PciDevice × ℕ)) × ℕ

-- A device and the name of its driver enter the table at the count, a `uint8_t`.
abbrev pub enter : PciDevice × ℕ → Table → Table
enter x t = (λ i. if i == t.1 then some x else t.0 i, (t.1 + 1) % 256)

pub enter_all : List (PciDevice × ℕ) → Table → Table
enter_all [] t = t
enter_all (x ∷ xs) t = enter_all xs (enter x t)

-- The entries of `n` rounds from `first` on, in order.
pub collect : (ℕ → List (PciDevice × ℕ)) → ℕ → ℕ → List (PciDevice × ℕ)
collect entries zero first = []
collect entries (suc n) first = entries first ++ collect entries n (first + 1)

-- The offsets of the vendor, the identity, the subclass and the class.
abbrev pub IsIdByte : ℕ → Type 0
IsIdByte j = (j < 4) ⊎ ((10 ≤ j) × (j < 12))

module _ (P : Ports) (C : HasConfig P) (Rest : Type 0) where
  open P use {Dev}
  open C use {byte, byte-lt}

  abbrev pub table : Bus P Rest → Table
  table s = (s.loaded, s.count)

  -- The function at a place, as its configuration space describes it.
  unfoldable pub device_at : PciDevice → Dev → PciDevice
  device_at p d = record p {
    vendor_id = config P C p 0 d + 256 * config P C p 1 d;
    device_id = config P C p 2 d + 256 * config P C p 3 d;
    class_code = config P C p 11 d;
    subclass_code = config P C p 10 d / 16;
    interface_code = config P C p 10 d % 16;
  }

  -- The first driver that takes a device.
  unfoldable pub accepted : List (PciDriver P Rest) → PciDevice → List (PciDevice × ℕ)
  accepted [] p = []
  accepted (driver ∷ drivers) p =
      if driver.try_probe p then (p, driver.name) ∷ [] else accepted drivers p

  -- What a place adds to the table: nothing where no function answers.
  unfoldable pub entries_at : List (PciDriver P Rest) → Dev → ℕ → ℕ → ℕ → List (PciDevice × ℕ)
  entries_at drivers d bus device function =
      let p = device_at (located bus device function) d in
      if p.vendor_id == 0xFFFF then [] else accepted drivers p

  -- The bytes of a function's vendor, identity, subclass and class are the same on both devices.
  abbrev pub SameIds : Dev → Dev → Type 0
  SameIds d d' =
      (p : PciDevice) (j : ℕ) → IsPlace p → IsIdByte j → config P C p j d' ≡ config P C p j d

  -- Starting the driver on a function changes neither the table nor the bytes that identify functions.
  abbrev pub IsQuiet : PciDriver P Rest → Type 0
  IsQuiet driver =
      (p : PciDevice) (s : Bus P Rest)
      → IsPlace p
      → SameIds s.dev (driver.initialize p s).dev × (table (driver.initialize p s) ≡ table s)

  abbrev pub AllQuiet : List (PciDriver P Rest) → Type 0
  AllQuiet [] = Unit
  AllQuiet (driver ∷ drivers) = IsQuiet driver × AllQuiet drivers

  -- A step that enters `entries`.
  abbrev Enters : Dev → List (PciDevice × ℕ) → Bus P Rest → Bus P Rest → Type 0
  Enters d entries s s' = SameIds d s'.dev × (table s' ≡ enter_all entries (table s))
