-- ===== src/Pci.antt =====
-- kernel/dev/pci.c: the configuration space of PCI devices, the enumeration of the devices and the
-- choice of their drivers.
pub mod Address
pub mod Config
pub mod Bars
pub mod Base
pub mod Enumerate
pub mod Command
pub mod Identity
pub mod Write
mod Tests
use mathlib.Core.Option
use gewodsys.Base.{
  ℕ, zero, suc, ◌+◌, ◌-◌, ◌*◌, ◌/◌, ◌%◌, ◌^◌, bit_and, bit_or, Bool, Option, none, some, List, [],
  ◌∷◌, ◌==◌, if◌then◌else◌,
}
use gewodsys.Ports.{Ports}

pub record PciBar : Type 0 where
  pub base : ℕ
  pub size : ℕ
  pub flags : ℕ
  pub kind : ℕ

-- `PciDevice`; nothing writes its `bars`.
pub record PciDevice : Type 0 where
  pub bus : ℕ
  pub device : ℕ
  pub function : ℕ
  pub vendor_id : ℕ
  pub device_id : ℕ
  pub class_code : ℕ
  pub subclass_code : ℕ
  pub interface_code : ℕ

abbrev pub located : ℕ → ℕ → ℕ → PciDevice
located bus device function = record {
  bus = bus;
  device = device;
  function = function;
  vendor_id = 0;
  device_id = 0;
  class_code = 0;
  subclass_code = 0;
  interface_code = 0;
}

-- The word that the address register takes.
unfoldable pub config_address : PciDevice → ℕ → ℕ
config_address p offset =
    bit_or
      (bit_or (bit_or (bit_or (1 * 2 ^ 31) (p.bus * 2 ^ 16)) (p.device * 2 ^ 11))
        (p.function * 2 ^ 8))
      (bit_and offset 0xFC)

abbrev pub bar_64 : ℕ
bar_64 = 4

abbrev pub bar_io : ℕ
bar_io = 1

module _ (P : Ports) where
  open P use {Dev, out8, out16, out32, in8, in32}

  unfoldable pub read8 : PciDevice → ℕ → Dev → ℕ × Dev
  unfolding config_address
  read8 p offset d = in8 (0xCFC + bit_and offset 3) (out32 0xCF8 (config_address p offset) d)

  unfoldable pub read16 : PciDevice → ℕ → Dev → ℕ × Dev
  unfolding config_address
  read16 p offset d =
      let (value, d') = in32 0xCFC (out32 0xCF8 (config_address p offset) d) in
      (bit_and (value / 2 ^ (bit_and offset 2 * 8)) 0xFFFF, d')

  -- `offset + 2` is a `uint8_t`.
  unfoldable pub read32 : PciDevice → ℕ → Dev → ℕ × Dev
  unfolding read16
  read32 p offset d =
      let (low, d1) = read16 p offset d in
      let (high, d2) = read16 p ((offset + 2) % 256) d1 in (bit_or (high * 2 ^ 16) low, d2)

  unfoldable pub write8 : PciDevice → ℕ → ℕ → Dev → Dev
  unfolding config_address
  write8 p offset value d =
      out8 (0xCFC + bit_and offset 3) value (out32 0xCF8 (config_address p offset) d)

  unfoldable pub write16 : PciDevice → ℕ → ℕ → Dev → Dev
  unfolding config_address
  write16 p offset value d =
      out16 (0xCFC + bit_and offset 2) value (out32 0xCF8 (config_address p offset) d)

  unfoldable pub write32 : PciDevice → ℕ → ℕ → Dev → Dev
  unfolding write16
  write32 p offset value d =
      write16 p ((offset + 2) % 256) (value / 2 ^ 16 % 2 ^ 16) (write16 p offset (value % 2 ^ 16) d)

  -- `PciReadBar`. A `uint32_t` is shifted by 32 for a register of 64 bits, which the language leaves
  -- undefined: `none`.
  unfoldable pub read_bar : PciDevice → ℕ → PciBar → Dev → Option (PciBar × Dev)
  unfolding read32
  read_bar p bar out d =
      let (value, d') = read32 p ((0x10 + bar * 4) % 256) d in
      if bit_and value bar_64 == 0
      then if bit_and value bar_io == 0
        then some (out, d')
        else some (record out { base = value / 4 * 4; kind = 1; size = 0 }, d')
      else none

  -- What `PciMaybeEnableBusMastering` and `PciMaybeEnableMemoryAccess` share, for their bit of the
  -- command register.
  unfoldable pub maybe_enable : ℕ → PciDevice → Dev → Dev
  maybe_enable bit p d =
      let (command, d') = read16 p 4 d in
      if bit_and command (2 ^ bit) == 0 then write16 p 4 (bit_or command (2 ^ bit)) d' else d'

  unfoldable pub maybe_enable_bus_mastering : PciDevice → Dev → Dev
  maybe_enable_bus_mastering p d = maybe_enable 2 p d

  unfoldable pub maybe_enable_memory_access : PciDevice → Dev → Dev
  maybe_enable_memory_access p d = maybe_enable 1 p d

  -- What the enumeration keeps: the ports, the table `kLoadedPciDrivers` with the device and the
  -- driver at each index, its count, and whatever else the drivers change.
  module _ (Rest : Type 0) where
    pub record Bus : Type 0 where
      pub dev : Dev
      pub loaded : ℕ → Option (PciDevice × ℕ)
      pub count : ℕ
      pub rest : Rest

    -- A driver is named by its index in `kPciDrivers`.
    pub record PciDriver : Type 0 where
      pub name : ℕ
      pub try_probe : PciDevice → Bool
      pub initialize : PciDevice → Bus → Bus

    -- The reads that identify a device that is there.
    unfoldable pub identify : PciDevice → Bus → PciDevice × Bus
    unfolding read16
    identify p s =
        let (device_id, d1) = read16 p 2 s.dev in
        let (class, d2) = read16 p 10 d1 in
        (
          record p {
            device_id = device_id;
            class_code = class / 2 ^ 8;
            subclass_code = bit_and (class / 2 ^ 4) 0xF;
            interface_code = bit_and class 0xF;
          },
          record s { dev = d2 },
        )

    -- The count is a `uint8_t`.
    unfoldable pub load_driver : PciDriver → PciDevice → Bus → Bus
    load_driver driver p s = driver.initialize p (record s {
      loaded = λ i. if i == s.count then some (p, driver.name) else s.loaded i;
      count = (s.count + 1) % 256;
    })

    -- The loop over the drivers, up to the first that takes the device.
    unfoldable pub choose_driver : List PciDriver → PciDevice → Bus → Bus
    unfolding load_driver
    choose_driver [] p s = s
    choose_driver (driver ∷ drivers) p s =
        if driver.try_probe p then load_driver driver p s else choose_driver drivers p s

    -- One round of the innermost loop.
    unfoldable pub visit : List PciDriver → ℕ → ℕ → ℕ → Bus → Bus
    unfolding read16 identify choose_driver
    visit drivers bus device function s =
        let (vendor_id, d) = read16 (located bus device function) 0 s.dev in
        if vendor_id == 0xFFFF
        then record s { dev = d }
        else let (p, s') =
            identify (record (located bus device function) { vendor_id = vendor_id })
              (record s { dev = d }) in
          choose_driver drivers p s'

    -- `for (i = first; ...; i++)`, with the rounds left
    unfoldable pub each : (ℕ → Bus → Bus) → ℕ → ℕ → Bus → Bus
    each step zero first s = s
    each step (suc n) first s = each step n (first + 1) (step first s)

    -- `PciInitialize`, from the bus `start` to the bus `end_`.
    unfoldable pub initialize : List PciDriver → ℕ → ℕ → Bus → Bus
    unfolding each visit
    initialize drivers start end_ s =
        each (λ bus. each (λ device. each (λ function. visit drivers bus device function) 8 0) 32 0)
          (end_ + 1 - start) start s
