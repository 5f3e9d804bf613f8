-- ===== src/Pci/Tests.antt =====
-- The theorems at a configuration space whose bytes are a function, all of them plain.
use gewodsys.Base.{
  ℕ, ◌+◌, ◌-◌, ◌*◌, ◌/◌, ◌%◌, ◌^◌, ◌<◌, ◌≡◌, inl, inr, refl, arith, true, ◌&&◌, ◌||◌, ◌==◌,
  if◌then◌else◌, Bool-cases, none, [], ◌∷◌,
}
use gewodsys.Ports.{Ports, HasConfig}
use gewodsys.Pci.{
  PciDevice, PciBar, located, config_address, read16, read32, write16, write32,
  maybe_enable_bus_mastering, maybe_enable_memory_access, Bus, PciDriver, initialize,
}
use gewodsys.Pci.Address.{IsPlace}
use gewodsys.Pci.Config.{config}
use gewodsys.Pci.Write.{Elsewhere, read32-write32}
use gewodsys.Pci.Enumerate.{device_at, accepted, entries_at}

-- The word in the address register, and the bytes behind the words.
record Space : Type 0 where
  address : ℕ
  bytes : ℕ → ℕ → ℕ

abbrev shown : ℕ → ℕ → Space → ℕ
shown a k d = d.bytes a k % 256

abbrev word : Space → ℕ
word d =
    shown d.address 0 d
    + 2 ^ 8 * shown d.address 1 d
    + 2 ^ 16 * shown d.address 2 d
    + 2 ^ 24 * shown d.address 3 d

abbrev set8 : ℕ → ℕ → Space → Space
set8 port v d = record d {
  bytes = λ b j. if b == d.address && j == port - 0xCFC && true then v else d.bytes b j;
}

abbrev set16 : ℕ → ℕ → Space → Space
set16 port v d = record d {
  bytes = λ b j.
      if b == d.address && (j == port - 0xCFC || j == port - 0xCFC + 1) && true
      then (if j == port - 0xCFC then v % 256 else v / 256)
      else d.bytes b j;
}

abbrev space : Ports
space = record {
  Dev = Space;
  out8 = set8;
  out16 = set16;
  out32 = λ port v d. record d { address = v };
  in8 = λ port d. (shown d.address (port - 0xCFC) d, d);
  in32 = λ port d. (word d, d);
}

module _ (a k v b j : ℕ) (d : Space) where
  at : 0xCFC + k - 0xCFC ≡ k
  at = omega arith

  set8-shown :
      v < 256
      → shown b j (set8 (0xCFC + k) v (record d { address = a }))
        ≡ (if b == a && j == k && true then v else shown b j d)
  set8-shown small =
      rw at
        (elim (Bool-cases (b == a && j == k && true)) [ inl e ↦ rw e (omega arith) | inr e ↦ rw e ])

  set16-shown :
      v < 2 ^ 16
      → shown b j (set16 (0xCFC + k) v (record d { address = a })) ≡ (
          if b == a && (j == k || j == k + 1) && true
          then (if j == k then v % 256 else v / 256)
          else shown b j d)
  set16-shown small = rw at (elim (Bool-cases (b == a && (j == k || j == k + 1) && true)) [
    | inl e ↦ rw e (ground arith)
    | inr e ↦ rw e
  ])

abbrev configured : HasConfig space
configured = record {
  byte = shown;
  plain = λ a k. true;
  byte-lt = λ a k d. omega arith;
  byte-select = λ a b j d. refl;
  in8-data = λ a k d small. rw (at a k 0 0 0 d);
  in8-keeps = λ a k b j d small. refl;
  in32-data = λ a d. refl;
  in32-keeps = λ a b j d. refl;
  out8-data = λ a k v b j d at small. set8-shown a k v b j d small;
  out16-data = λ a k v b j d at small. set16-shown a k v b j d small;
}

abbrev card : PciDevice
card = located 1 2 3

abbrev other : PciDevice
other = located 1 2 4

card-IsPlace : IsPlace card
card-IsPlace = record {
  bus_small = omega arith;
  device_small = omega arith;
  function_small = omega arith;
}

other-IsPlace : IsPlace other
other-IsPlace = record {
  bus_small = omega arith;
  device_small = omega arith;
  function_small = omega arith;
}

abbrev before : Space
before = record { address = 0; bytes = λ a k. k + 1 }

card_address : config_address card 0x11 ≡ 0x80011310
unfolding config_address
card_address = refl

written : (read32 space card 0x10 (write32 space card 0x10 0xCAFE1235 before)).0 ≡ 0xCAFE1235
unfolding config_address read16 read32 write16 write32
written = refl

read32-write32_example :
    ((read32 space card 0x10 (write32 space card 0x10 0xCAFE1235 before)).0 ≡ 0xCAFE1235)
    × ((q : PciDevice) (j : ℕ)
        → IsPlace q
        → j < 256
        → Elsewhere card 0x10 4 q j
        → config space configured q j (write32 space card 0x10 0xCAFE1235 before)
          ≡ config space configured q j before)
read32-write32_example =
    read32-write32 space configured card 0x10 0xCAFE1235 before card-IsPlace refl (omega arith)
      (omega arith) refl refl refl refl

abbrev no_bar : PciBar
no_bar = record { base = 0; size = 0; flags = 0; kind = 0 }

-- One driver, which takes the functions of a single device. As the controller's driver does, it sets the
-- bits of a function's command register for bus mastering and memory access; and it counts its starts.
abbrev counter : PciDriver space ℕ
counter = record {
  name = 7;
  try_probe = λ p. p.device == 2;
  initialize = λ p s. record s {
    dev = maybe_enable_memory_access space p (maybe_enable_bus_mastering space p s.dev);
    rest = s.rest + 1;
  };
}

abbrev machine : Bus space ℕ
machine = record { dev = before; loaded = λ i. none; count = 0; rest = 0 }

found :
    entries_at space configured ℕ (counter ∷ []) before 0 2 5
    ≡ (device_at space configured ℕ (located 0 2 5) before, 7) ∷ []
unfolding entries_at device_at accepted config_address
found = refl
