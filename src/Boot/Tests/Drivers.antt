-- ===== src/Boot/Tests/Drivers.antt =====
-- The enumeration on a machine with one controller, in whose configuration space the bytes that identify
-- functions are read-only and all others keep what is written to them.
use gewodsys.Base.{
  ℕ, ◌+◌, ◌-◌, ◌*◌, ◌/◌, ◌%◌, ◌^◌, ◌<◌, ◌≡◌, inl, inr, refl, arith, Bool, not, ◌&&◌, ◌||◌, ◌==◌,
  leb, if◌then◌else◌, Bool-cases, [], ◌∷◌,
}
use gewodsys.Ports.{Ports, Mmio, HasConfig}
use gewodsys.Pci.{located, config_address}
use gewodsys.Pci.Enumerate.{entries_at, device_at, accepted}
use gewodsys.Apic.Chip.{chip}
use gewodsys.Xhci.Start.{Host, xhci_try_probe}
use gewodsys.Boot.{Started, pci_drivers}
use gewodsys.Boot.Tests.{idle, system}

-- The word in the address register, and the bytes behind the words.
record Space : Type 0 where
  address : ℕ
  bytes : ℕ → ℕ → ℕ

abbrev shown : ℕ → ℕ → Space → ℕ
shown a k d = d.bytes a k % 256

abbrev writable : ℕ → ℕ → Bool
writable a k = not (a % 256 == 0 || a % 256 == 8 && leb 2 k)

abbrev word : Space → ℕ
word d =
    shown d.address 0 d
    + 2 ^ 8 * shown d.address 1 d
    + 2 ^ 16 * shown d.address 2 d
    + 2 ^ 24 * shown d.address 3 d

abbrev set8 : ℕ → ℕ → Space → Space
set8 port v d = record d {
  bytes = λ b j.
      if b == d.address && j == port - 0xCFC && writable d.address (port - 0xCFC)
      then v
      else d.bytes b j;
}

abbrev set16 : ℕ → ℕ → Space → Space
set16 port v d = record d {
  bytes = λ b j.
      if b == d.address && (j == port - 0xCFC || j == port - 0xCFC + 1) && writable d.address j
      then (if j == port - 0xCFC then v % 256 else v / 256)
      else d.bytes b j;
}

abbrev space : Ports
space = record {
  Dev = Space;
  out8 = set8;
  out16 = set16;
  out32 = λ port v d. record d { address = v };
  in8 = λ port d. (shown d.address (port - 0xCFC) d, d);
  in32 = λ port d. (word d, d);
}

module _ (a k v b j : ℕ) (d : Space) where
  at : 0xCFC + k - 0xCFC ≡ k
  at = omega arith

  set8-shown :
      v < 256
      → shown b j (set8 (0xCFC + k) v (record d { address = a }))
        ≡ (if b == a && j == k && writable a k then v else shown b j d)
  set8-shown small = rw at (elim (Bool-cases (b == a && j == k && writable a k)) [
    | inl e ↦ rw e (omega arith)
    | inr e ↦ rw e
  ])

  set16-shown :
      v < 2 ^ 16
      → shown b j (set16 (0xCFC + k) v (record d { address = a })) ≡ (
          if b == a && (j == k || j == k + 1) && writable a j
          then (if j == k then v % 256 else v / 256)
          else shown b j d)
  set16-shown small = rw at (elim (Bool-cases (b == a && (j == k || j == k + 1) && writable a j)) [
    | inl e ↦ rw e (ground arith)
    | inr e ↦ rw e
  ])

abbrev configured : HasConfig space
configured = record {
  byte = shown;
  plain = writable;
  byte-lt = λ a k d. omega arith;
  byte-select = λ a b j d. refl;
  in8-data = λ a k d small. rw (at a k 0 0 0 d);
  in8-keeps = λ a k b j d small. refl;
  in32-data = λ a d. refl;
  in32-keeps = λ a b j d. refl;
  out8-data = λ a k v b j d at small. set8-shown a k v b j d small;
  out16-data = λ a k v b j d at small. set16-shown a k v b j d small;
}

-- Registers that read as 0.
abbrev still : Mmio
still = record {
  Dev = ℕ;
  put32 = λ _ _ d. d;
  put64 = λ _ _ d. d;
  take8 = λ _ d. (0, d);
  take32 = λ _ d. (0, d);
}

-- A controller at device 3 of bus 0; no other function answers.
abbrev bus : Space
bus = record {
  address = 0;
  bytes = λ a k.
      if a == 0x80001800
      then (if k == 0 then 0x36 else if k == 1 then 0x1B else if k == 2 then 0x0D else 0)
      else 0xFF;
}

abbrev host : Host chip space still
host = record { system = record { apic = idle; ports = bus; kernel = system.kernel }; regs = 0 }

found :
    entries_at space configured
      (Started chip space still)
      (pci_drivers chip space still 0 0)
      bus
      0
      3
      0
    ≡ (device_at space configured (Started chip space still) (located 0 3 0) bus, 0) ∷ []
unfolding entries_at device_at accepted config_address pci_drivers xhci_try_probe
found = refl
