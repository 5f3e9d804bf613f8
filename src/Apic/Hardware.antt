-- ===== src/Apic/Hardware.antt =====
-- The registers of an I/O APIC, as its manual gives them. The device is no part of the kernel, so it
-- is a parameter: 32-bit writes and reads at an address, and the behaviour that the kernel relies on.
use gewodsys.Base.{ℕ, ◌+◌, ◌<◌, ◌≡◌, ◌==◌, if◌then◌else◌, word32}

pub record Device : Type 1 where
  pub Dev : Type 0
  pub put : ℕ → ℕ → Dev → Dev
  pub fetch : ℕ → Dev → ℕ
  -- The register at an index of the device at a base address.
  pub reg : ℕ → ℕ → Dev → ℕ
  pub reg-lt : (base i : ℕ) (d : Dev) → reg base i d < word32
  -- A write to the select register changes no register, and chooses what the window shows.
  pub reg-select : (base i j : ℕ) (d : Dev) → reg base j (put base i d) ≡ reg base j d
  pub fetch-window : (base i : ℕ) (d : Dev) → fetch (base + 0x10) (put base i d) ≡ reg base i d
  -- A write to the window changes the register that was chosen, and no other.
  pub reg-window :
      (base i j v : ℕ) (d : Dev)
      → v < word32
      → reg base j (put (base + 0x10) v (put base i d)) ≡ (if i == j then v else reg base j d)
