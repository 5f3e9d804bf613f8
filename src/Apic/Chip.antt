-- ===== src/Apic/Chip.antt =====
-- A device whose registers are a function, for the tests.
use gewodsys.Base.{ℕ, ◌+◌, ◌-◌, ◌%◌, ◌<◌, ◌≡◌, arith, if◌then◌else◌, ◌==◌, ◌&&◌, word32}
use gewodsys.Apic.Hardware.{Device}

-- The index that each base address has selected, and the registers behind each window.
pub record Chip : Type 0 where
  pub select : ℕ → ℕ
  pub registers : ℕ → ℕ → ℕ

abbrev write : ℕ → ℕ → Chip → Chip
write a v d = record {
  select = λ b. if b == a then v else d.select b;
  registers = λ b j. if b + 16 == a && d.select b == j then v else d.registers b j;
}

abbrev read : ℕ → Chip → ℕ
read a d = d.registers (a - 16) (d.select (a - 16)) % word32

module _ (base i : ℕ) (d : Chip) where
  pub chip-select :
      (j : ℕ) → (write base i d).registers base j % word32 ≡ d.registers base j % word32
  chip-select j = ground arith

  pub chip-shows : read (base + 16) (write base i d) ≡ d.registers base i % word32
  chip-shows = ground arith

  pub chip-window :
      (j v : ℕ)
      → v < word32
      → (write (base + 16) v (write base i d)).registers base j % word32
        ≡ (if i == j then v else d.registers base j % word32)
  chip-window j v small = ground arith

abbrev pub chip : Device
chip = record {
  Dev = Chip;
  put = write;
  fetch = read;
  reg = λ b j d. d.registers b j % word32;
  reg-lt = λ b j d. omega arith;
  reg-select = λ b i j d. chip-select b i d j;
  fetch-window = chip-shows;
  reg-window = λ b i j v d small. chip-window b i d j v small;
}
