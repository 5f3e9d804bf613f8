-- ===== src/System/Tests.antt =====
-- The walk of the table at an I/O APIC with two entries.
use gewodsys.Base.{ℕ, ◌+◌, ◌*◌, ◌^◌, ◌≤◌, ◌<◌, ◌≡◌, ◌⊎◌, refl, arith, with_field}
use gewodsys.Apic.{read64, write64}
use gewodsys.Apic.Chip.{Chip, chip}
use gewodsys.Apic.Routing.{entry}
use gewodsys.System.Madt.{mask_entries}
use gewodsys.System.Masking.{mask_entries-entry}

abbrev open_chip : Chip
open_chip = record { select = λ _. 0; registers = λ _ j. j }

masked : entry chip 64 0x12 (mask_entries chip 2 0 64 open_chip) ≡ 0x13 * 2 ^ 32 + 0x10012
unfolding mask_entries read64 write64
masked = refl

mask_entries-entry_example :
    ((k : ℕ)
      → k < 2
      → entry chip 64 (0x10 + 2 * k) (mask_entries chip 2 0 64 open_chip)
        ≡ with_field 16 1 1 (entry chip 64 (0x10 + 2 * k) open_chip))
    × ((j : ℕ)
        → (j < 0x10) ⊎ (0x10 + 2 * 2 ≤ j)
        → chip.reg 64 j (mask_entries chip 2 0 64 open_chip) ≡ chip.reg 64 j open_chip)
mask_entries-entry_example = mask_entries-entry chip 2 64 open_chip (omega arith)
