-- ===== src/Acpi/Tests.antt =====
-- The searches at a root table with two pointers, to a MADT at 0x200 and to a FADT at 0x300.
use gewodsys.Base.{ℕ, ◌≡◌, refl, none, some, ◌==◌, if◌then◌else◌}
use gewodsys.Rt.{Mem, load, store, store8}
use gewodsys.Acpi.{
  madt_id, fadt_id, dsdt_id, xsdt_address, rounds, x_dsdt, tables, scan, find_tables, scan_loop,
  dsdt_loop,
}
use gewodsys.Acpi.Scan.{matching, nth, found_or, LastOf, scan-nth, tables-LastOf}

abbrev firmware : Mem
firmware = store 8 24 0x100 (
    store 4 0x104 52 (
      store 8 0x124 0x200 (
        store 8 0x12C 0x300
          (store 4 0x200 madt_id (store 4 0x300 fadt_id (store 8 0x38C 0x400 (λ _. 0)))))))

found_madt : scan 0 madt_id 0 firmware ≡ 0x200
unfolding scan rounds scan_loop load store store8
found_madt = refl

found_dsdt : scan 0 dsdt_id 0 firmware ≡ 0x400
unfolding scan rounds scan_loop dsdt_loop load store store8
found_dsdt = refl

kept : tables 0 firmware ≡ record { madt = 0x200; fadt = 0x300; hpet = 0; mcfg = 0 }
unfolding tables rounds find_tables load store store8
kept = refl

scan-nth_example :
    let xsdt = xsdt_address 0 firmware in
    let n = rounds xsdt firmware in
    scan 0 fadt_id 0 firmware
    ≡ found_or
        (if fadt_id == dsdt_id
          then elim (nth (matching firmware xsdt fadt_id n 0) 0) as (λ _. ℕ) [
            | some fadt ↦ x_dsdt fadt firmware
            | none ↦ 0
          ]
          else 0)
        (nth (matching firmware xsdt fadt_id n 0) 0)
scan-nth_example = scan-nth 0 fadt_id 0 firmware

tables-LastOf_example :
    let xsdt = xsdt_address 0 firmware in
    LastOf firmware xsdt
      (rounds xsdt firmware)
      0
      (record { madt = 0; fadt = 0; hpet = 0; mcfg = 0 })
      (tables 0 firmware)
tables-LastOf_example = tables-LastOf 0 firmware
