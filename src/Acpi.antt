-- ===== src/Acpi.antt =====
-- kernel/cpu/acpi.c: the search of the root table, and the functions that the interpreter of
-- kernel/cpu/lai calls.
pub mod Host
pub mod Scan
mod Tests
use gewodsys.Base.{
  ℕ, zero, suc, ◌+◌, ◌-◌, ◌*◌, ◌/◌, ◌%◌, ◌^◌, Option, none, some, ltb, ◌==◌, if◌then◌else◌, word32,
}
use gewodsys.Rt.{Mem, load}
use gewodsys.Pmm.{sub64}

-- The tables that `AcpiInitialize` looks for; 0 where there is none.
pub record Tables : Type 0 where
  pub madt : ℕ
  pub fadt : ℕ
  pub hpet : ℕ
  pub mcfg : ℕ

abbrev pub madt_id : ℕ
madt_id = 0x43495041

abbrev pub fadt_id : ℕ
fadt_id = 0x50434146

abbrev pub hpet_id : ℕ
hpet_id = 0x54455048

abbrev pub mcfg_id : ℕ
mcfg_id = 0x4746434D

abbrev pub dsdt_id : ℕ
dsdt_id = 0x54445344

-- The fields of the packed structures, at their offsets.
abbrev pub xsdt_address : ℕ → Mem → ℕ
xsdt_address rsdp m = load 8 (rsdp + 24) m

abbrev pub signature : ℕ → Mem → ℕ
signature header m = load 4 header m

abbrev pub table_length : ℕ → Mem → ℕ
table_length header m = load 4 (header + 4) m

abbrev pub pointer : ℕ → ℕ → Mem → ℕ
pointer xsdt i m = load 8 (xsdt + 36 + 8 * i) m

abbrev pub x_dsdt : ℕ → Mem → ℕ
x_dsdt fadt m = load 8 (fadt + 140) m

-- The rounds of the loops over the pointers. Their bound is an `int`, and there is no round where it
-- is negative.
unfoldable pub rounds : ℕ → Mem → ℕ
rounds xsdt m =
    let length = sub64 (table_length xsdt m) 36 / 8 % word32 in
    if ltb length (2 ^ 31) then length else 0

-- The switch over the signature.
unfoldable pub keep_table : ℕ → ℕ → Tables → Tables
keep_table header id t =
    if id == madt_id
    then record t { madt = header }
    else if id == fadt_id
    then record t { fadt = header }
    else if id == hpet_id
    then record t { hpet = header }
    else if id == mcfg_id
    then record t { mcfg = header }
    else t

unfoldable pub find_tables : Mem → ℕ → ℕ → ℕ → Tables → Tables
unfolding keep_table
find_tables m xsdt zero i t = t
find_tables m xsdt (suc n) i t =
    let header = pointer xsdt i m in
    find_tables m xsdt n (i + 1) (keep_table header (signature header m) t)

-- The tables with which `AcpiInitialize` goes on.
unfoldable pub tables : ℕ → Mem → Tables
unfolding find_tables rounds
tables rsdp m =
    let xsdt = xsdt_address rsdp m in
    find_tables m xsdt (rounds xsdt m) 0 (record { madt = 0; fadt = 0; hpet = 0; mcfg = 0 })

-- The first loop of `laihost_scan`.
unfoldable pub scan_loop : Mem → ℕ → ℕ → ℕ → ℕ → ℕ → Option ℕ
scan_loop m xsdt id zero i index = none
scan_loop m xsdt id (suc n) i index =
    let header = pointer xsdt i m in
    let rest = λ (left : ℕ). scan_loop m xsdt id n (i + 1) left in
    if signature header m == id
    then (if index == 0 then some header else rest (index - 1))
    else rest index

-- Its second loop.
unfoldable pub dsdt_loop : Mem → ℕ → ℕ → ℕ → Option ℕ
dsdt_loop m xsdt zero i = none
dsdt_loop m xsdt (suc n) i =
    let header = pointer xsdt i m in
    let rest = dsdt_loop m xsdt n (i + 1) in
    if signature header m == fadt_id then some (x_dsdt header m) else rest

-- `laihost_scan`, of which `id` are the four bytes at `sig`.
unfoldable pub scan : ℕ → ℕ → ℕ → Mem → ℕ
unfolding scan_loop dsdt_loop rounds
scan rsdp id index m =
    let xsdt = xsdt_address rsdp m in
    let n = rounds xsdt m in
    elim (scan_loop m xsdt id n 0 index) [
      | some header ↦ header
      | none ↦
          if id == dsdt_id then elim (dsdt_loop m xsdt n 0) [ some dsdt ↦ dsdt | none ↦ 0 ] else 0
    ]
