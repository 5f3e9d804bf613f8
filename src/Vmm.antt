-- ===== src/Vmm.antt =====
-- kernel/mem/vmm.c: page tables of four levels, 512 entries of eight bytes each. Physical memory is
-- mapped one to one, as the boot loader leaves it, so a table is read at its physical address.
pub mod Entry
pub mod Map
pub mod Other
pub mod Permissions
mod Tests
use gewodsys.Base.{
  ℕ, ◌+◌, ◌-◌, ◌*◌, ◌/◌, ◌%◌, ◌^◌, bit_and, bit_or, Option, some, map, ◌==◌, if◌then◌else◌, field,
  with_field,
}
use mathlib.Core.Option
use gewodsys.Rt.{Mem, load, store, zero_memory}
use gewodsys.Pmm.{Pmm, request_page}

-- The bit fields of `PageDirectoryEntry` and `PageTableEntry` that the code reads or writes.
abbrev pub present : ℕ → ℕ
present w = field 0 1 w

abbrev pub writeable : ℕ → ℕ
writeable w = field 1 1 w

abbrev pub user_access : ℕ → ℕ
user_access w = field 2 1 w

abbrev pub cache_disabled : ℕ → ℕ
cache_disabled w = field 4 1 w

abbrev pub page_ppn : ℕ → ℕ
page_ppn w = field 12 28 w

abbrev pub execution_disabled : ℕ → ℕ
execution_disabled w = field 63 1 w

pub record PageMapIndex : Type 0 where
  pub pdp : ℕ
  pub pd : ℕ
  pub pt : ℕ
  pub p : ℕ

unfoldable pub get_page_indices : ℕ → PageMapIndex
get_page_indices address =
    let a = address / 2 ^ 12 in
    let b = a / 2 ^ 9 in
    let c = b / 2 ^ 9 in
    let d = c / 2 ^ 9 in record { p = a % 512; pt = b % 512; pd = c % 512; pdp = d % 512 }

-- Memory, the page allocator, `kPML4`, and the warnings printed.
pub record Machine : Type 0 where
  pub mem : Mem
  pub pmm : Pmm
  pub pml4 : ℕ
  pub warnings : ℕ

-- `MmInitializePaging` takes the table of the boot loader from CR3 and puts it back.
unfoldable pub initialize_paging : ℕ → Machine → ℕ × Machine
initialize_paging cr3 s = (cr3, record s { pml4 = cr3 })

abbrev pub entry_at : ℕ → ℕ → ℕ
entry_at table index = table + 8 * index

-- An entry that points at the frame of `address` and is present and writeable.
unfoldable pub pointing : ℕ → ℕ → ℕ
pointing address pde = with_field 1 1 1 (with_field 0 1 1 (with_field 12 28 (address / 2 ^ 12) pde))

-- One level of `MmMapMemory`: the table that the entry points at, made anew if it is not present.
unfoldable pub next_table : ℕ → ℕ → ℕ → Machine → Option (ℕ × Machine)
unfolding pointing
next_table fuel table index s =
    let pde = load 8 (entry_at table index) s.mem in
    if present pde == 0
    then Option.map
        (λ r. (
          r.0,
          record s {
            mem = store 8 (entry_at table index) (pointing r.0 pde) (zero_memory r.0 4096 s.mem);
            pmm = r.1;
          },
        ))
        (request_page fuel s.pmm)
    else some (page_ppn pde * 2 ^ 12, s)

-- The last level writes the page's frame.
unfoldable pub map_page : ℕ → ℕ → ℕ → Machine → Machine
unfolding pointing
map_page table index physical s = record s {
  mem =
      store 8 (entry_at table index) (pointing physical (load 8 (entry_at table index) s.mem))
        s.mem;
}

abbrev pub page_start : ℕ → ℕ
page_start address = address / 4096 * 4096

unfoldable pub warn_unaligned : ℕ → Machine → Machine
warn_unaligned address s = if address % 4096 == 0 then s else record s { warnings = s.warnings + 1 }

-- The walk of `MmMapMemory` over the page-aligned addresses.
unfoldable pub map_aligned : ℕ → ℕ → ℕ → Machine → Option Machine
map_aligned fuel virtual physical s =
    let i = get_page_indices virtual in
    Option.bind (next_table fuel s.pml4 i.pdp s) λ r0.
      Option.bind (next_table fuel r0.0 i.pd r0.1)
        λ r1. Option.map (λ r2. map_page r2.0 i.p physical r2.1) (next_table fuel r1.0 i.pt r1.1)

unfoldable pub map_memory : ℕ → ℕ → ℕ → Machine → Option Machine
map_memory fuel virtual physical s =
    map_aligned fuel (page_start virtual) (page_start physical)
      (warn_unaligned physical (warn_unaligned virtual s))

-- The table that an entry points at, present or not.
abbrev pub below : ℕ → ℕ → Mem → ℕ
below table index m = page_ppn (load 8 (entry_at table index) m) * 2 ^ 12

-- Where the entry of an address in the last table lies.
unfoldable pub leaf_at : ℕ → Machine → ℕ
leaf_at virtual s =
    let i = get_page_indices virtual in
    entry_at (below (below (below s.pml4 i.pdp s.mem) i.pd s.mem) i.pt s.mem) i.p

unfoldable pub get_physical_address : ℕ → Machine → ℕ
get_physical_address virtual s =
    bit_or (page_ppn (load 8 (leaf_at virtual s) s.mem) * 2 ^ 12) (virtual % 4096)

unfoldable pub get_identity_page : ℕ → Machine → Option (ℕ × Machine)
get_identity_page fuel s =
    Option.bind (request_page fuel s.pmm)
      λ r. Option.map (λ s'. (r.0, s')) (map_memory fuel r.0 r.0 (record s { pmm = r.1 }))

unfoldable pub set_page_permissions : ℕ → ℕ → Machine → Machine
set_page_permissions address permissions s =
    let at = leaf_at address s in
    record s {
      mem =
          store 8 at
            (with_field 4 1 (bit_and permissions 8 / 2 ^ 3) (
              with_field 63 1 (bit_and permissions 4 / 2 ^ 2) (
                with_field 2 1 (bit_and permissions 2 / 2)
                  (with_field 1 1 (bit_and permissions 1) (load 8 at s.mem)))))
            s.mem;
    }

unfoldable pub permissions_of : ℕ → ℕ
permissions_of pte =
    bit_or (bit_or (bit_or (writeable pte) (user_access pte * 2)) (execution_disabled pte * 2 ^ 2))
      (cache_disabled pte * 2 ^ 3)

unfoldable pub get_page_permissions : ℕ → Machine → ℕ
get_page_permissions address s = permissions_of (load 8 (leaf_at address s) s.mem)

-- `field` is a `uint8_t`.
unfoldable pub page_set : ℕ → ℕ → Machine → Machine
page_set address bits s =
    set_page_permissions address (bit_or (get_page_permissions address s) bits) s

unfoldable pub page_clear : ℕ → ℕ → Machine → Machine
page_clear address bits s =
    set_page_permissions address (bit_and (get_page_permissions address s) (255 - bits)) s
