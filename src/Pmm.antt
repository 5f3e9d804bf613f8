-- ===== src/Pmm.antt =====
-- kernel/mem/pmm.c: the allocator of physical pages. Its bitmap has a bit for each page from
-- `first_available_page_addr` on; a page is named by its index there.
pub mod Account
pub mod Init
pub mod Pages
pub mod Request
pub mod Largest
mod Tests
use gewodsys.Base.{
  ℕ, zero, suc, ◌+◌, ◌-◌, ◌*◌, ◌/◌, ◌%◌, ◌==◌, ltb, leb, if◌then◌else◌, Bool, true, false, not,
  ◌||◌, Option, none, some, List, [], ◌∷◌, word64,
}
use mathlib.Core.Option
use gewodsys.Bitmap.{Bitmap, set_bit, clear_bit, get_bit}

abbrev pub page_size : ℕ
page_size = 0x1000

-- `MemoryStatistics`, with what its pointer `bitfield` points at, the static variable
-- `last_requested`, and the number of warnings printed.
pub record Pmm : Type 0 where
  pub total_available_pages : ℕ
  pub first_available_page_addr : ℕ
  pub last_available_page_address : ℕ
  pub total_memory : ℕ
  pub total_pages : ℕ
  pub bitfield : ℕ
  pub free_memory : ℕ
  pub locked_memory : ℕ
  pub reserved_memory : ℕ
  pub bits : Bitmap
  pub last_requested : ℕ
  pub warnings : ℕ

abbrev pub add64 : ℕ → ℕ → ℕ
add64 a b = (a + b) % word64

abbrev pub sub64 : ℕ → ℕ → ℕ
sub64 a b = (a + word64 - b) % word64

abbrev pub addr_to_page : ℕ → ℕ
addr_to_page address = address / page_size

unfoldable pub reserve_page : ℕ → Pmm → Pmm
reserve_page address s = record s {
  bits = set_bit (addr_to_page address) s.bits;
  free_memory = sub64 s.free_memory page_size;
  reserved_memory = add64 s.reserved_memory page_size;
}

unfoldable pub unreserve_page : ℕ → Pmm → Pmm
unreserve_page address s = record s {
  bits = clear_bit (addr_to_page address) s.bits;
  free_memory = add64 s.free_memory page_size;
  reserved_memory = sub64 s.reserved_memory page_size;
}

unfoldable pub lock_page : ℕ → Pmm → Pmm
lock_page address s = record s {
  bits = set_bit (addr_to_page address) s.bits;
  free_memory = sub64 s.free_memory page_size;
  locked_memory = add64 s.locked_memory page_size;
}

unfoldable pub unlock_page : ℕ → Pmm → Pmm
unlock_page address s = record s {
  bits = clear_bit (addr_to_page address) s.bits;
  free_memory = add64 s.free_memory page_size;
  locked_memory = sub64 s.locked_memory page_size;
}

-- `for (i = 0; i < pages; i++) step(address + (i << 12))`, with the rounds left
unfoldable pub each_page : (ℕ → Pmm → Pmm) → ℕ → ℕ → ℕ → Pmm → Pmm
each_page step zero i address s = s
each_page step (suc n) i address s =
    each_page step n (i + 1) address (step (add64 address (i * page_size % word64)) s)

unfoldable pub reserve_pages : ℕ → ℕ → Pmm → Pmm
unfolding each_page reserve_page
reserve_pages address pages s = each_page reserve_page pages 0 address s

unfoldable pub unreserve_pages : ℕ → ℕ → Pmm → Pmm
unfolding each_page unreserve_page
unreserve_pages address pages s = each_page unreserve_page pages 0 address s

unfoldable pub lock_pages : ℕ → ℕ → Pmm → Pmm
unfolding each_page lock_page
lock_pages address pages s = each_page lock_page pages 0 address s

unfoldable pub unlock_pages : ℕ → ℕ → Pmm → Pmm
unfolding each_page unlock_page
unlock_pages address pages s = each_page unlock_page pages 0 address s

-- The search of `MmRequestPage` from index `last` on, with the warnings so far; `none` when the fuel
-- runs out. A full bitmap makes the loop run for ever.
unfoldable pub search_page : ℕ → Bitmap → ℕ → ℕ → ℕ → ℕ → Option (ℕ × ℕ)
search_page zero bits total first last warned = none
search_page (suc fuel) bits total first last warned =
    let from = if leb total last then 0 else last in
    let rest =
      search_page fuel bits total first (add64 from 1)
        (if from == first then warned + 1 else warned) in
    if get_bit last bits == 1 then rest else some (last, warned)

-- `MmRequestPage` returns the page's address.
unfoldable pub request_page : ℕ → Pmm → Option (ℕ × Pmm)
unfolding search_page lock_page
request_page fuel s =
    Option.map
      (λ r. (
        add64 s.first_available_page_addr (r.0 * page_size % word64),
        lock_page (r.0 * page_size % word64) (record s { last_requested = r.0; warnings = r.1 }),
      ))
      (search_page fuel s.bits s.total_available_pages (sub64 s.last_requested 1) s.last_requested
        s.warnings)

unfoldable pub free_page : ℕ → Pmm → Pmm
unfolding unlock_page
free_page address s = unlock_page (sub64 address s.first_available_page_addr) s

-- `struct limine_memmap_entry` of the boot loader
pub record MemmapEntry : Type 0 where
  pub base : ℕ
  pub size : ℕ
  pub kind : ℕ

-- `ALIGN_ADDR`
unfoldable pub align_addr : ℕ → ℕ
align_addr x = if x % page_size == 0 then x else add64 x page_size / page_size * page_size

-- What the loop over the memory map keeps: all memory, usable memory and the largest usable entry.
pub record Survey : Type 0 where
  pub total_memory : ℕ
  pub usable_memory : ℕ
  pub largest : Option MemmapEntry

unfoldable pub larger : MemmapEntry → Option MemmapEntry → Option MemmapEntry
larger e none = some e
larger e (some l) = if ltb l.size e.size then some e else some l

-- `usable` is the boot loader's constant `LIMINE_MEMMAP_USABLE`.
unfoldable pub survey : ℕ → List MemmapEntry → Survey → Survey
unfolding larger
survey usable [] v = v
survey usable (e ∷ es) v = survey usable es (
    if e.kind == usable
    then record {
      total_memory = add64 v.total_memory e.size;
      usable_memory = add64 v.usable_memory e.size;
      largest = larger e v.largest;
    }
    else record v { total_memory = add64 v.total_memory e.size })

abbrev pub sizeof_statistics : ℕ
sizeof_statistics = 72

unfoldable pub bitfield_entries : ℕ → ℕ
bitfield_entries pages = if pages % 8 == 0 then pages / 8 else pages / 8 + 1

-- The bytes that `MmInitialize` counts for its own data, and the pages that it reserves for them.
unfoldable pub overhead : ℕ → ℕ
unfolding bitfield_entries
overhead pages = bitfield_entries pages + sizeof_statistics + 3 * page_size

abbrev pub aligned : ℕ → Bool
aligned x = x % page_size == 0

unfoldable pub warn_if : Bool → Pmm → Pmm
warn_if true s = record s { warnings = s.warnings + 1 }
warn_if false s = s

-- The statistics as `MmInitialize` fills them in for the largest usable entry. `memory` is what
-- lies where the bitmap is put; its bytes for the pages of the entry are zeroed.
unfoldable pub fresh : MemmapEntry → ℕ → Bitmap → Pmm
unfolding align_addr bitfield_entries
fresh largest total_memory memory =
    let first = align_addr largest.base in
    let last = align_addr (add64 largest.base largest.size) in
    let pages = sub64 last first / page_size in
    record {
      total_available_pages = pages;
      first_available_page_addr = first;
      last_available_page_address = last;
      total_memory = total_memory;
      total_pages = total_memory / page_size;
      bitfield = align_addr (add64 first sizeof_statistics);
      free_memory = sub64 last first;
      locked_memory = 0;
      reserved_memory = 0;
      bits = λ k. if ltb k (bitfield_entries pages) then 0 else memory k;
      last_requested = 0;
      warnings = 0;
    }

-- The two warnings, and the reservation of the allocator's own pages.
unfoldable pub reserve_own : ℕ → Pmm → Pmm
unfolding overhead reserve_pages warn_if
reserve_own length s = reserve_pages 0 (overhead s.total_available_pages / page_size) (
    warn_if (not (aligned s.first_available_page_addr) || not (aligned s.bitfield))
      (warn_if (ltb length (overhead s.total_available_pages)) s))

unfoldable pub initialize_at : MemmapEntry → ℕ → Bitmap → Pmm
unfolding fresh reserve_own
initialize_at largest total_memory memory =
    reserve_own largest.size (fresh largest total_memory memory)

-- With no usable entry the code reads through a null pointer: `none`.
unfoldable pub initialize : ℕ → List MemmapEntry → Bitmap → Option Pmm
unfolding survey initialize_at
initialize usable entries memory =
    let v =
      survey usable entries (record { total_memory = 0; usable_memory = 0; largest = none }) in
    Option.map (λ e. initialize_at e v.total_memory memory) v.largest
