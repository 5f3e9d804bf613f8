-- ===== src/Pmm/Init.antt =====
-- What `MmInitialize` sets up.
use gewodsys.Base.{ℕ, ◌+◌, ◌-◌, ◌*◌, ◌%◌, ◌≤◌, ◌<◌, ◌≡◌, arith, word64}
use gewodsys.Bitmap.{Bitmap, get_bit}
use gewodsys.Pmm.{Pmm, MemmapEntry, align_addr, bitfield_entries, sizeof_statistics, page_size}

-- `ALIGN_ADDR` is the next multiple of the page size, where that is an address.
pub align_addr_lem :
    (x : ℕ)
    → x + page_size ≤ word64 - 1
    → (align_addr x % page_size ≡ 0) × (x ≤ align_addr x) × (align_addr x < x + page_size)
unfolding align_addr
align_addr_lem x fits = ground arith

-- What `MmInitialize` sets up over the usable entry `e`: the region begins at the first page boundary
-- from the entry's base on, and its first `own` pages are taken, which hold the statistics and the
-- bitmap; at most two of them lie behind the page in which the bitmap ends.
pub record Covered (e : MemmapEntry) (s : Pmm) : Type 0 where
  pub own : ℕ
  pub aligned_start : s.first_available_page_addr % page_size ≡ 0
  pub from_base : e.base ≤ s.first_available_page_addr
  pub first_boundary : s.first_available_page_addr < e.base + page_size
  pub ends :
      s.first_available_page_addr + s.total_available_pages * page_size
      < e.base + e.size + page_size
  pub after_statistics : s.first_available_page_addr + sizeof_statistics ≤ s.bitfield
  pub bitmap_covered :
      s.bitfield + bitfield_entries s.total_available_pages
      ≤ s.first_available_page_addr + own * page_size
  pub no_more :
      s.first_available_page_addr + own * page_size
      < s.bitfield + bitfield_entries s.total_available_pages + 3 * page_size
  pub own_taken : (page : ℕ) → page < own → get_bit page s.bits ≡ 1
  pub others_free :
      (page : ℕ) → own ≤ page → page < s.total_available_pages → get_bit page s.bits ≡ 0
