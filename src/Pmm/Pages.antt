-- ===== src/Pmm/Pages.antt =====
-- The pages that an operation on a run of pages marks.
use gewodsys.Base.{
  ℕ, zero, suc, ◌+◌, ◌*◌, ◌%◌, ◌<◌, ◌≡◌, refl, ◌∙◌, arith, leb, ltb, Bool, ◌&&◌, ◌==◌,
  if◌then◌else◌, word64,
}
use gewodsys.Bitmap.{Bitmap, set_bit, clear_bit, get_bit}
use gewodsys.Bitmap.Laws.{get_bit-set_bit, get_bit-clear_bit}
use gewodsys.Pmm.{
  Pmm, reserve_page, unreserve_page, lock_page, unlock_page, each_page, reserve_pages,
  unreserve_pages, lock_pages, unlock_pages, add64, page_size, addr_to_page,
}

module _ (step : ℕ → Pmm → Pmm) (mark : ℕ → Bitmap → Bitmap) (b : ℕ)
    (steps : (a : ℕ) (s : Pmm) → (step a s).bits ≡ mark (addr_to_page a) s.bits)
    (marks : (x y : ℕ) (bits : Bitmap)
      → get_bit y (mark x bits) ≡ (if x == y then b else get_bit y bits)) where
  each_page-get_bit :
      (n i address page : ℕ) (s : Pmm)
      → address + (i + n) * page_size < word64
      → get_bit page (each_page step n i address s).bits ≡ (
          if leb (addr_to_page address + i) page && ltb page (addr_to_page address + i + n)
          then b
          else get_bit page s.bits)
  unfolding each_page
  each_page-get_bit zero i address page s fits = ground arith
  each_page-get_bit (suc n) i address page s fits =
      let at : ℕ = add64 address (i * page_size % word64) in
      let e : addr_to_page at ≡ addr_to_page address + i = omega arith in
      each_page-get_bit n (i + 1) address page (step at s) (omega arith)
      ∙ rw (steps at s, marks (addr_to_page at) page s.bits, e) (ground arith)

abbrev pub in_run : ℕ → ℕ → ℕ → Bool
in_run address pages page =
    leb (addr_to_page address) page && ltb page (addr_to_page address + pages)

-- Over a run of pages that does not pass the end of the address space, `MmReservePages` and
-- `MmLockPages` set the bit of each page of the run, `MmUnreservePages` and `MmUnlockPages` clear it,
-- and no other bit changes.
pub run_ops-get_bit :
    (address pages page : ℕ) (s : Pmm)
    → address + pages * page_size < word64
    → (get_bit page (reserve_pages address pages s).bits
        ≡ (if in_run address pages page then 1 else get_bit page s.bits))
      × (get_bit page (lock_pages address pages s).bits
          ≡ (if in_run address pages page then 1 else get_bit page s.bits))
      × (get_bit page (unreserve_pages address pages s).bits
          ≡ (if in_run address pages page then 0 else get_bit page s.bits))
      × (get_bit page (unlock_pages address pages s).bits
          ≡ (if in_run address pages page then 0 else get_bit page s.bits))
unfolding reserve_pages lock_pages unreserve_pages unlock_pages
run_ops-get_bit address pages page s fits =
    let z : addr_to_page address + 0 ≡ addr_to_page address = omega arith in
    let fits' : address + (0 + pages) * page_size < word64 = omega arith in
    rw (← z) (
      each_page-get_bit reserve_page set_bit 1 (λ a t. refl) get_bit-set_bit pages 0 address page s
          fits',
      each_page-get_bit lock_page set_bit 1 (λ a t. refl) get_bit-set_bit pages 0 address page s
          fits',
      each_page-get_bit unreserve_page clear_bit 0 (λ a t. refl) get_bit-clear_bit pages 0 address
          page s fits',
      each_page-get_bit unlock_page clear_bit 0 (λ a t. refl) get_bit-clear_bit pages 0 address page
          s fits',
    )
