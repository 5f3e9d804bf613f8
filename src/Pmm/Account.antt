-- ===== src/Pmm/Account.antt =====
-- The memory statistics: every page operation moves a page between free and locked or reserved.
use gewodsys.Base.{ℕ, zero, suc, ◌+◌, ◌*◌, ◌%◌, ◌≡◌, refl, ◌∙◌, arith, word64}
use gewodsys.Pmm.{
  Pmm, reserve_page, unreserve_page, lock_page, unlock_page, each_page, reserve_pages,
  unreserve_pages, lock_pages, unlock_pages, free_page, add64, page_size,
}

-- All memory that the statistics speak of, as a `uint64_t` sum.
pub accounted : Pmm → ℕ
accounted s = (s.free_memory + s.locked_memory + s.reserved_memory) % word64

module _ (address : ℕ) (s : Pmm) where
  reserve_page-accounted : accounted (reserve_page address s) ≡ accounted s
  unfolding accounted reserve_page
  reserve_page-accounted = omega arith

  unreserve_page-accounted : accounted (unreserve_page address s) ≡ accounted s
  unfolding accounted unreserve_page
  unreserve_page-accounted = omega arith

  lock_page-accounted : accounted (lock_page address s) ≡ accounted s
  unfolding accounted lock_page
  lock_page-accounted = omega arith

  unlock_page-accounted : accounted (unlock_page address s) ≡ accounted s
  unfolding accounted unlock_page
  unlock_page-accounted = omega arith

each_page-accounted :
    (step : ℕ → Pmm → Pmm) (n i address : ℕ) (s : Pmm)
    → ((a : ℕ) (t : Pmm) → accounted (step a t) ≡ accounted t)
    → accounted (each_page step n i address s) ≡ accounted s
unfolding each_page
each_page-accounted step zero i address s keep = refl
each_page-accounted step (suc n) i address s keep =
    each_page-accounted step n (i + 1) address (step (add64 address (i * page_size % word64)) s)
      keep
    ∙ keep (add64 address (i * page_size % word64)) s

-- Reserving, releasing, locking and unlocking any run of pages, and freeing a page, keep the sum of
-- free, locked and reserved memory modulo 2^64.
pub page_ops-accounted :
    (address pages : ℕ) (s : Pmm)
    → (accounted (reserve_pages address pages s) ≡ accounted s)
      × (accounted (unreserve_pages address pages s) ≡ accounted s)
      × (accounted (lock_pages address pages s) ≡ accounted s)
      × (accounted (unlock_pages address pages s) ≡ accounted s)
      × (accounted (free_page address s) ≡ accounted s)
unfolding reserve_pages unreserve_pages lock_pages unlock_pages free_page
page_ops-accounted address pages s = (
  each_page-accounted reserve_page pages 0 address s reserve_page-accounted,
  each_page-accounted unreserve_page pages 0 address s unreserve_page-accounted,
  each_page-accounted lock_page pages 0 address s lock_page-accounted,
  each_page-accounted unlock_page pages 0 address s unlock_page-accounted,
  unlock_page-accounted _ s,
)
