-- ===== src/Pmm/Tests.antt =====
-- The allocator on a region of four pages, of which the first is taken.
use gewodsys.Base.{
  ℕ, ◌*◌, ◌%◌, ◌≤◌, ◌<◌, ◌≡◌, refl, arith, if◌then◌else◌, some, none, List, [], ◌∷◌, word64, ◌==◌,
  ==_iff, all_below, all_below_sound,
}
use mathlib.Core.Option
use gewodsys.Bitmap.{get_bit}
use gewodsys.Pmm.{
  Pmm, reserve_pages, unreserve_pages, lock_pages, unlock_pages, request_page, free_page, add64,
  page_size, MemmapEntry, Survey, survey,
}
use gewodsys.Pmm.Account.{accounted, page_ops-accounted}
use gewodsys.Pmm.Pages.{run_ops-get_bit, in_run}
use gewodsys.Pmm.Request.{Requested, request_page-total, request_page_past_end}

abbrev region : Pmm
region = record {
  total_available_pages = 4;
  first_available_page_addr = 0x100000;
  last_available_page_address = 0x104000;
  total_memory = 0x104000;
  total_pages = 260;
  bitfield = 0x101000;
  free_memory = 0x3000;
  locked_memory = 0;
  reserved_memory = 0x1000;
  bits = λ k. if k == 0 then 1 else 0;
  last_requested = 0;
  warnings = 0;
}

second_page : Option.map (λ r. r.0) (request_page 20 region) ≡ some 0x101000
unfolding request_page get_bit
second_page = refl

page_ops-accounted_example :
    (accounted (reserve_pages 0x1000 2 region) ≡ accounted region)
    × (accounted (unreserve_pages 0x1000 2 region) ≡ accounted region)
    × (accounted (lock_pages 0x1000 2 region) ≡ accounted region)
    × (accounted (unlock_pages 0x1000 2 region) ≡ accounted region)
    × (accounted (free_page 0x1000 region) ≡ accounted region)
page_ops-accounted_example = page_ops-accounted 0x1000 2 region

run_ops-get_bit_example :
    (get_bit 2 (reserve_pages 0x1000 2 region).bits
      ≡ (if in_run 0x1000 2 2 then 1 else get_bit 2 region.bits))
    × (get_bit 2 (lock_pages 0x1000 2 region).bits
        ≡ (if in_run 0x1000 2 2 then 1 else get_bit 2 region.bits))
    × (get_bit 2 (unreserve_pages 0x1000 2 region).bits
        ≡ (if in_run 0x1000 2 2 then 0 else get_bit 2 region.bits))
    × (get_bit 2 (unlock_pages 0x1000 2 region).bits
        ≡ (if in_run 0x1000 2 2 then 0 else get_bit 2 region.bits))
run_ops-get_bit_example = run_ops-get_bit 0x1000 2 2 region (omega arith)

one_free : get_bit 1 region.bits ≡ 0
unfolding get_bit
one_free = refl

request_page-total_example :
    (address : ℕ) × (t : Pmm) × (request_page 20 region ≡ some (address, t))
    × Requested region address t
request_page-total_example =
    request_page-total region 1 20 one_free (omega arith) (omega arith) (omega arith) (omega arith)
      (omega arith)

-- All four pages are taken.
abbrev taken : Pmm
taken = record region { bits = λ k. if k == 0 then 15 else 0 }

all_taken : (j : ℕ) → 0 ≤ j → j < 4 → get_bit j taken.bits ≡ 1
unfolding get_bit all_below
all_taken j lo hi = upto j hi
  where
    upto : (k : ℕ) → k < 4 → get_bit k taken.bits ≡ 1
    upto k h = (==_iff _ _).0 (all_below_sound 4 (λ x. get_bit x taken.bits == 1) k refl h)

next_clear : get_bit 4 taken.bits ≡ 0
unfolding get_bit
next_clear = refl

request_page_past_end_example :
    (t : Pmm) × (request_page 20 taken ≡ some (add64 0x100000 (4 * page_size % word64), t))
request_page_past_end_example =
    request_page_past_end taken 20 (omega arith) (omega arith) all_taken next_clear (omega arith)

abbrev usable_entry : MemmapEntry
usable_entry = record { base = 0x100800; size = 0x400000; kind = 0 }

abbrev memory_map : List MemmapEntry
memory_map =
    record { base = 0; size = 0x9000; kind = 0 }
    ∷ record { base = 0x9000; size = 0xF7000; kind = 1 }
    ∷ usable_entry
    ∷ []

abbrev empty_survey : Survey
empty_survey = record { total_memory = 0; usable_memory = 0; largest = none }

longest_found : (survey 0 memory_map empty_survey).largest ≡ some usable_entry
unfolding survey
longest_found = refl
