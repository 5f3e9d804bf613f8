-- ===== src/Pmm/Request.antt =====
-- `MmRequestPage` and `MmFreePage`.
use gewodsys.Base.{
  ℕ, zero, suc, ◌+◌, ◌-◌, ◌*◌, ◌%◌, ◌≤◌, ◌<◌, ◌≡◌, ◌≢◌, refl, ap, arith, leb, ◌==◌, if◌then◌else◌,
  some, false, Bool-cases, ◌⊎◌, inl, inr, ==_iff, word64,
}
use gewodsys.Bitmap.{Bitmap, get_bit}
use gewodsys.Bitmap.Laws.{get_bit-set_bit, get_bit-lt_two}
use gewodsys.Pmm.{Pmm, lock_page, search_page, request_page, add64, sub64, page_size, addr_to_page}

-- A page that the search returns is free, and is at most `total` or where the search started.
search_page-free :
    (fuel : ℕ) (bits : Bitmap) (total first last warned page w : ℕ)
    → 0 < total
    → total < word64 - 1
    → search_page fuel bits total first last warned ≡ some (page, w)
    → (get_bit page bits ≡ 0) × ((page ≤ total) ⊎ (page ≡ last))
unfolding search_page
search_page-free zero bits total first last warned page w some_page fits h = absurd (ground arith)
search_page-free (suc fuel) bits total first last warned page w some_page fits h =
    let from : ℕ = if leb total last then 0 else last in
    let next : add64 from 1 ≤ total = ground arith in
    ground (
      arith,
      next,
      get_bit-lt_two last bits,
      search_page-free fuel bits total first (add64 from 1)
          (if from == first then warned + 1 else warned) page w,
    )

-- A run of `MmRequestPage` that returned `address` from `s`, and left `t`.
pub record Requested (s : Pmm) (address : ℕ) (t : Pmm) : Type 0 where
  pub page : ℕ
  pub names : address ≡ add64 s.first_available_page_addr (page * page_size)
  pub in_region : page ≤ s.total_available_pages
  pub was_free : get_bit page s.bits ≡ 0
  pub marks : (j : ℕ) → get_bit j t.bits ≡ (if page == j then 1 else get_bit j s.bits)
  pub free_less : t.free_memory ≡ sub64 s.free_memory page_size
  pub locked_more : t.locked_memory ≡ add64 s.locked_memory page_size
  pub resumes : t.last_requested ≡ page
  pub same_region : t.first_available_page_addr ≡ s.first_available_page_addr

granted-Requested :
    (s : Pmm) (page w : ℕ)
    → page ≤ s.total_available_pages
    → s.total_available_pages * page_size < word64 - page_size
    → get_bit page s.bits ≡ 0
    → Requested s
        (add64 s.first_available_page_addr (page * page_size % word64))
        (lock_page (page * page_size % word64) (record s { last_requested = page; warnings = w }))
unfolding lock_page
granted-Requested s page w below fits free = record {
  page = page;
  names = omega arith;
  in_region = below;
  was_free = free;
  marks = λ j.
      let e : addr_to_page (page * page_size % word64) ≡ page = omega arith in
      rw e (get_bit-set_bit page j s.bits);
  free_less = refl;
  locked_more = refl;
  resumes = refl;
  same_region = refl;
}

-- The rounds from `last` to `q`: forwards, or once past `total` and round by 1.
abbrev Reaches : ℕ → ℕ → ℕ → ℕ → Type 0
Reaches fuel total last q =
    ((last ≤ q) × (q < fuel + last)) ⊎ ((q < last) × (total + q < fuel + last))

-- The search meets a free page that lies in its way.
search_page-some :
    (fuel : ℕ) (bits : Bitmap) (total first last warned q : ℕ)
    → get_bit q bits ≡ 0
    → 1 ≤ q
    → q ≤ total
    → total < word64 - 1
    → last ≤ total
    → Reaches fuel total last q
    → (page : ℕ) × (w : ℕ) × (search_page fuel bits total first last warned ≡ some (page, w))
      × (get_bit page bits ≡ 0)
      × (page ≤ total)
unfolding search_page
search_page-some zero bits total first last warned q free lo hi fits start way =
    absurd (omega arith)
search_page-some (suc fuel) bits total first last warned q free lo hi fits start way =
    elim (Bool-cases (get_bit last bits == 1)) [
      | inl used ↦
          let from : ℕ = if leb total last then 0 else last in
          let next : add64 from 1 ≤ total = ground arith in
          let other : last ≢ q = λ e. ground (arith, ap (λ k. get_bit k bits) e) in
          let on : Reaches fuel total (add64 from 1) q = ground arith in
          rw used (
            search_page-some fuel bits total first (add64 from 1)
              (if from == first then warned + 1 else warned) q free lo hi fits next on)
      | inr unused ↦ rw unused (last, warned, refl, ground (arith, get_bit-lt_two last bits), start)
    ]

-- Where a page of the region other than page 0 is free and the last request lies in the region,
-- enough rounds of `MmRequestPage` return the address of a page that was free, mark that page and no
-- other, and move one page of memory from free to locked.
pub request_page-total :
    (s : Pmm) (q fuel : ℕ)
    → get_bit q s.bits ≡ 0
    → 1 ≤ q
    → q ≤ s.total_available_pages
    → s.total_available_pages * page_size < word64 - page_size
    → s.last_requested ≤ s.total_available_pages
    → 2 * s.total_available_pages < fuel
    → (address : ℕ) × (t : Pmm) × (request_page fuel s ≡ some (address, t)) × Requested s address t
unfolding request_page
request_page-total s q fuel free lo hi fits start enough =
    let (page, w, found, was_free, below) =
      search_page-some fuel s.bits s.total_available_pages (sub64 s.last_requested 1)
        s.last_requested s.warnings q free lo hi (omega arith) start (ground arith) in
    (
      add64 s.first_available_page_addr (page * page_size % word64),
      lock_page (page * page_size % word64) (record s { last_requested = page; warnings = w }),
      rw found,
      granted-Requested s page w below fits was_free,
    )

search_page-last :
    (fuel : ℕ) (bits : Bitmap) (total first last warned : ℕ)
    → total < word64 - 1
    → last ≤ total
    → ((j : ℕ) → last ≤ j → j < total → get_bit j bits ≡ 1)
    → get_bit total bits ≡ 0
    → total < fuel + last
    → (w : ℕ) × (search_page fuel bits total first last warned ≡ some (total, w))
unfolding search_page
search_page-last zero bits total first last warned fits start taken clear enough =
    absurd (omega arith)
search_page-last (suc fuel) bits total first last warned fits start taken clear enough =
    elim (Bool-cases (last == total)) [
      | inl e ↦
          let at_end : last ≡ total = (==_iff last total).0 e in rw (at_end, clear) (warned, refl)
      | inr e ↦
          let below : leb total last ≡ false = ground arith in
          let next : (last + 1) % word64 ≡ last + 1 = ground arith in
          rw (taken last (omega arith) (ground arith), below, next)
            (search_page-last fuel bits total first (last + 1)
              (if last == first then warned + 1 else warned) fits (ground arith)
              (λ j lo hi. taken j (omega arith) hi) clear (omega arith))
    ]

-- Where every page from the last request to the end of the region is taken and the bit after the
-- last page is clear, `MmRequestPage` returns the address that follows the region.
pub request_page_past_end :
    (s : Pmm) (fuel : ℕ)
    → s.last_requested ≤ s.total_available_pages
    → s.total_available_pages * page_size < word64 - page_size
    → ((j : ℕ) → s.last_requested ≤ j → j < s.total_available_pages → get_bit j s.bits ≡ 1)
    → get_bit s.total_available_pages s.bits ≡ 0
    → s.total_available_pages < fuel + s.last_requested
    → (t : Pmm) × (request_page fuel s
        ≡ some (add64 s.first_available_page_addr (s.total_available_pages * page_size), t))
unfolding request_page
request_page_past_end s fuel start fits taken clear enough =
    let total : ℕ = s.total_available_pages in
    let (w, found) =
      search_page-last fuel s.bits total (sub64 s.last_requested 1) s.last_requested s.warnings
        (omega arith) start taken clear enough in
    let small : total * page_size % word64 ≡ total * page_size = omega arith in
    (
      lock_page (total * page_size % word64) (record s { last_requested = total; warnings = w }),
      rw (found, small),
    )
