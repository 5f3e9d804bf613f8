-- ===== src/Vmm/Other.antt =====
-- `MmMapMemory`, seen from the pages that it does not map.
use mathlib.Core.Option
use gewodsys.Base.{
  ℕ, ◌*◌, ◌%◌, ◌^◌, ◌<◌, ◌≡◌, ◌≢◌, bit_or, refl, sym, ap, ◌∙◌, inl, inr, some, arith, some_inj,
  map-eq_some, ◌==◌, Bool-cases, ==_iff,
}
use gewodsys.Rt.{load, zero_memory}
use gewodsys.Rt.Words.{load-store_ne, Apart}
use gewodsys.Pmm.{request_page}
use gewodsys.Vmm.{
  Machine, get_page_indices, pointing, present, page_ppn, entry_at, next_table, map_page,
  map_aligned, map_memory, get_physical_address, leaf_at, below, page_start, warn_unaligned,
}
use gewodsys.Vmm.Entry.{load-zero_memory_ne}
use gewodsys.Vmm.Map.{IsFrame, Walk, next_table-Stepped}

-- Two entries at different addresses do not overlap, and an entry lies in no other frame.
entries-Apart :
    (t u i j : ℕ)
    → IsFrame t
    → IsFrame u
    → entry_at t i ≢ entry_at u j
    → Apart (entry_at t i) 8 (entry_at u j) 8
entries-Apart t u i j ft fu ne = ground (arith, ft.on_page, fu.on_page, ne)

frame-Apart : (t u j : ℕ) → IsFrame t → IsFrame u → t ≢ u → j < 512 → Apart t 4096 (entry_at u j) 8
frame-Apart t u j ft fu ne small = ground (arith, ft.on_page, fu.on_page, ne)

-- A level keeps the entry `j` of a table `u` that is present, unless it makes `u` anew.
next_table-keeps :
    (fuel table index t u j : ℕ) (s s' : Machine)
    → next_table fuel table index s ≡ some (t, s')
    → IsFrame table
    → IsFrame t
    → IsFrame u
    → j < 512
    → present (load 8 (entry_at u j) s.mem) ≡ 1
    → (present (load 8 (entry_at table index) s.mem) ≡ 0 → t ≢ u)
    → load 8 (entry_at u j) s'.mem ≡ load 8 (entry_at u j) s.mem
unfolding next_table
next_table-keeps fuel table index t u j s s' h frame new other small there fresh =
    elim (Bool-cases (present (load 8 (entry_at table index) s.mem) == 0)) [
      | inr found ↦
          let e = some_inj (rw found at h) in ap (λ r. load 8 (entry_at u j) r.1.mem) (sym e)
      | inl absent ↦
          let (r, got, e) = map-eq_some _ (request_page fuel s.pmm) (t, s') (rw absent at h) in
          let gone = (==_iff (present (load 8 (entry_at table index) s.mem)) 0).0 absent in
          let at : ℕ = entry_at table index in
          let pde : ℕ = load 8 at s.mem in
          let same : r.0 ≡ t = ap (λ x. x.0) e in
          let ne : at ≢ entry_at u j =
            λ p. absurd (omega (arith, gone, there, ap (λ a. present (load 8 a s.mem)) p)) in
          ap (λ x. load 8 (entry_at u j) x.1.mem) (sym e)
          ∙ load-store_ne 8 8 at (pointing r.0 pde) (entry_at u j) (zero_memory r.0 4096 s.mem)
              (entries-Apart table u index j frame other ne)
          ∙ load-zero_memory_ne 8 r.0 (entry_at u j) 4096 s.mem
              (rw (← same) at (frame-Apart t u j new other (fresh gone) small))
    ]

-- The walk to a page does not touch the entry `j` of a table `u`, which is present: a table that it makes
-- anew is another, and so is the entry of the page.
pub record IsUntouched {fuel virtual : ℕ} {s : Machine} (w : Walk fuel virtual s) (u j : ℕ)
    : Type 0 where
  pub frame : IsFrame u
  pub small : j < 512
  pub there : present (load 8 (entry_at u j) s.mem) ≡ 1
  pub first :
      present (load 8 (entry_at s.pml4 (get_page_indices virtual).pdp) s.mem) ≡ 0 → w.pdp_table ≢ u
  pub second :
      present (load 8 (entry_at w.pdp_table (get_page_indices virtual).pd) w.s1.mem) ≡ 0
      → w.pd_table ≢ u
  pub third :
      present (load 8 (entry_at w.pd_table (get_page_indices virtual).pt) w.s2.mem) ≡ 0
      → w.pt_table ≢ u
  pub other : entry_at w.pt_table (get_page_indices virtual).p ≢ entry_at u j

-- Another page is mapped, and the walk touches none of the four entries that lead to it.
pub record IsElsewhere {fuel virtual : ℕ} {s : Machine} (w : Walk fuel virtual s) (page : ℕ)
    : Type 0 where
  pub first : IsUntouched w s.pml4 (get_page_indices page).pdp
  pub second :
      IsUntouched w (below s.pml4 (get_page_indices page).pdp s.mem) (get_page_indices page).pd
  pub third :
      IsUntouched w
        (below (below s.pml4 (get_page_indices page).pdp s.mem) (get_page_indices page).pd s.mem)
        (get_page_indices page).pt
  pub last :
      IsUntouched w
        (below
          (below (below s.pml4 (get_page_indices page).pdp s.mem) (get_page_indices page).pd s.mem)
          (get_page_indices page).pt
          s.mem)
        (get_page_indices page).p

module _ (fuel virtual physical : ℕ) (s : Machine) (w : Walk fuel virtual s) where
  -- The state behind the walk, with the page's entry.
  abbrev mapped : Machine
  mapped = map_page w.pt_table (get_page_indices virtual).p physical w.s3

  map_aligned-mapped : map_aligned fuel virtual physical s ≡ some mapped
  unfolding map_aligned Option.bind
  map_aligned-mapped = rw (w.first, w.second, w.third) refl

  root-mapped : mapped.pml4 ≡ s.pml4
  unfolding map_page
  root-mapped =
      let i = get_page_indices virtual in
      (next_table-Stepped fuel w.pd_table i.pt w.pt_table w.s2 w.s3 w.third w.frame3).root
      ∙ (next_table-Stepped fuel w.pdp_table i.pd w.pd_table w.s1 w.s2 w.second w.frame2).root
      ∙ (next_table-Stepped fuel s.pml4 i.pdp w.pdp_table s w.s1 w.first w.frame1).root

  entry-mapped :
      (u j : ℕ) → IsUntouched w u j → load 8 (entry_at u j) mapped.mem ≡ load 8 (entry_at u j) s.mem
  unfolding map_page
  entry-mapped u j k =
      let i = get_page_indices virtual in
      let at : ℕ = entry_at w.pt_table i.p in
      let e1 =
        next_table-keeps fuel s.pml4 i.pdp w.pdp_table u j s w.s1 w.first w.frame0 w.frame1 k.frame
          k.small k.there k.first in
      let e2 =
        next_table-keeps fuel w.pdp_table i.pd w.pd_table u j w.s1 w.s2 w.second w.frame1 w.frame2
          k.frame k.small (ap present e1 ∙ k.there) k.second in
      let e3 =
        next_table-keeps fuel w.pd_table i.pt w.pt_table u j w.s2 w.s3 w.third w.frame2 w.frame3
          k.frame k.small (ap present (e2 ∙ e1) ∙ k.there) k.third in
      load-store_ne 8 8 at (pointing physical (load 8 at w.s3.mem)) (entry_at u j) w.s3.mem
        (entries-Apart w.pt_table u i.p j w.frame3 k.frame k.other)
      ∙ e3
      ∙ e2
      ∙ e1

  address-mapped :
      (page : ℕ)
      → IsElsewhere w page
      → get_physical_address page mapped ≡ get_physical_address page s
  unfolding get_physical_address leaf_at
  address-mapped page k =
      let j = get_page_indices page in
      let frame = λ (x : ℕ). page_ppn x * 2 ^ 12 in
      let t1 = below s.pml4 j.pdp s.mem in
      let t2 = below t1 j.pd s.mem in
      let t3 = below t2 j.pt s.mem in
      let b0 : below mapped.pml4 j.pdp mapped.mem ≡ t1 =
        ap (λ x. below x j.pdp mapped.mem) root-mapped
        ∙ ap frame (entry-mapped s.pml4 j.pdp k.first) in
      let b1 : below t1 j.pd mapped.mem ≡ t2 = ap frame (entry-mapped t1 j.pd k.second) in
      let b2 : below t2 j.pt mapped.mem ≡ t3 = ap frame (entry-mapped t2 j.pt k.third) in
      rw (b0, b1, b2)
        (ap (λ x. bit_or (page_ppn x * 2 ^ 12) (page % 4096)) (entry-mapped t3 j.p k.last))

get_physical_address-warn_unaligned :
    (address page : ℕ) (s : Machine)
    → get_physical_address page (warn_unaligned address s) ≡ get_physical_address page s
unfolding get_physical_address leaf_at warn_unaligned
get_physical_address-warn_unaligned address page s = elim (Bool-cases (address % 4096 == 0)) [
  | inl e ↦ rw e refl
  | inr e ↦ rw e refl
]

-- Where the run of `MmMapMemory` goes through four different frames below 2^40 and touches none of the
-- entries that lead to another page, it succeeds, and `MmGetPhysicalAddress` returns of that page what it
-- returned before.
pub get_physical_address-other :
    (fuel virtual physical page : ℕ) (s : Machine)
    (w : Walk fuel (page_start virtual) (warn_unaligned physical (warn_unaligned virtual s)))
    → IsElsewhere w page
    → (s' : Machine) × (map_memory fuel virtual physical s ≡ some s')
      × (get_physical_address page s' ≡ get_physical_address page s)
unfolding map_memory
get_physical_address-other fuel virtual physical page s w k =
    let s1 = warn_unaligned physical (warn_unaligned virtual s) in
    (
      mapped fuel (page_start virtual) (page_start physical) s1 w,
      map_aligned-mapped fuel (page_start virtual) (page_start physical) s1 w,
      address-mapped fuel (page_start virtual) (page_start physical) s1 w page k
          ∙ get_physical_address-warn_unaligned physical page (warn_unaligned virtual s)
          ∙ get_physical_address-warn_unaligned virtual page s,
    )
