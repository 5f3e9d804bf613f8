-- ===== src/Vmm/Map.antt =====
-- `MmMapMemory` maps: the walk of `MmGetPhysicalAddress` finds the page.
use gewodsys.Base.{
  ℕ, ◌+◌, ◌*◌, ◌/◌, ◌%◌, ◌^◌, ◌<◌, ◌≡◌, refl, sym, ap, ◌∙◌, ◌≢◌, inl, inr, some, arith, some_inj,
  map-eq_some, ◌==◌, Bool-cases,
}
use mathlib.Core.Option
use mathlib.Core.Path.{subst₂}
use gewodsys.Base.Bits.{bit_or_shifted}
use gewodsys.Rt.{load, zero_memory}
use gewodsys.Rt.Words.{load-store_ne, load-store_self, load-lt, Apart}
use gewodsys.Pmm.{request_page}
use gewodsys.Vmm.{
  Machine, get_page_indices, pointing, present, page_ppn, entry_at, next_table, map_page,
  map_aligned, map_memory, get_physical_address, leaf_at, below, page_start, warn_unaligned,
}
use gewodsys.Vmm.Entry.{pointing-lt, page_ppn-pointing, load-zero_memory_ne, get_page_indices_lem}

-- A page frame that an entry can name.
pub record IsFrame (t : ℕ) : Type 0 where
  pub on_page : t % 4096 ≡ 0
  pub small : t < 2 ^ 40

-- One level led from `table` to `t`, and `s'` is the state after it.
pub record Stepped (table index t : ℕ) (s s' : Machine) : Type 0 where
  pub points : below table index s'.mem ≡ t
  pub root : s'.pml4 ≡ s.pml4
  pub others :
      (a : ℕ)
      → Apart (entry_at table index) 8 a 8
      → Apart t 4096 a 8
      → load 8 a s'.mem ≡ load 8 a s.mem

pub next_table-Stepped :
    (fuel table index t : ℕ) (s s' : Machine)
    → next_table fuel table index s ≡ some (t, s')
    → IsFrame t
    → Stepped table index t s s'
unfolding next_table
next_table-Stepped fuel table index t s s' h frame =
    elim (Bool-cases (present (load 8 (entry_at table index) s.mem) == 0)) [
      | inr found ↦
          let e = some_inj (rw found at h) in
          subst₂ (λ x y. Stepped table index x s y) (ap (λ r. r.0) e) (ap (λ r. r.1) e)
            (record { points = refl; root = refl; others = λ a p q. refl })
      | inl absent ↦
          let (r, got, e) = map-eq_some _ (request_page fuel s.pmm) (t, s') (rw absent at h) in
          let at : ℕ = entry_at table index in
          let pde : ℕ = load 8 at s.mem in
          let frame' : IsFrame r.0 = rw (ap (λ x. x.0) e) frame in
          let wide = pointing-lt r.0 pde (load-lt 8 at s.mem) in
          let named = page_ppn-pointing r.0 pde in
          subst₂ (λ x y. Stepped table index x s y) (ap (λ x. x.0) e) (ap (λ x. x.1) e)
            (record {
              points =
                  rw
                    (
                      load-store_self 8 at (pointing r.0 pde) (zero_memory r.0 4096 s.mem) wide,
                      named,
                    )
                    (omega (arith, frame'.on_page, frame'.small));
              root = refl;
              others = λ a p q.
                  load-store_ne 8 8 at (pointing r.0 pde) a (zero_memory r.0 4096 s.mem) p
                  ∙ load-zero_memory_ne 8 r.0 a 4096 s.mem q;
            })
    ]

frames-Apart :
    (t u i j : ℕ)
    → IsFrame t
    → IsFrame u
    → t ≢ u
    → i < 512
    → j < 512
    → Apart (entry_at t i) 8 (entry_at u j) 8 × Apart t 4096 (entry_at u j) 8
frames-Apart t u i j ft fu ne hi hj = ground (arith, ft.on_page, fu.on_page)

-- The tables that a run of `MmMapMemory` goes through, from the root on, and the states after each.
pub record Walk (fuel virtual : ℕ) (s : Machine) : Type 0 where
  pub pdp_table : ℕ
  pub pd_table : ℕ
  pub pt_table : ℕ
  pub s1 : Machine
  pub s2 : Machine
  pub s3 : Machine
  pub first : next_table fuel s.pml4 (get_page_indices virtual).pdp s ≡ some (pdp_table, s1)
  pub second : next_table fuel pdp_table (get_page_indices virtual).pd s1 ≡ some (pd_table, s2)
  pub third : next_table fuel pd_table (get_page_indices virtual).pt s2 ≡ some (pt_table, s3)
  pub frame0 : IsFrame s.pml4
  pub frame1 : IsFrame pdp_table
  pub frame2 : IsFrame pd_table
  pub frame3 : IsFrame pt_table
  pub ne01 : s.pml4 ≢ pdp_table
  pub ne02 : s.pml4 ≢ pd_table
  pub ne03 : s.pml4 ≢ pt_table
  pub ne12 : pdp_table ≢ pd_table
  pub ne13 : pdp_table ≢ pt_table
  pub ne23 : pd_table ≢ pt_table

map_aligned-leaf :
    (fuel virtual physical : ℕ) (s : Machine) (w : Walk fuel virtual s)
    → (s' : Machine) × (map_aligned fuel virtual physical s ≡ some s')
      × (leaf_at virtual s' ≡ entry_at w.pt_table (get_page_indices virtual).p)
      × (page_ppn (load 8 (entry_at w.pt_table (get_page_indices virtual).p) s'.mem)
          ≡ physical / 2 ^ 12 % 2 ^ 28)
unfolding map_aligned map_page leaf_at Option.bind
map_aligned-leaf fuel virtual physical s w =
    let i = get_page_indices virtual in
    let (sum, h0, h1, h2, h3) = get_page_indices_lem virtual in
    let st1 = next_table-Stepped fuel s.pml4 i.pdp w.pdp_table s w.s1 w.first w.frame1 in
    let st2 = next_table-Stepped fuel w.pdp_table i.pd w.pd_table w.s1 w.s2 w.second w.frame2 in
    let st3 = next_table-Stepped fuel w.pd_table i.pt w.pt_table w.s2 w.s3 w.third w.frame3 in
    let a01 =
      frames-Apart w.pdp_table s.pml4 i.pd i.pdp w.frame1 w.frame0 (λ e. w.ne01 (sym e)) h1 h0 in
    let a02 =
      frames-Apart w.pd_table s.pml4 i.pt i.pdp w.frame2 w.frame0 (λ e. w.ne02 (sym e)) h2 h0 in
    let a03 =
      frames-Apart w.pt_table s.pml4 i.p i.pdp w.frame3 w.frame0 (λ e. w.ne03 (sym e)) h3 h0 in
    let a12 =
      frames-Apart w.pd_table w.pdp_table i.pt i.pd w.frame2 w.frame1 (λ e. w.ne12 (sym e)) h2 h1 in
    let a13 =
      frames-Apart w.pt_table w.pdp_table i.p i.pd w.frame3 w.frame1 (λ e. w.ne13 (sym e)) h3 h1 in
    let a23 =
      frames-Apart w.pt_table w.pd_table i.p i.pt w.frame3 w.frame2 (λ e. w.ne23 (sym e)) h3 h2 in
    let at : ℕ = entry_at w.pt_table i.p in
    let pte : ℕ = load 8 at w.s3.mem in
    let s' = map_page w.pt_table i.p physical w.s3 in
    let leaf =
      λ (a : ℕ) (p : Apart at 8 a 8). load-store_ne 8 8 at (pointing physical pte) a w.s3.mem p in
    let e0 =
      leaf (entry_at s.pml4 i.pdp) a03.0
      ∙ st3.others (entry_at s.pml4 i.pdp) a02.0 a03.1
      ∙ st2.others (entry_at s.pml4 i.pdp) a01.0 a02.1 in
    let e1 =
      leaf (entry_at w.pdp_table i.pd) a13.0 ∙ st3.others (entry_at w.pdp_table i.pd) a12.0 a13.1 in
    let e2 = leaf (entry_at w.pd_table i.pt) a23.0 in
    let root = st3.root ∙ st2.root ∙ st1.root in
    let b0 : below s.pml4 i.pdp s'.mem ≡ w.pdp_table =
      ap (λ x. page_ppn x * 2 ^ 12) e0 ∙ st1.points in
    let b1 : below w.pdp_table i.pd s'.mem ≡ w.pd_table =
      ap (λ x. page_ppn x * 2 ^ 12) e1 ∙ st2.points in
    let b2 : below w.pd_table i.pt s'.mem ≡ w.pt_table =
      ap (λ x. page_ppn x * 2 ^ 12) e2 ∙ st3.points in
    (
      s',
      rw (w.first, w.second, w.third),
      ap (λ x. entry_at (below (below (below x i.pdp s'.mem) i.pd s'.mem) i.pt s'.mem) i.p) root
          ∙ ap (λ x. entry_at (below (below x i.pd s'.mem) i.pt s'.mem) i.p) b0
          ∙ ap (λ x. entry_at (below x i.pt s'.mem) i.p) b1
          ∙ ap (λ x. entry_at x i.p) b2,
      ap page_ppn (
            load-store_self 8 at (pointing physical pte) w.s3.mem
              (pointing-lt physical pte (load-lt 8 at w.s3.mem)))
          ∙ page_ppn-pointing physical pte,
    )

indices-page_start :
    (virtual : ℕ) → get_page_indices (page_start virtual) ≡ get_page_indices virtual
unfolding get_page_indices
indices-page_start virtual = ground arith

leaf_at-page_start :
    (virtual : ℕ) (s : Machine) → leaf_at (page_start virtual) s ≡ leaf_at virtual s
unfolding leaf_at
leaf_at-page_start virtual s = rw (indices-page_start virtual)

-- Where the run of `MmMapMemory` goes through four different frames below 2^40, it succeeds, and
-- `MmGetPhysicalAddress` then returns the physical page's address modulo 2^40, with the offset of the
-- virtual address in its page.
pub get_physical_address-map_memory :
    (fuel virtual physical : ℕ) (s : Machine)
    → Walk fuel (page_start virtual) (warn_unaligned physical (warn_unaligned virtual s))
    → (s' : Machine) × (map_memory fuel virtual physical s ≡ some s')
      × (get_physical_address virtual s' ≡ page_start physical % 2 ^ 40 + virtual % 4096)
unfolding map_memory get_physical_address
get_physical_address-map_memory fuel virtual physical s w =
    let (s', run, leaf, ppn) =
      map_aligned-leaf fuel (page_start virtual) (page_start physical) _ w in
    let frame : ℕ = page_start physical / 2 ^ 12 % 2 ^ 28 in
    (
      s',
      run,
      rw
          (
            ← leaf_at-page_start virtual s',
            leaf,
            ppn,
            bit_or_shifted 12 frame (virtual % 4096) (omega arith),
          )
          (omega arith),
    )
