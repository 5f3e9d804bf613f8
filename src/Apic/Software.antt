-- ===== src/Apic/Software.antt =====
-- The allocation of software interrupts.
use gewodsys.Base.{
  ℕ, zero, suc, ◌+◌, ◌-◌, ◌≤◌, ◌<◌, ◌≡◌, refl, ◌∙◌, inl, inr, ◌&&◌, ◌||◌, Option, none, some, arith,
  ltb, leb, ◌==◌, if◌then◌else◌, ==_iff, Bool-cases,
}
use gewodsys.Base.Int.{ℤ, pos, negsuc}
use gewodsys.Bitmap.{Bitmap, set_bit, get_bit}
use gewodsys.Bitmap.Laws.{get_bit-set_bit, get_bit-lt_two}
use gewodsys.Apic.Hardware.{Device}
use gewodsys.Apic.{
  Apic, taken, find_software, allocate_software_irq, set_run, initialize_bitmaps, get_highest_irq,
  num_vectors,
}

-- The result of the search is the lowest clear bit, if there is one.
abbrev pub Lowest : ℕ → ℕ → Bitmap → Option ℕ → Type 0
Lowest n bm bits none = (j : ℕ) → bm ≤ j → j < bm + n → get_bit j bits ≡ 1
Lowest n bm bits (some k) =
    (bm ≤ k) × (k < bm + n) × (get_bit k bits ≡ 0) × ((j : ℕ) → bm ≤ j → j < k → get_bit j bits ≡ 1)

find_software-Lowest : (n bm : ℕ) (bits : Bitmap) → Lowest n bm bits (find_software n bm bits)
unfolding find_software
find_software-Lowest zero bm bits = λ j lo hi. absurd (omega arith)
find_software-Lowest (suc n) bm bits = elim (Bool-cases (get_bit bm bits == 0)) [
  | inl free ↦
      rw free (omega arith, omega arith, (==_iff _ _).0 free, λ j lo hi. absurd (omega arith))
  | inr used ↦ rw used (
      step (find_software n (bm + 1) bits) (find_software-Lowest n (bm + 1) bits)
        (ground (arith, get_bit-lt_two bm bits)))
]
  where
    at_or_above :
        (here : get_bit bm bits ≡ 1) (j : ℕ)
        → bm ≤ j
        → (bm + 1 ≤ j → get_bit j bits ≡ 1)
        → get_bit j bits ≡ 1
    at_or_above here j lo rest = elim (Bool-cases (bm == j)) [
      | inl e ↦ let p : bm ≡ j = (==_iff _ _).0 e in rw (← p) here
      | inr e ↦ rest (ground arith)
    ]

    step :
        (o : Option ℕ) → Lowest n (bm + 1) bits o → get_bit bm bits ≡ 1 → Lowest (suc n) bm bits o
    step none rest here = λ j lo hi. at_or_above here j lo λ above. rest j above (omega arith)
    step (some k) rest here = (
      omega (arith, rest.0),
      omega (arith, rest.1),
      rest.2,
      λ j lo hi. at_or_above here j lo λ above. rest.3 j above hi,
    )

set_run-get_bit :
    (n bm j : ℕ) (bits : Bitmap)
    → get_bit j (set_run n bm bits) ≡ (if leb bm j && ltb j (bm + n) then 1 else get_bit j bits)
unfolding set_run
set_run-get_bit zero bm j bits = ground arith
set_run-get_bit (suc n) bm j bits =
    set_run-get_bit n (bm + 1) j (set_bit bm bits) ∙ rw (get_bit-set_bit bm j bits) (ground arith)

module _ (D : Device) where
  -- What an allocation did: the interrupt of the lowest vector that was free, which alone it marks,
  -- or -1 and no change with none free.
  pub data Allocated (s : Apic D) (r : ℤ × Apic D) : Type 0 where
    got :
        (k : ℕ)
        → k < 256
        → get_bit k s.sw ≡ 0
        → ((j : ℕ) → j < k → get_bit j s.sw ≡ 1)
        → r.0 ≡ pos (k + s.highest_irq + 1)
        → ((j : ℕ) → get_bit j r.1.sw ≡ (if k == j then 1 else get_bit j s.sw))
        → Allocated s r
    full : ((j : ℕ) → j < 256 → get_bit j s.sw ≡ 1) → r ≡ (negsuc 0, s) → Allocated s r

  -- `ApicAllocateSoftwareIrq` returns the interrupt of the lowest free vector, counted from the
  -- highest hardware interrupt on, and marks that vector and no other; when all 256 are taken it
  -- returns -1 and changes nothing.
  pub allocate_software_irq-Allocated : (s : Apic D) → Allocated s (allocate_software_irq D s)
  unfolding allocate_software_irq
  allocate_software_irq-Allocated s =
      go (find_software num_vectors 0 s.sw) (find_software-Lowest num_vectors 0 s.sw)
    where
      go : (o : Option ℕ) → Lowest 256 0 s.sw o → Allocated s (taken D o s)
      go none all = full (λ j lt. all j (omega arith) (omega arith)) refl
      go (some k) low =
          got k (omega (arith, low.1)) low.2 (λ j lt. low.3 j (omega arith) lt) refl
            (λ j. get_bit-set_bit k j s.sw)

  -- `ApicInitializeInterrupts` marks the vectors from 224 on in both bitmaps; in that of the hardware
  -- also the 16 ISA interrupts and those above the highest one up to 224. It marks no other vector.
  pub initialize_bitmaps-get_bit :
      (j : ℕ) (s : Apic D)
      → j < 256
      → (get_bit j (initialize_bitmaps D s).sw ≡ (if leb 224 j then 1 else get_bit j s.sw))
        × (get_bit j (initialize_bitmaps D s).hw ≡ (
            if leb 224 j || (ltb j 16 || ltb (get_highest_irq s.ioapics) j)
            then 1
            else get_bit j s.hw))
  unfolding initialize_bitmaps
  initialize_bitmaps-get_bit j s lt =
      let h : ℕ = get_highest_irq s.ioapics in
      let top = set_run 32 224 s.hw in
      let isa = set_run 16 0 top in
      (
        set_run-get_bit 32 224 j s.sw ∙ ground arith,
        set_run-get_bit (225 - (h + 1)) (h + 1) j isa
            ∙ rw (set_run-get_bit 16 0 j top, set_run-get_bit 32 224 j s.hw) (ground arith),
      )
