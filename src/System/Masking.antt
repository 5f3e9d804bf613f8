-- ===== src/System/Masking.antt =====
-- What the walk of the table does to the redirection entries of an I/O APIC.
use gewodsys.Base.{
  ℕ, zero, suc, ◌+◌, ◌*◌, ◌^◌, ◌≤◌, ◌<◌, ◌≡◌, ◌≢◌, ◌⊎◌, inl, inr, refl, ap, ap₂, ◌∙◌, arith,
  Bool-cases, ◌==◌, ==_iff, word64, with_field,
}
use gewodsys.Apic.Hardware.{Device}
use gewodsys.Apic.{rentry_index, read64, write64}
use gewodsys.Apic.Routing.{entry, entry-lt, read64-entry, read64-reg, write64-reg}
use gewodsys.System.Madt.{mask_entries}

module _ (D : Device) where
  open D use {Dev, reg, reg-lt}

  -- One round of the loop.
  masked_once : ℕ → ℕ → Dev → Dev
  masked_once base i d =
      let (raw, d') = read64 D base i d in write64 D base i (with_field 16 1 1 raw) d'

  masked_once-entry :
      (base i : ℕ) (d : Dev)
      → entry D base i (masked_once base i d) ≡ with_field 16 1 1 (entry D base i d)
  unfolding masked_once
  masked_once-entry base i d =
      let w : ℕ = entry D base i d in
      let fits : with_field 16 1 1 w < word64 = omega (arith, entry-lt D base i d) in
      let d1 = (read64 D base i d).1 in
      let high = write64-reg D base i (i + 1) (with_field 16 1 1 w) d1 fits in
      let low = write64-reg D base i i (with_field 16 1 1 w) d1 fits in
      rw (masked_once, read64-entry D base i d) (ground (arith, high, low))

  masked_once-reg :
      (base i j : ℕ) (d : Dev)
      → j ≢ i
      → j ≢ i + 1
      → reg base j (masked_once base i d) ≡ reg base j d
  unfolding masked_once
  masked_once-reg base i j d p q =
      let w : ℕ = entry D base i d in
      let fits : with_field 16 1 1 w < word64 = omega (arith, entry-lt D base i d) in
      let d1 = (read64 D base i d).1 in
      let same = write64-reg D base i j (with_field 16 1 1 w) d1 fits in
      rw (masked_once, read64-entry D base i d) (ground (arith, same, read64-reg D base i j d))

  mask_entries-reg :
      (n i j base : ℕ) (d : Dev)
      → i + n ≤ 120
      → (j < 0x10 + 2 * i) ⊎ (0x10 + 2 * (i + n) ≤ j)
      → reg base j (mask_entries D n i base d) ≡ reg base j d
  unfolding mask_entries masked_once
  mask_entries-reg zero i j base d small away = refl
  mask_entries-reg (suc n) i j base d small away =
      let at : rentry_index i ≡ 0x10 + 2 * i = omega arith in
      mask_entries-reg n (i + 1) j base (masked_once base (rentry_index i) d) (omega arith)
        (grind arith)
      ∙ masked_once-reg base (rentry_index i) j d (grind arith) (grind arith)

  mask_entries-at :
      (n i k base : ℕ) (d : Dev)
      → i ≤ k
      → k < i + n
      → i + n ≤ 120
      → entry D base (0x10 + 2 * k) (mask_entries D n i base d)
        ≡ with_field 16 1 1 (entry D base (0x10 + 2 * k) d)
  unfolding mask_entries masked_once
  mask_entries-at zero i k base d lo hi small = absurd (omega arith)
  mask_entries-at (suc n) i k base d lo hi small =
      let at : rentry_index i ≡ 0x10 + 2 * i = omega arith in
      let d1 = masked_once base (0x10 + 2 * i) d in
      elim (Bool-cases (i == k)) [
        | inl e ↦
            let p : i ≡ k = (==_iff i k).0 e in
            let later = λ (j : ℕ) (lt : j < 0x10 + 2 * (i + 1)).
              mask_entries-reg n (i + 1) j base d1 (omega arith) (inl lt) in
            let once = masked_once-entry base (0x10 + 2 * i) d in
            rw (at, ← p)
              (ap₂ (λ x y. x * 2 ^ 32 + y) (later (0x10 + 2 * i + 1) (omega arith))
                  (later (0x10 + 2 * i) (omega arith))
                ∙ once)
        | inr e ↦
            let rest =
              mask_entries-at n (i + 1) k base d1 (ground arith) (omega arith) (omega arith) in
            let same = λ (j : ℕ) (far : 0x10 + 2 * i + 1 < j).
              masked_once-reg base (0x10 + 2 * i) j d (λ q. omega (arith, q))
                (λ q. omega (arith, q)) in
            rw at (
              rest
              ∙ ap (with_field 16 1 1) (
                  ap₂ (λ x y. x * 2 ^ 32 + y) (same (0x10 + 2 * k + 1) (ground arith))
                    (same (0x10 + 2 * k) (ground arith))))
      ]

  -- Up to the 120th entry the loop over the entries of an I/O APIC sets the mask of each and leaves its
  -- other bits, and no register outside the entries changes.
  pub mask_entries-entry :
      (n base : ℕ) (d : Dev)
      → n ≤ 120
      → ((k : ℕ)
          → k < n
          → entry D base (0x10 + 2 * k) (mask_entries D n 0 base d)
            ≡ with_field 16 1 1 (entry D base (0x10 + 2 * k) d))
        × ((j : ℕ)
            → (j < 0x10) ⊎ (0x10 + 2 * n ≤ j)
            → reg base j (mask_entries D n 0 base d) ≡ reg base j d)
  mask_entries-entry n base d small = (
    λ k lt. mask_entries-at n 0 k base d (omega arith) (omega arith) (omega arith),
    λ j away. mask_entries-reg n 0 j base d (omega arith) (grind arith),
  )
