-- ===== src/Pmm/Largest.antt =====
-- What the loop of `MmInitialize` over the boot loader's memory map finds.
use gewodsys.Base.{
  ℕ, ◌+◌, ◌%◌, ◌≤◌, ◌<◌, ◌≡◌, refl, ◌∙◌, ◌⊎◌, inl, inr, Option, none, some, List, [], ◌∷◌, arith,
  ltb, ◌==◌, ==_iff, Bool-cases, word64,
}
use gewodsys.Pmm.{MemmapEntry, Survey, survey, larger, add64}

abbrev pub total_size : List MemmapEntry → ℕ
total_size [] = 0
total_size (e ∷ es) = e.size + total_size es

abbrev pub size_of : Option MemmapEntry → ℕ
size_of none = 0
size_of (some e) = e.size

-- `l` is `before`, or a usable entry of the list.
abbrev pub Chosen : ℕ → Option MemmapEntry → Option MemmapEntry → List MemmapEntry → Type 0
Chosen usable l before [] = l ≡ before
Chosen usable l before (e ∷ es) = ((e.kind ≡ usable) × (l ≡ some e)) ⊎ Chosen usable l before es

-- No usable entry of the list is longer than `n`.
abbrev pub UsableAtMost : ℕ → ℕ → List MemmapEntry → Type 0
UsableAtMost usable n [] = Unit
UsableAtMost usable n (e ∷ es) = (e.kind ≡ usable → e.size ≤ n) × UsableAtMost usable n es

larger-ge :
    (e : MemmapEntry) (o : Option MemmapEntry)
    → (size_of o ≤ size_of (larger e o))
      × (e.size ≤ size_of (larger e o))
      × ((larger e o ≡ some e) ⊎ (larger e o ≡ o))
unfolding larger
larger-ge e none = (omega arith, omega arith, inl refl)
larger-ge e (some l) = elim (Bool-cases (ltb l.size e.size)) [
  | inl h ↦ rw h (ground arith, omega arith, inl refl)
  | inr h ↦ rw h (omega arith, ground arith, inr refl)
]

pub record Found (usable : ℕ) (es : List MemmapEntry) (v : Survey) (r : Survey) : Type 0 where
  pub memory : r.total_memory ≡ (v.total_memory + total_size es) % word64
  pub chosen : Chosen usable r.largest v.largest es
  pub longest : UsableAtMost usable (size_of r.largest) es
  pub kept : size_of v.largest ≤ size_of r.largest

Chosen-later :
    (usable : ℕ) (l before next : Option MemmapEntry) (es : List MemmapEntry) (P : Type 0)
    → Chosen usable l next es
    → ((next ≡ before) ⊎ ((l ≡ next) → P))
    → P ⊎ Chosen usable l before es
Chosen-later usable l before next [] P c (inl e) = inr (c ∙ e)
Chosen-later usable l before next [] P c (inr f) = inl (f c)
Chosen-later usable l before next (e ∷ es) P (inl h) w = inr (inl h)
Chosen-later usable l before next (e ∷ es) P (inr c) w =
    elim (Chosen-later usable l before next es P c w) [ inl p ↦ inl p | inr d ↦ inr (inr d) ]

-- The loop adds up the sizes of all entries modulo 2^64, and keeps a usable entry that no other
-- usable entry exceeds, or what it had before if the list has none that is longer.
pub survey-Found :
    (usable : ℕ) (es : List MemmapEntry) (v : Survey)
    → v.total_memory < word64
    → Found usable es v (survey usable es v)
unfolding survey
survey-Found usable [] v fits = record {
  memory = omega arith;
  chosen = refl;
  longest = tt;
  kept = omega arith;
}
survey-Found usable (e ∷ es) v fits = elim (Bool-cases (e.kind == usable)) [
  | inl use_it ↦
      let r =
        survey-Found usable es
          (record {
            total_memory = add64 v.total_memory e.size;
            usable_memory = add64 v.usable_memory e.size;
            largest = larger e v.largest;
          })
          (omega arith) in
      let g = larger-ge e v.largest in
      let kind : e.kind ≡ usable = (==_iff _ _).0 use_it in
      rw use_it (record {
        memory = omega (arith, r.memory);
        chosen =
            Chosen-later usable _ v.largest (larger e v.largest) es _ r.chosen
              (elim g.2 [ inl new ↦ inr (λ p. (kind, p ∙ new)) | inr old ↦ inl old ]);
        longest = (λ _. omega (arith, r.kept, g.1), r.longest);
        kept = omega (arith, r.kept, g.0);
      })
  | inr skip ↦
      let r =
        survey-Found usable es (record v { total_memory = add64 v.total_memory e.size })
          (omega arith) in
      rw skip (record {
        memory = omega (arith, r.memory);
        chosen = inr r.chosen;
        longest = (λ k. absurd (ground arith), r.longest);
        kept = r.kept;
      })
]
