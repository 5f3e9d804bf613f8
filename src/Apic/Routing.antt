-- ===== src/Apic/Routing.antt =====
-- What the `ApicSetIrq` functions leave in the entry of an interrupt request.
use gewodsys.Base.{
  ℕ, ◌+◌, ◌*◌, ◌/◌, ◌%◌, ◌^◌, ◌≤◌, ◌<◌, ◌≡◌, refl, ap, ◌∙◌, ◌≢◌, ◌⊎◌, inl, inr, ◌&&◌, Option, none,
  some, List, [], ◌∷◌, arith, ltb, leb, ◌==◌, if◌then◌else◌, Bool-cases, word64,
}
use gewodsys.Base.Int.{ℤ, pos, negsuc}
use gewodsys.Base.Bits.{bit_or_shifted}
use gewodsys.Apic.Hardware.{Device}
use gewodsys.Apic.{
  IoApic, Apic, get_by_irq, get_highest_irq, highest_from, end_of, read64, write64, update_rentry,
  rentry_index,
}

-- No range of the list holds the request.
abbrev pub NoneInRange : ℕ → List IoApic → Type 0
NoneInRange irq [] = Unit
NoneInRange irq (a ∷ ios) = ((irq < a.gsi_base) ⊎ (end_of a ≤ irq)) × NoneInRange irq ios

-- What a search for the request may return.
abbrev pub Outcome : ℕ → List IoApic → Option IoApic → Type 0
Outcome irq ios none = NoneInRange irq ios
Outcome irq ios (some a) = (a.gsi_base ≤ irq) × (irq < end_of a)

-- `IoApicGetByIrq` returns an I/O APIC whose range holds the request, and none only if no range of
-- the list does.
pub get_by_irq-Outcome : (irq : ℕ) (ios : List IoApic) → Outcome irq ios (get_by_irq irq ios)
unfolding get_by_irq
get_by_irq-Outcome irq [] = tt
get_by_irq-Outcome irq (a ∷ ios) = elim (Bool-cases (leb a.gsi_base irq && ltb irq (end_of a))) [
  | inl h ↦ rw h (ground arith, ground arith)
  | inr h ↦ rw h (step (get_by_irq irq ios) (get_by_irq-Outcome irq ios) (ground arith))
]
  where
    step :
        (o : Option IoApic)
        → Outcome irq ios o
        → (irq < a.gsi_base) ⊎ (end_of a ≤ irq)
        → Outcome irq (a ∷ ios) o
    step none rest here = (here, rest)
    step (some b) rest here = rest

highest_from-ge : (h : ℕ) (ios : List IoApic) → h ≤ highest_from h ios
unfolding highest_from
highest_from-ge h [] = omega arith
highest_from-ge h (a ∷ ios) =
    ground (arith, highest_from-ge (if ltb h (end_of a) then end_of a else h) ios)

highest_from-unrouted :
    (h irq : ℕ) (ios : List IoApic) → highest_from h ios ≤ irq → NoneInRange irq ios
unfolding highest_from
highest_from-unrouted h irq [] le = tt
highest_from-unrouted h irq (a ∷ ios) le = (
  inr (ground (arith, highest_from-ge (if ltb h (end_of a) then end_of a else h) ios)),
  highest_from-unrouted (if ltb h (end_of a) then end_of a else h) irq ios le,
)

get_by_irq-none : (irq : ℕ) (ios : List IoApic) → NoneInRange irq ios → get_by_irq irq ios ≡ none
unfolding get_by_irq
get_by_irq-none irq [] out = refl
get_by_irq-none irq (a ∷ ios) out = ground (arith, get_by_irq-none irq ios out.1)

-- No I/O APIC is found for the request that `ApicGetHighestIrq` returns, nor for any above it.
pub highest_irq_unrouted :
    (irq : ℕ) (ios : List IoApic) → get_highest_irq ios ≤ irq → get_by_irq irq ios ≡ none
unfolding get_highest_irq
highest_irq_unrouted irq ios le = get_by_irq-none irq ios (highest_from-unrouted 0 irq ios le)

module _ (D : Device) where
  open D use {Dev, put, fetch, reg, reg-lt, reg-select, fetch-window, reg-window}

  -- The two halves of a redirection entry.
  abbrev pub entry : ℕ → ℕ → Dev → ℕ
  entry base i d = reg base (i + 1) d * 2 ^ 32 + reg base i d

  pub read64-entry : (base i : ℕ) (d : Dev) → (read64 D base i d).0 ≡ entry base i d
  unfolding read64
  read64-entry base i d =
      rw
        (
          fetch-window base (i + 1) (put base i d),
          fetch-window base i d,
          reg-select base i (i + 1) d,
        )
        (bit_or_shifted 32 (reg base (i + 1) d) (reg base i d) (reg-lt base i d))

  pub read64-reg : (base i j : ℕ) (d : Dev) → reg base j (read64 D base i d).1 ≡ reg base j d
  unfolding read64
  read64-reg base i j d = reg-select base (i + 1) j (put base i d) ∙ reg-select base i j d

  pub write64-reg :
      (base i j v : ℕ) (d : Dev)
      → v < word64
      → reg base j (write64 D base i v d)
        ≡ (if i + 1 == j then v / 2 ^ 32 else if i == j then v % 2 ^ 32 else reg base j d)
  unfolding write64
  write64-reg base i j v d small =
      reg-window base (i + 1) j (v / 2 ^ 32) _ (omega arith)
      ∙ ap (λ x. if i + 1 == j then v / 2 ^ 32 else x)
          (reg-window base i j (v % 2 ^ 32) d (omega arith))

  -- What an `ApicSetIrq` function did at the I/O APIC `a`: its entry went through `change`, and no
  -- other register changed.
  pub record Updated (a : IoApic) (irq : ℕ) (change : ℕ → ℕ) (s : Apic D) (r : ℤ × Apic D)
      : Type 0 where
    pub status : r.0 ≡ pos 0
    pub changed :
        entry a.address (rentry_index irq) r.1.dev
        ≡ change (entry a.address (rentry_index irq) s.dev)
    pub others :
        (j : ℕ)
        → j ≢ rentry_index irq
        → j ≢ rentry_index irq + 1
        → reg a.address j r.1.dev ≡ reg a.address j s.dev

  pub entry-lt : (base i : ℕ) (d : Dev) → entry base i d < word64
  entry-lt base i d = omega (arith, reg-lt base i d, reg-lt base (i + 1) d)

  pub update_rentry-Updated :
      (a : IoApic) (irq : ℕ) (change : ℕ → ℕ) (s : Apic D)
      → get_by_irq irq s.ioapics ≡ some a
      → ((w : ℕ) → w < word64 → change w < word64)
      → Updated a irq change s (update_rentry D irq change s)
  unfolding update_rentry
  update_rentry-Updated a irq change s found small =
      let base : ℕ = a.address in
      let i : ℕ = rentry_index irq in
      let d1 = (read64 D base i s.dev).1 in
      let v : ℕ = change (entry base i s.dev) in
      let fits : v < word64 = small (entry base i s.dev) (entry-lt base i s.dev) in
      let high = write64-reg base i (i + 1) v d1 fits in
      let low = write64-reg base i i v d1 fits in
      rw (found, read64-entry base i s.dev)
        (record {
          status = refl;
          changed = ground (arith, high, low);
          others =
              λ j p q. ground (arith, write64-reg base i j v d1 fits, read64-reg base i j s.dev);
        })

  -- With no I/O APIC for the request, the functions return -1 and change nothing.
  pub update_rentry_unrouted :
      (irq : ℕ) (change : ℕ → ℕ) (s : Apic D)
      → get_by_irq irq s.ioapics ≡ none
      → update_rentry D irq change s ≡ (negsuc 0, s)
  unfolding update_rentry
  update_rentry_unrouted irq change s absent = rw absent
