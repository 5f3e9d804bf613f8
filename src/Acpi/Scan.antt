-- ===== src/Acpi/Scan.antt =====
-- What the searches find among the tables that the root table points at.
use gewodsys.Base.{
  ℕ, zero, suc, ◌+◌, ◌-◌, ◌≡◌, refl, inl, inr, arith, Bool-cases, false, ne→==, Option, none, some,
  ◌==◌, ==_iff, if◌then◌else◌, List, [], ◌∷◌,
}
use gewodsys.Rt.{Mem}
use gewodsys.Acpi.{
  Tables, madt_id, fadt_id, hpet_id, mcfg_id, dsdt_id, xsdt_address, signature, pointer, x_dsdt,
  rounds, keep_table, find_tables, tables, scan_loop, dsdt_loop, scan,
}

-- The tables with a signature, in the order of the pointers.
pub matching : Mem → ℕ → ℕ → ℕ → ℕ → List ℕ
matching m xsdt id zero i = []
matching m xsdt id (suc n) i =
    let header = pointer xsdt i m in
    let rest = matching m xsdt id n (i + 1) in
    if signature header m == id then header ∷ rest else rest

pub nth : List ℕ → ℕ → Option ℕ
nth [] i = none
nth (x ∷ xs) zero = some x
nth (x ∷ xs) (suc i) = nth xs i

pub last_or : ℕ → List ℕ → ℕ
last_or x [] = x
last_or x (y ∷ ys) = last_or y ys

-- What a search gives back for the table at `index`.
abbrev pub found_or : ℕ → Option ℕ → ℕ
found_or other none = other
found_or other (some x) = x

scan_loop-nth :
    (m : Mem) (xsdt id n i index : ℕ)
    → scan_loop m xsdt id n i index ≡ nth (matching m xsdt id n i) index
unfolding scan_loop matching nth
scan_loop-nth m xsdt id zero i index = refl
scan_loop-nth m xsdt id (suc n) i index = elim (Bool-cases (signature (pointer xsdt i m) m == id)) [
  | inr e ↦ rw e (scan_loop-nth m xsdt id n (i + 1) index)
  | inl e ↦ rw e (here (λ j. scan_loop-nth m xsdt id n (i + 1) j) index)
]
  where
    here :
        ((j : ℕ) → scan_loop m xsdt id n (i + 1) j ≡ nth (matching m xsdt id n (i + 1)) j)
        → (index : ℕ)
        → (if index == 0
            then some (pointer xsdt i m)
            else scan_loop m xsdt id n (i + 1) (index - 1))
          ≡ nth (pointer xsdt i m ∷ matching m xsdt id n (i + 1)) index
    here rest zero = refl
    here rest (suc j) =
        let less : suc j - 1 ≡ j = omega arith in
        let later : (suc j == 0) ≡ false = ne→== (suc j) 0 (omega arith) in
        rw (less, later) (rest j)

-- The first entry of the list is what the second loop stops at.
dsdt_loop-nth :
    (m : Mem) (xsdt n i other : ℕ)
    → found_or other (dsdt_loop m xsdt n i)
      ≡ (elim (nth (matching m xsdt fadt_id n i) 0) as (λ _. ℕ) [
        | some fadt ↦ x_dsdt fadt m
        | none ↦ other
      ])
unfolding dsdt_loop matching nth
dsdt_loop-nth m xsdt zero i other = refl
dsdt_loop-nth m xsdt (suc n) i other =
    elim (Bool-cases (signature (pointer xsdt i m) m == fadt_id)) [
      | inl e ↦ rw e
      | inr e ↦ rw e (dsdt_loop-nth m xsdt n (i + 1) other)
    ]

-- What `laihost_scan` gives back is the table at `index` among those with the signature; where there is
-- none, the address that the first FADT holds for the DSDT if that is what is looked for; and else 0.
pub scan-nth :
    (rsdp id index : ℕ) (m : Mem)
    → let xsdt = xsdt_address rsdp m in
      let n = rounds xsdt m in
      let named = elim (nth (matching m xsdt fadt_id n 0) 0) as (λ _. ℕ) [
        | some fadt ↦ x_dsdt fadt m
        | none ↦ 0
      ] in
      scan rsdp id index m
      ≡ found_or (if id == dsdt_id then named else 0) (nth (matching m xsdt id n 0) index)
unfolding scan
scan-nth rsdp id index m =
    let xsdt = xsdt_address rsdp m in
    let n = rounds xsdt m in
    rw (scan, scan_loop-nth m xsdt id n 0 index)
      (go (dsdt_loop m xsdt n 0) (dsdt_loop-nth m xsdt n 0 0) (nth (matching m xsdt id n 0) index))
  where
    go :
        {named : ℕ} (d : Option ℕ)
        → found_or 0 d ≡ named
        → (o : Option ℕ)
        → (elim o as (λ _. ℕ) [
          | some header ↦ header
          | none ↦ if id == dsdt_id then elim d as (λ _. ℕ) [ some dsdt ↦ dsdt | none ↦ 0 ] else 0
        ])
          ≡ found_or (if id == dsdt_id then named else 0) o
    go d e (some header) = refl
    go none e none = rw (← e) refl
    go (some dsdt) e none = rw (← e) refl

-- Whether a table is the last of each kind, or the one from before where there is none.
abbrev pub LastOf : Mem → ℕ → ℕ → ℕ → Tables → Tables → Type 0
LastOf m xsdt n i t r =
    (r.madt ≡ last_or t.madt (matching m xsdt madt_id n i))
    × (r.fadt ≡ last_or t.fadt (matching m xsdt fadt_id n i))
    × (r.hpet ≡ last_or t.hpet (matching m xsdt hpet_id n i))
    × (r.mcfg ≡ last_or t.mcfg (matching m xsdt mcfg_id n i))

find_tables-LastOf :
    (m : Mem) (xsdt n i : ℕ) (t : Tables) → LastOf m xsdt n i t (find_tables m xsdt n i t)
unfolding find_tables keep_table matching last_or
find_tables-LastOf m xsdt zero i t = (refl, refl, refl, refl)
find_tables-LastOf m xsdt (suc n) i t =
    let header = pointer xsdt i m in
    let id = signature header m in
    let rest = λ (t' : Tables). find_tables-LastOf m xsdt n (i + 1) t' in
    elim (Bool-cases (id == madt_id)) [
      | inl e ↦
          let p : id ≡ madt_id = (==_iff _ _).0 e in
          rw (find_tables, p) (rest (record t { madt = header }))
      | inr e1 ↦ elim (Bool-cases (id == fadt_id)) [
        | inl e ↦
            let p : id ≡ fadt_id = (==_iff _ _).0 e in
            rw (find_tables, p) (rest (record t { fadt = header }))
        | inr e2 ↦ elim (Bool-cases (id == hpet_id)) [
          | inl e ↦
              let p : id ≡ hpet_id = (==_iff _ _).0 e in
              rw (find_tables, p) (rest (record t { hpet = header }))
          | inr e3 ↦ elim (Bool-cases (id == mcfg_id)) [
            | inl e ↦
                let p : id ≡ mcfg_id = (==_iff _ _).0 e in
                rw (find_tables, p) (rest (record t { mcfg = header }))
            | inr e4 ↦ rw (find_tables, e1, e2, e3, e4) (rest t)
          ]
        ]
      ]
    ]

-- `AcpiInitialize` goes on with the last table of each of the four signatures, and with 0 where the
-- root table points at none.
pub tables-LastOf :
    (rsdp : ℕ) (m : Mem)
    → let xsdt = xsdt_address rsdp m in
      LastOf m xsdt
        (rounds xsdt m)
        0
        (record { madt = 0; fadt = 0; hpet = 0; mcfg = 0 })
        (tables rsdp m)
unfolding tables
tables-LastOf rsdp m =
    let xsdt = xsdt_address rsdp m in
    find_tables-LastOf m xsdt (rounds xsdt m) 0 (record { madt = 0; fadt = 0; hpet = 0; mcfg = 0 })
