-- ===== src/Heap/Highest.antt =====
-- The search of `HeapAllocate` for the entry of the index with the highest address.
use mathlib.Core.List.{Mem, not-mem-nil}
use gewodsys.Heap.Tiling.{Block, Tiled, Tiled-split, Tiled-le}
use gewodsys.Heap.Index.{holes, Mem-tail}
use gewodsys.Base.{
  ℕ, zero, suc, ◌+◌, ◌≤◌, ◌<◌, ◌≡◌, refl, inl, inr, arith, Bool-cases, false, ltb, ◌==◌, ==_iff,
  Option, none, some, List, [], ◌∷◌, ◌++◌, ◌≢◌,
}
use gewodsys.Rt
use gewodsys.Array.{OrderedArray, get}
use gewodsys.Heap.Allocate.{highest}

-- Of the first `i` entries none is above `value`, which is that of the entry found, or 0.
abbrev Best : OrderedArray → Rt.Mem → ℕ → ℕ → Option ℕ → Type 0
Best index m i value none = ((l : ℕ) → l < i → get index l m ≤ value) × (value ≡ 0)
Best index m i value (some j) =
    ((l : ℕ) → l < i → get index l m ≤ value) × (j < i) × (get index j m ≡ value)

Best-le :
    (index : OrderedArray) (m : Rt.Mem) (i value : ℕ) (r : Option ℕ)
    → Best index m i value r
    → (l : ℕ) → l < i
    → get index l m ≤ value
Best-le index m i value none b = b.0
Best-le index m i value (some j) b = b.0

highest-Best :
    (index : OrderedArray) (m : Rt.Mem) (n i value : ℕ) (found : Option ℕ)
    → Best index m i value found
    → (top : ℕ) × Best index m (i + n) top (highest index m n i value found)
unfolding highest
highest-Best index m zero i value found b = let e : i + 0 ≡ i = omega arith in rw e (value, b)
highest-Best index m (suc n) i value found b =
    let e : i + suc n ≡ i + 1 + n = omega arith in
    let tmp : ℕ = get index i m in
    elim (Bool-cases (ltb value tmp)) [
      | inl taller ↦
          rw (e, taller)
            (highest-Best index m n (i + 1) tmp (some i) (
              λ l lt.
                  step l lt
                    (λ before. ground (arith, Best-le index m i value found b l before, taller))
                    (omega arith),
              omega arith,
              refl,
            ))
      | inr not ↦ rw (e, not) (highest-Best index m n (i + 1) value found (same found b not))
    ]
  where
    step :
        (l : ℕ) {top : ℕ}
        → l < i + 1
        → (l < i → get index l m ≤ top)
        → get index i m ≤ top
        → get index l m ≤ top
    step l {top} lt before here = elim (Bool-cases (l == i)) [
      | inl e ↦ let p : l ≡ i = (==_iff l i).0 e in rw p here
      | inr e ↦ before (ground arith)
    ]

    same :
        (r : Option ℕ)
        → Best index m i value r
        → ltb value (get index i m) ≡ false
        → Best index m (i + 1) value r
    same none b not = (λ l lt. step l lt (b.0 l) (ground arith), b.1)
    same (some j) b not = (λ l lt. step l lt (b.0 l) (ground arith), omega (arith, b.1), b.2)

-- The entry that is found is one that no other is above; none is found only where all are 0.
pub highest_lem :
    (index : OrderedArray) (m : Rt.Mem) (j : ℕ)
    → j < index.size
    → 0 < get index j m
    → ((l : ℕ) → l < index.size → get index l m ≤ get index j m)
    → (i : ℕ) × (highest index m index.size 0 0 none ≡ some i) × (get index i m ≡ get index j m)
highest_lem index m j lt some_address above =
    let (top, best) =
      highest-Best index m index.size 0 0 none (λ l lt. absurd (omega arith), refl) in
    go top (highest index m index.size 0 0 none) best
  where
    go :
        (top : ℕ) (r : Option ℕ)
        → Best index m (0 + index.size) top r
        → (i : ℕ) × (r ≡ some i) × (get index i m ≡ get index j m)
    go top none best = absurd (omega (arith, best.0 j (omega arith), best.1, some_address))
    go top (some i) best =
        (i, refl, omega (arith, best.0 j (omega arith), above i (omega (arith, best.1)), best.2))

-- A hole elsewhere is among the blocks behind.
among : (x : ℕ) (c : Block) (bs : List Block) → Mem x (holes (c ∷ bs)) → x ≢ c.at → Mem x (holes bs)
among x c bs entry ne = elim (Bool-cases (c.hole == 1)) [
  | inl hole ↦ Mem-tail x c.at (holes bs) (rw hole at entry) ne
  | inr used ↦ rw used at entry
]

-- No hole lies behind the last block.
pub holes-last :
    (m : Rt.Mem) (s e x : ℕ) (xs : List Block) (b : Block)
    → Tiled m s e (xs ++ (b ∷ []))
    → Mem x (holes (xs ++ (b ∷ [])))
    → x ≤ b.at
holes-last m s e x [] b t entry = elim (Bool-cases (x == b.at)) [
  | inl here ↦ ground (arith, here)
  | inr there ↦ absurd (not-mem-nil (among x b [] entry (λ p. ground (arith, p, there))))
]
holes-last m s e x (c ∷ xs) b t entry =
    let (mid, left, (at, _, _)) = Tiled-split m (s + c.bytes) e xs (b ∷ []) t.2 in
    let le = Tiled-le m (s + c.bytes) mid xs left in
    elim (Bool-cases (x == c.at)) [
      | inl here ↦ let p : x ≡ c.at = (==_iff x c.at).0 here in omega (arith, p, le, at, t.0)
      | inr there ↦
          holes-last m (s + c.bytes) e x xs b t.2
            (among x c (xs ++ (b ∷ [])) entry (λ p. ground (arith, p, there)))
    ]
