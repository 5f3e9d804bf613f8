-- ===== src/Array/Cells.antt =====
-- The pointers that an array holds, as a list.
use gewodsys.Base.{
  ℕ, zero, suc, ◌+◌, ◌*◌, ◌≤◌, ◌≡◌, refl, ap, ap₂, arith, List, [], ◌∷◌, ◌++◌, take, length,
}
use gewodsys.Rt.{Mem, load, store}
use gewodsys.Rt.Words.{load-store_ne, Apart}

abbrev pub items : ℕ → ℕ → Mem → List ℕ
items zero p m = []
items (suc n) p m = load 8 p m ∷ items n (p + 8) m

pub length-items : (n p : ℕ) (m : Mem) → length (items n p m) ≡ n
length-items zero p m = refl
length-items (suc n) p m = ap suc (length-items n (p + 8) m)

pub items-store :
    (n p a v : ℕ) (m : Mem) → Apart a 8 p (8 * n) → items n p (store 8 a v m) ≡ items n p m
items-store zero p a v m apart = refl
items-store (suc n) p a v m apart =
    ap₂ ◌∷◌ (load-store_ne 8 8 a v p m (grind arith)) (items-store n (p + 8) a v m (grind arith))

pub items-add : (j k p : ℕ) (m : Mem) → items (j + k) p m ≡ items j p m ++ items k (p + 8 * j) m
items-add zero k p m =
    let e : 0 + k ≡ k = omega arith in let f : p + 8 * 0 ≡ p = omega arith in rw (e, f)
items-add (suc j) k p m =
    let e : suc j + k ≡ suc (j + k) = omega arith in
    let f : p + 8 * suc j ≡ p + 8 + 8 * j = omega arith in
    rw (e, f) (ap (λ xs. load 8 p m ∷ xs) (items-add j k (p + 8) m))

pub take-items : (j k p : ℕ) (m : Mem) → j ≤ k → take j (items k p m) ≡ items j p m
take-items zero k p m h = refl
take-items (suc j) zero p m h = absurd (omega arith)
take-items (suc j) (suc k) p m h =
    ap (λ xs. load 8 p m ∷ xs) (take-items j k (p + 8) m (omega arith))

-- The items stay where their bytes do.
pub items-keep :
    (n p : ℕ) (m m' : Mem)
    → ((b u : ℕ) → p ≤ b → b + u ≤ p + 8 * n → load u b m' ≡ load u b m)
    → items n p m' ≡ items n p m
items-keep zero p m m' same = refl
items-keep (suc n) p m m' same =
    ap₂ ◌∷◌ (same p 8 (omega arith) (omega arith))
      (items-keep n (p + 8) m m' λ b u lo hi. same b u (omega arith) (omega arith))
