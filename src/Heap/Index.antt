-- ===== src/Heap/Index.antt =====
-- The entries of the heap's index, and the holes among the blocks.
use mathlib.Core.Logic.Or
use mathlib.Core.List.Perm
use mathlib.Core.List.{
  Perm, Mem, Mem-prop, mem-cons_self, mem-cons_of_mem, eq-or-mem_of_mem-cons, not-mem-nil,
}
use gewodsys.Base.{
  ℕ, zero, suc, ◌+◌, ◌*◌, ◌<◌, ◌≡◌, ◌≢◌, refl, sym, ap, inl, inr, arith, Bool-cases, ◌==◌, ==_iff,
  if◌then◌else◌, List, [], ◌∷◌, ◌++◌, take, drop,
}
use gewodsys.Rt
use gewodsys.Rt.{load}
use gewodsys.Array.Cells.{items}
use gewodsys.Array.Order.{AllFrom, IsSorted}
use gewodsys.Heap.Tiling.{Block}

-- The addresses of the holes.
abbrev pub holes : List Block → List ℕ
holes [] = []
holes (b ∷ bs) = if b.hole == 1 then b.at ∷ holes bs else holes bs

pub holes-append : (xs ys : List Block) → holes (xs ++ ys) ≡ holes xs ++ holes ys
holes-append [] ys = refl
holes-append (b ∷ xs) ys = elim (Bool-cases (b.hole == 1)) [
  | inl e ↦ rw e (ap (λ l. b.at ∷ l) (holes-append xs ys))
  | inr e ↦ rw e (holes-append xs ys)
]

pub Mem-tail : (a x : ℕ) (l : List ℕ) → Mem a (x ∷ l) → a ≢ x → Mem a l
Mem-tail a x l m ne = Or.elim Mem-prop (eq-or-mem_of_mem-cons m) (λ e. absurd (ne e)) (λ t. t)

-- A hole at an address among the blocks.
pub record Found (a : ℕ) (bs : List Block) : Type 0 where
  pub before : List Block
  pub block : Block
  pub behind : List Block
  pub split : bs ≡ before ++ block ∷ behind
  pub here : block.at ≡ a
  pub kind : block.hole ≡ 1

later : (a : ℕ) (b : Block) (bs : List Block) → Found a bs → Found a (b ∷ bs)
later a b bs f = record {
  before = b ∷ f.before;
  block = f.block;
  behind = f.behind;
  split = ap (λ l. b ∷ l) f.split;
  here = f.here;
  kind = f.kind;
}

pub find_block : (a : ℕ) (bs : List Block) → Mem a (holes bs) → Found a bs
find_block a [] m = absurd (not-mem-nil m)
find_block a (b ∷ bs) m = elim (Bool-cases (b.hole == 1)) [
  | inr e ↦ later a b bs (find_block a bs (rw e at m))
  | inl e ↦
      let inside : Mem a (b.at ∷ holes bs) = rw e at m in
      elim (Bool-cases (a == b.at)) [
        | inl here ↦ record {
          before = [];
          block = b;
          behind = bs;
          split = refl;
          here = sym ((==_iff a b.at).0 here);
          kind = (==_iff b.hole 1).0 e;
        }
        | inr there ↦
            later a b bs
              (find_block a bs (Mem-tail a b.at (holes bs) inside (λ p. ground (arith, p))))
      ]
]

-- An entry is at some index.
pub index_of :
    (a n p : ℕ) (m : Rt.Mem) → Mem a (items n p m) → (j : ℕ) × (j < n) × (load 8 (p + 8 * j) m ≡ a)
index_of a zero p m t = absurd (not-mem-nil t)
index_of a (suc n) p m t = elim (Bool-cases (a == load 8 p m)) [
  | inl here ↦
      let e : p + 8 * 0 ≡ p = omega arith in
      (0, omega arith, rw e (sym ((==_iff a (load 8 p m)).0 here)))
  | inr there ↦
      let (j, lt, at) =
        index_of a n (p + 8) m
          (Mem-tail a (load 8 p m) (items n (p + 8) m) t (λ q. ground (arith, q))) in
      let e : p + 8 * (j + 1) ≡ p + 8 + 8 * j = omega arith in (j + 1, omega arith, rw e at)
]

-- Taking an entry out, on lists.
abbrev pub without : ℕ → List ℕ → List ℕ
without i [] = []
without zero (x ∷ l) = l
without (suc i) (x ∷ l) = x ∷ without i l

pub take-drop-without : (i : ℕ) (l : List ℕ) → take i l ++ drop (i + 1) l ≡ without i l
take-drop-without zero [] = refl
take-drop-without (suc i) [] = let e : suc i + 1 ≡ suc (i + 1) = omega arith in rw e refl
take-drop-without zero (x ∷ l) = refl
take-drop-without (suc i) (x ∷ l) =
    let e : suc i + 1 ≡ suc (i + 1) = omega arith in rw e (ap (λ t. x ∷ t) (take-drop-without i l))

pub items-without :
    (i n p : ℕ) (m : Rt.Mem)
    → i < n
    → Perm (items n p m) (load 8 (p + 8 * i) m ∷ without i (items n p m))
items-without i zero p m lt = absurd (omega arith)
items-without zero (suc n) p m lt =
    let e : p + 8 * 0 ≡ p = omega arith in rw e (Perm.refl (items (suc n) p m))
items-without (suc i) (suc n) p m lt =
    let e : p + 8 * suc i ≡ p + 8 + 8 * i = omega arith in
    let rest = items-without i n (p + 8) m (omega arith) in
    rw e (
      Perm.trans (Perm.cons (load 8 p m) rest)
        (Perm.swap (load 8 (p + 8 + 8 * i) m) (load 8 p m) (without i (items n (p + 8) m))))

AllFrom-without :
    (key : ℕ → ℕ) (b i : ℕ) (l : List ℕ) → AllFrom key b l → AllFrom key b (without i l)
AllFrom-without key b i [] all = tt
AllFrom-without key b zero (x ∷ l) all = all.1
AllFrom-without key b (suc i) (x ∷ l) all = (all.0, AllFrom-without key b i l all.1)

pub IsSorted-without :
    (key : ℕ → ℕ) (i : ℕ) (l : List ℕ) → IsSorted key l → IsSorted key (without i l)
IsSorted-without key i [] s = tt
IsSorted-without key zero (x ∷ l) s = s.1
IsSorted-without key (suc i) (x ∷ l) s =
    (AllFrom-without key (key x) i l s.0, IsSorted-without key i l s.1)

AllFrom-keep :
    (f g : ℕ → ℕ) (b : ℕ) (l : List ℕ)
    → ((x : ℕ) → Mem x l → g x ≡ f x)
    → AllFrom f b l
    → AllFrom g b l
AllFrom-keep f g b [] same all = tt
AllFrom-keep f g b (x ∷ l) same all = (
  omega (arith, all.0, same x mem-cons_self),
  AllFrom-keep f g b l (λ y t. same y (mem-cons_of_mem x t)) all.1,
)

-- The order stays where the key of each entry does.
pub IsSorted-keep :
    (f g : ℕ → ℕ) (l : List ℕ) → ((x : ℕ) → Mem x l → g x ≡ f x) → IsSorted f l → IsSorted g l
IsSorted-keep f g [] same s = tt
IsSorted-keep f g (x ∷ l) same s =
    let tail = λ (y : ℕ) (t : Mem y l). same y (mem-cons_of_mem x t) in
    (AllFrom-keep f g (g x) l tail (rw (same x mem-cons_self) s.0), IsSorted-keep f g l tail s.1)
