-- ===== src/Array/Order.antt =====
-- `ArrayInsert` keeps an array in the order of its predicate, and loses no item.
use mathlib.Core.List.{Perm}
use mathlib.Core.List.Perm
use gewodsys.Base.{
  ℕ, ◌+◌, ◌≤◌, ◌<◌, ◌≡◌, fun_ext, arith, List, [], ◌∷◌, Bool, Bool-cases, inl, inr, ltb, word32,
  word64,
}
use gewodsys.Rt.{Mem}
use gewodsys.Array.{OrderedArray, insert}
use gewodsys.Array.Insert.{contents, insert_sorted, contents-insert}

abbrev pub AllFrom : (ℕ → ℕ) → ℕ → List ℕ → Type 0
AllFrom key b [] = Unit
AllFrom key b (x ∷ xs) = (b ≤ key x) × AllFrom key b xs

abbrev pub IsSorted : (ℕ → ℕ) → List ℕ → Type 0
IsSorted key [] = Unit
IsSorted key (x ∷ xs) = AllFrom key (key x) xs × IsSorted key xs

module _ (key : ℕ → ℕ) where
  AllFrom-mono : (b c : ℕ) (xs : List ℕ) → b ≤ c → AllFrom key c xs → AllFrom key b xs
  AllFrom-mono b c [] h all = tt
  AllFrom-mono b c (x ∷ xs) h all = (omega arith, AllFrom-mono b c xs h all.1)

  AllFrom-insert_sorted :
      (b x : ℕ) (xs : List ℕ)
      → b ≤ key x
      → AllFrom key b xs
      → AllFrom key b (insert_sorted (λ y z. ltb (key y) (key z)) x xs)
  AllFrom-insert_sorted b x [] h all = (h, tt)
  AllFrom-insert_sorted b x (y ∷ ys) h all = elim (Bool-cases (ltb (key y) (key x))) [
    | inl e ↦ rw e (all.0, AllFrom-insert_sorted b x ys h all.1)
    | inr e ↦ rw e (h, all)
  ]

  insert_sorted-IsSorted :
      (x : ℕ) (xs : List ℕ)
      → IsSorted key xs
      → IsSorted key (insert_sorted (λ y z. ltb (key y) (key z)) x xs)
  insert_sorted-IsSorted x [] s = (tt, tt)
  insert_sorted-IsSorted x (y ∷ ys) s = elim (Bool-cases (ltb (key y) (key x))) [
    | inl e ↦
        rw e
          (AllFrom-insert_sorted (key y) x ys (ground arith) s.0, insert_sorted-IsSorted x ys s.1)
    | inr e ↦ rw e ((ground arith, AllFrom-mono (key x) (key y) ys (ground arith) s.0), s)
  ]

pub insert_sorted-perm :
    (p : ℕ → ℕ → Bool) (x : ℕ) (xs : List ℕ) → Perm (insert_sorted p x xs) (x ∷ xs)
insert_sorted-perm p x [] = Perm.refl (x ∷ [])
insert_sorted-perm p x (y ∷ ys) = elim (Bool-cases (p y x)) [
  | inl e ↦ rw e (Perm.trans (Perm.cons y (insert_sorted-perm p x ys)) (Perm.swap x y ys))
  | inr e ↦ rw e (Perm.refl (x ∷ y ∷ ys))
]

-- Where the predicate compares the items by a key, and the count does not wrap, `ArrayInsert` keeps
-- the array sorted by that key, and its items are the old ones and the new.
pub insert-IsSorted :
    (key : ℕ → ℕ) (a : OrderedArray) (x : ℕ) (m : Mem)
    → ((y z : ℕ) → a.predicate y z m ≡ ltb (key y) (key z))
    → x < word64
    → a.size + 1 < word32
    → IsSorted key (contents a m)
    → IsSorted key (contents (insert a x m).0 (insert a x m).1)
      × Perm (contents (insert a x m).0 (insert a x m).1) (x ∷ contents a m)
insert-IsSorted key a x m by_key small fits sorted =
    let e = fun_ext λ y. fun_ext λ z. by_key y z in
    rw (contents-insert a x m small fits, e)
      (
        insert_sorted-IsSorted key x (contents a m) sorted,
        insert_sorted-perm (λ y z. ltb (key y) (key z)) x (contents a m),
      )
