-- ===== src/Heap/Search.antt =====
-- `HeapFindSmallestHole` without alignment.
use gewodsys.Base.{
  ℕ, zero, suc, ◌+◌, ◌*◌, ◌≤◌, ◌<◌, ◌≡◌, inl, inr, arith, false, Bool-cases, ◌==◌, ==_iff, Option,
  none, some, leb,
}
use gewodsys.Rt.{Mem, load}
use gewodsys.Array.{OrderedArray, get}
use gewodsys.Array.Cells.{items}
use gewodsys.Array.Insert.{contents}
use gewodsys.Array.Order.{IsSorted, AllFrom}
use gewodsys.Heap.{Heap, size_of, find_hole, find_smallest_hole}

-- The holes before the result have no room, and the result has; with none, no hole has.
abbrev pub First : ℕ → OrderedArray → Mem → ℕ → ℕ → Option ℕ → Type 0
First need index m n i none = (j : ℕ) → i ≤ j → j < i + n → size_of (get index j m) m < need
First need index m n i (some k) =
    (i ≤ k)
    × (k < i + n)
    × (need ≤ size_of (get index k m) m)
    × ((j : ℕ) → i ≤ j → j < k → size_of (get index j m) m < need)

pub find_hole-First :
    (need : ℕ) (index : OrderedArray) (m : Mem) (n i : ℕ)
    → First need index m n i (find_hole need false index m n i)
unfolding find_hole
find_hole-First need index m zero i = λ j lo hi. absurd (omega arith)
find_hole-First need index m (suc n) i = elim (Bool-cases (leb need (size_of (get index i m) m))) [
  | inl room ↦ rw room (omega arith, omega arith, ground arith, λ j lo hi. absurd (omega arith))
  | inr full ↦ rw full (
      step (find_hole need false index m n (i + 1)) (find_hole-First need index m n (i + 1))
        (ground arith))
]
  where
    here_or_later :
        (small : size_of (get index i m) m < need) (j : ℕ)
        → i ≤ j
        → (i + 1 ≤ j → size_of (get index j m) m < need)
        → size_of (get index j m) m < need
    here_or_later small j lo rest = elim (Bool-cases (i == j)) [
      | inl e ↦ let p : i ≡ j = (==_iff i j).0 e in rw (← p) small
      | inr e ↦ rest (ground arith)
    ]

    step :
        (o : Option ℕ)
        → First need index m n (i + 1) o
        → size_of (get index i m) m < need
        → First need index m (suc n) i o
    step none rest small = λ j lo hi. here_or_later small j lo λ l. rest j l (omega arith)
    step (some k) rest small = (
      omega (arith, rest.0),
      omega (arith, rest.1),
      rest.2,
      λ j lo hi. here_or_later small j lo λ l. rest.3 j l hi,
    )

AllFrom-items :
    (key : ℕ → ℕ) (b n p j : ℕ) (m : Mem)
    → AllFrom key b (items n p m)
    → j < n
    → b ≤ key (load 8 (p + 8 * j) m)
AllFrom-items key b zero p j m all lt = absurd (omega arith)
AllFrom-items key b (suc n) p zero m all lt = let e : p + 8 * 0 ≡ p = omega arith in rw e all.0
AllFrom-items key b (suc n) p (suc j) m all lt =
    let e : p + 8 * suc j ≡ p + 8 + 8 * j = omega arith in
    rw e (AllFrom-items key b n (p + 8) j m all.1 (omega arith))

IsSorted-items :
    (key : ℕ → ℕ) (n p i j : ℕ) (m : Mem)
    → IsSorted key (items n p m)
    → i ≤ j
    → j < n
    → key (load 8 (p + 8 * i) m) ≤ key (load 8 (p + 8 * j) m)
IsSorted-items key zero p i j m sorted le lt = absurd (omega arith)
IsSorted-items key (suc n) p zero zero m sorted le lt = omega arith
IsSorted-items key (suc n) p zero (suc j) m sorted le lt =
    let e : p + 8 * 0 ≡ p = omega arith in
    let f : p + 8 * suc j ≡ p + 8 + 8 * j = omega arith in
    rw (e, f) (AllFrom-items key (key (load 8 p m)) n (p + 8) j m sorted.0 (omega arith))
IsSorted-items key (suc n) p (suc i) zero m sorted le lt = absurd (omega arith)
IsSorted-items key (suc n) p (suc i) (suc j) m sorted le lt =
    let e : p + 8 * suc i ≡ p + 8 + 8 * i = omega arith in
    let f : p + 8 * suc j ≡ p + 8 + 8 * j = omega arith in
    rw (e, f) (IsSorted-items key n (p + 8) i j m sorted.1 (omega arith) (omega arith))

-- What a search for a hole of `need` bytes may return: one with room that no hole with room is
-- smaller than, or none if no hole has room.
abbrev pub BestFit : ℕ → Heap → Mem → Option ℕ → Type 0
BestFit need h m none = (j : ℕ) → j < h.index.size → size_of (get h.index j m) m < need
BestFit need h m (some i) =
    (i < h.index.size)
    × (need ≤ size_of (get h.index i m) m)
    × ((j : ℕ)
        → j < h.index.size
        → need ≤ size_of (get h.index j m) m
        → size_of (get h.index i m) m ≤ size_of (get h.index j m) m)

-- Where the index is sorted by the size of the holes, `HeapFindSmallestHole` without alignment
-- returns the smallest hole with room, and none only if no hole has room.
pub find_smallest_hole-BestFit :
    (need : ℕ) (h : Heap) (m : Mem)
    → IsSorted (λ a. size_of a m) (contents h.index m)
    → BestFit need h m (find_smallest_hole need false h m)
unfolding find_smallest_hole get
find_smallest_hole-BestFit need h m sorted =
    go (find_hole need false h.index m h.index.size 0)
      (find_hole-First need h.index m h.index.size 0)
  where
    go : (o : Option ℕ) → First need h.index m h.index.size 0 o → BestFit need h m o
    go none all = λ j lt. all j (omega arith) (omega arith)
    go (some i) found = (
      omega (arith, found.1),
      found.2,
      λ j lt room. elim (Bool-cases (leb i j)) [
        | inl after ↦
            IsSorted-items (λ a. size_of a m) h.index.size h.index.array i j m sorted (ground arith)
              lt
        | inr before ↦ absurd (omega (arith, found.3 j (omega arith) (ground arith)))
      ],
    )
