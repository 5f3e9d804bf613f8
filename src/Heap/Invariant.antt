-- ===== src/Heap/Invariant.antt =====
-- The invariant of the heap: its blocks, the holes among them, and the index.
use mathlib.Core.List.{Perm, Mem}
use mathlib.Core.List.Perm
use gewodsys.Base.{
  Bool, true, ℕ, ◌+◌, ◌*◌, ◌≤◌, ◌<◌, ◌≡◌, ◌∙◌, inl, arith, List, ◌∷◌, ◌++◌, word32, word64,
}
use gewodsys.Rt
use gewodsys.Rt.{load}
use gewodsys.Array.{OrderedArray, insert}
use gewodsys.Array.Insert.{contents, contents-insert}
use gewodsys.Array.Order.{IsSorted, insert-IsSorted, insert_sorted-perm}
use gewodsys.Heap.{Kernel, size_of, header_predicate}
use gewodsys.Heap.Headers.{load-insert}
use gewodsys.Heap.Tiling.{Tiled-keep, Block, Tiled}
use gewodsys.Heap.Placed.{Tiled-Placed, Placed-split, Placed-same, insert-index, predicate-size_of}
use gewodsys.Heap.Index.{holes, IsSorted-keep}

-- The blocks tile the heap, the index lists the holes and lies below the heap, and the heap ends before
-- the end of the address space. Where `ordered` is true the index is in the order of the sizes.
pub record IsHeap (ordered : Bool) (k : Kernel) (bs : List Block) : Type 0 where
  pub tiled : Tiled k.mem k.heap.start_address k.heap.end_address bs
  pub listed : Perm (contents k.heap.index k.mem) (holes bs)
  pub sorted : ordered ≡ true → IsSorted (λ a. size_of a k.mem) (contents k.heap.index k.mem)
  pub by_size : k.heap.index.predicate ≡ header_predicate
  pub below : k.heap.index.array + 8 * k.heap.index.size ≤ k.heap.start_address
  pub count : k.heap.index.size < word32
  pub top : k.heap.end_address < word64

-- The header of a block of the heap holds its size.
pub size_of-block :
    (o : Bool) (k : Kernel) (xs ys : List Block) (b : Block)
    → IsHeap o k (xs ++ b ∷ ys)
    → size_of b.at k.mem ≡ b.bytes
size_of-block o k xs ys b h =
    let start = k.heap.start_address in
    (Placed-split start k.mem xs (b ∷ ys)
      (Tiled-Placed start start k.heap.end_address k.mem (xs ++ b ∷ ys) (omega arith) h.tiled)).1.1

-- A heap that is well formed but for a hole that is not in the index yet: the block at `x`.
pub record Ready (ordered : Bool) (start e : ℕ) (a : OrderedArray) (m : Rt.Mem) (x : ℕ)
    (bs : List Block) : Type 0 where
  pub tiled : Tiled m start e bs
  pub listed : Perm (x ∷ contents a m) (holes bs)
  pub sorted : ordered ≡ true → IsSorted (λ y. size_of y m) (contents a m)
  pub by_size : a.predicate ≡ header_predicate
  pub below : a.array + 8 * (a.size + 1) ≤ start
  pub count : a.size + 1 < word32
  pub top : e < word64
  pub fits : x < word64

-- The insertion into the index makes it well formed.
pub Ready-IsHeap :
    (o : Bool) (k : Kernel) (a : OrderedArray) (m : Rt.Mem) (x : ℕ) (bs : List Block)
    → Ready o k.heap.start_address k.heap.end_address a m x bs
    → let r = insert a x m in
      IsHeap o (record k { heap = record k.heap { index = r.0 }; mem = r.1 }) bs
Ready-IsHeap o k a m x bs h =
    let start = k.heap.start_address in
    let (f, m') = insert a x m in
    let same = λ (c u : ℕ) (lo : start ≤ c). load-insert a x u c m (inl (omega (arith, h.below))) in
    let t : Tiled m' start k.heap.end_address bs =
      Tiled-keep m m' start k.heap.end_address bs (λ c u lo hi. same c u lo) h.tiled in
    let placed = Tiled-Placed start start k.heap.end_address m' bs (omega arith) t in
    let added : Perm (contents f m') (x ∷ contents a m) =
      rw (contents-insert a x m h.fits h.count)
        (insert_sorted-perm (λ y z. a.predicate y z m) x (contents a m)) in
    let all = Perm.trans added h.listed in
    let sized = λ (y : ℕ) (entry : Mem y (contents f m')). same (y + 8) 8 (
      omega (arith, (Placed-same start y m' m' bs placed placed ((Perm.mem_iff all).0 entry)).0)) in
    let order = λ (e : o ≡ true).
      IsSorted-keep (λ y. size_of y m) (λ y. size_of y m') (contents f m') sized
        (insert-IsSorted (λ y. size_of y m) a x m (λ y z. predicate-size_of a m y z h.by_size)
          h.fits h.count (h.sorted e)).0 in
    let (one_array, one_more, q) = insert-index a x m h.count in
    record {
      tiled = t;
      listed = all;
      sorted = order;
      by_size = q ∙ h.by_size;
      below = omega (arith, one_array, one_more, h.below);
      count = omega (arith, one_more, h.count);
      top = h.top;
    }
