-- ===== src/Heap/Allocation.antt =====
-- `HeapAllocate` that carves a block from a hole, on the invariant of the heap.
use mathlib.Core.List.{Perm, Mem, perm_middle}
use mathlib.Core.List.Perm
use gewodsys.Base.{
  Bool, true, ℕ, ◌+◌, ◌-◌, ◌*◌, ◌≤◌, ◌<◌, ◌≡◌, refl, sym, ap, ◌∙◌, inl, inr, arith, false,
  Bool-cases, ltb, eq→==, lt→ltb, le→ltb, List, [], ◌∷◌, ◌++◌,
}
use gewodsys.Rt
use gewodsys.Rt.{load}
use gewodsys.Array.{OrderedArray, get, insert, remove}
use gewodsys.Array.Cells.{items-keep}
use gewodsys.Array.Insert.{contents}
use gewodsys.Array.Remove.{contents-remove}
use gewodsys.Heap.{Kernel, size_of}
use gewodsys.Heap.Allocate.{carve}
use gewodsys.Heap.Carve.{write_block, load-write_block, carve_whole, carve_split, split_mem}
use gewodsys.Heap.Headers.{load-insert}
use gewodsys.Heap.Tiling.{Tiled-keep, Block, used, free_block, Tiled}
use gewodsys.Heap.Split.{pieces, carve-Tiled, bounds, split-load, emptied-index, final-load}
use gewodsys.Heap.Placed.{Placed, Tiled-Placed, Placed-split, Placed-join, Placed-same}
use gewodsys.Heap.Index.{
  holes, holes-append, without, take-drop-without, items-without, IsSorted-without, IsSorted-keep,
}
use gewodsys.Heap.Invariant.{IsHeap, Ready-IsHeap}

module _ (o : Bool) (size i : ℕ) (k : Kernel) (xs ys : List Block) (b : Block)
    (h : IsHeap o k (xs ++ b ∷ ys)) where
  abbrev index : OrderedArray
  index = k.heap.index

  abbrev start : ℕ
  start = k.heap.start_address

  abbrev pos : ℕ
  pos = get index i k.mem

  abbrev hole : ℕ
  hole = size_of pos k.mem

  abbrev emptied : OrderedArray × Rt.Mem
  emptied = remove index i k.mem

  abbrev r : ℕ × Kernel
  r = carve size false i k

  abbrev kept : List ℕ
  kept = without i (contents index k.mem)

  module _ (listed : i < index.size) (here : b.at ≡ pos) (kind : b.hole ≡ 1)
      (room : size + 32 ≤ b.bytes) where
    -- The other holes are those of the other blocks.
    kept-perm : Perm kept (holes (xs ++ ys))
    unfolding get
    kept-perm =
        let own : holes (b ∷ ys) ≡ pos ∷ holes ys =
          rw (eq→== b.hole 1 kind) (ap (λ a. a ∷ holes ys) here) in
        let all : Perm (contents index k.mem) (holes xs ++ pos ∷ holes ys) =
          rw (holes-append xs (b ∷ ys), own) at h.listed in
        rw (holes-append xs ys) (
          Perm.cons_inv (
            Perm.trans (Perm.symm (items-without i index.size index.array k.mem listed))
              (Perm.trans all (perm_middle (holes xs) (holes ys)))))

    -- The entries that stay, where nothing from the start of the heap on was written but above it.
    kept-contents :
        (m : Rt.Mem)
        → ((c u : ℕ) → c + u ≤ start → load u c m ≡ load u c emptied.1)
        → contents emptied.0 m ≡ kept
    kept-contents m same =
        let (same_array, fewer, p) = emptied-index size i k listed h.count in
        let low : emptied.0.array + 8 * emptied.0.size ≤ start =
          omega (arith, same_array, fewer, h.below) in
        items-keep emptied.0.size emptied.0.array emptied.1 m
          (λ c u lo hi. same c u (omega (arith, hi, low)))
        ∙ contents-remove index i k.mem listed h.count
        ∙ take-drop-without i (contents index k.mem)

    old-Placed : Placed start k.mem (xs ++ ys)
    old-Placed =
        let p = Placed-split start k.mem xs (b ∷ ys) (
          Tiled-Placed start start k.heap.end_address k.mem (xs ++ b ∷ ys) (omega arith) h.tiled) in
        Placed-join start k.mem xs ys p.0 p.1.2

    inside : (start ≤ pos) × (pos + hole ≤ k.heap.end_address) × (b.bytes ≡ hole)
    inside =
        bounds size i k start k.heap.end_address xs ys b h.tiled here room listed h.count h.below
          refl h.top

    carved :
        (r.0 ≡ b.at + 16) × Tiled r.1.mem start k.heap.end_address (xs ++ (pieces size b ++ ys))
    carved =
        carve-Tiled size i k start k.heap.end_address xs ys b h.tiled here room listed h.count
          h.below refl h.top

    -- The holes that stay keep their sizes, whatever the blocks are that take the place of the hole.
    kept-size :
        (m : Rt.Mem) (zs : List Block) (x : ℕ)
        → Tiled m start k.heap.end_address (xs ++ (zs ++ ys))
        → Mem x kept
        → (start ≤ x) × (size_of x m ≡ size_of x k.mem)
    kept-size m zs x t entry =
        let p =
          Placed-split start m xs (zs ++ ys)
            (Tiled-Placed start start k.heap.end_address m (xs ++ (zs ++ ys)) (omega arith) t) in
        Placed-same start x k.mem m (xs ++ ys) old-Placed
          (Placed-join start m xs ys p.0 (Placed-split start m zs ys p.1).1)
          ((Perm.mem_iff kept-perm).0 entry)

    whole-IsHeap : hole < size + 64 → IsHeap o r.1 (xs ++ ((used b.at b.bytes ∷ []) ++ ys))
    whole-IsHeap tight =
        let (lo, hi, bytes) = inside in
        let m = write_block pos hole emptied.1 in
        let run =
          carve_whole size i k (omega (arith, bytes, room)) tight (omega (arith, hi, h.top)) in
        let same = kept-contents m (λ c u lt.
          load-write_block pos hole emptied.1 c u (omega (arith, bytes, room))
            (inr (omega (arith, lo)))) in
        let (same_array, fewer, p) = emptied-index size i k listed h.count in
        let t : Tiled m start k.heap.end_address (xs ++ ((used b.at b.bytes ∷ []) ++ ys)) =
          rw (run, lt→ltb b.bytes (size + 64) (omega (arith, bytes))) at carved.1 in
        let sized =
          λ (x : ℕ) (entry : Mem x kept). (kept-size m (used b.at b.bytes ∷ []) x t entry).1 in
        rw run (record {
          tiled = t;
          listed =
              rw (same, holes-append xs (used b.at b.bytes ∷ ys), ← holes-append xs ys) kept-perm;
          sorted = λ e. rw same (
              IsSorted-keep (λ a. size_of a k.mem) (λ a. size_of a m) kept sized
                (IsSorted-without (λ a. size_of a k.mem) i (contents index k.mem) (h.sorted e)));
          by_size = p ∙ h.by_size;
          below = omega (arith, same_array, fewer, h.below);
          count = omega (arith, fewer, h.count);
          top = h.top;
        })

    abbrev cut : List Block
    cut = used b.at (size + 32) ∷ free_block (b.at + (size + 32)) (b.bytes - (size + 32)) ∷ []

    -- The hole that is left joins the others.
    cut-perm : Perm ((pos + (size + 32)) ∷ kept) (holes (xs ++ (cut ++ ys)))
    cut-perm =
        let rest : ℕ = pos + (size + 32) in
        let others : Perm kept (holes xs ++ holes ys) = rw (holes-append xs ys) at kept-perm in
        let all : Perm (rest ∷ kept) (holes xs ++ (rest ∷ holes ys)) =
          Perm.trans (Perm.cons rest others) (Perm.symm (perm_middle (holes xs) (holes ys))) in
        rw (holes-append xs (cut ++ ys), here) all

    split-IsHeap : size + 64 ≤ hole → IsHeap o r.1 (xs ++ (cut ++ ys))
    split-IsHeap roomy =
        let (lo, hi, bytes) = inside in
        let e : ℕ = k.heap.end_address in
        let rest : ℕ = pos + (size + 32) in
        let m = split_mem size i k in
        let run = carve_split size i k roomy (omega (arith, hi, h.top)) (omega (arith, hi)) in
        let (same_array, fewer, p) = emptied-index size i k listed h.count in
        let (f, m') = insert emptied.0 rest m in
        let t : Tiled m' start e (xs ++ (cut ++ ys)) =
          rw (run, le→ltb b.bytes (size + 64) (omega (arith, bytes))) at carved.1 in
        let same = kept-contents m (λ c u lt.
          split-load size i k c u roomy (inr (omega (arith, lo)))
          ∙ load-write_block pos (size + 32) emptied.1 c u (omega arith)
              (inr (omega (arith, lo)))) in
        let sized = λ (x : ℕ) (above : start ≤ x).
          (final-load size i k start e xs ys b h.tiled here room listed h.count h.below refl h.top
            (x + 8) 8 roomy (inl (omega (arith, h.below)))) in
        let old = λ (x : ℕ) (entry : Mem x kept).
          let q = kept-size m' cut x t entry in sym (sized x q.0) ∙ q.1 in
        let order = λ (q : o ≡ true).
          IsSorted-keep (λ a. size_of a k.mem) (λ a. size_of a m) kept old
            (IsSorted-without (λ a. size_of a k.mem) i (contents index k.mem) (h.sorted q)) in
        let same_below : emptied.0.array + 8 * (emptied.0.size + 1) ≤ start =
          omega (arith, same_array, fewer, h.below) in
        rw run (
          Ready-IsHeap o k emptied.0 m rest (xs ++ (cut ++ ys)) (record {
            tiled =
                Tiled-keep m' m start e (xs ++ (cut ++ ys))
                  (λ c u lo hi.
                    sym (load-insert emptied.0 rest u c m (inl (omega (arith, same_below)))))
                  t;
            listed = rw same cut-perm;
            sorted = λ q. rw same (order q);
            by_size = p ∙ h.by_size;
            below = same_below;
            count = omega (arith, fewer, h.count);
            top = h.top;
            fits = omega (arith, hi, h.top);
          }))

    -- The allocation keeps the heap well formed.
    pub carve-IsHeap : (r.0 ≡ b.at + 16) × IsHeap o r.1 (xs ++ (pieces size b ++ ys))
    carve-IsHeap =
        let (lo, hi, bytes) = inside in
        elim (Bool-cases (ltb b.bytes (size + 64))) [
          | inl tight ↦ rw tight (carved.0, whole-IsHeap (ground (arith, bytes)))
          | inr roomy ↦ rw roomy (carved.0, split-IsHeap (ground (arith, bytes)))
        ]
