-- ===== src/Heap/Grant.antt =====
-- `HeapAllocate` on a heap where a hole has room.
use mathlib.Core.List.{Mem, mem-cons_self}
use mathlib.Core.List.Perm
use mathlib.Core.Path.{subst}
use gewodsys.Base.{
  Bool, true, ℕ, suc, ◌+◌, ◌≤◌, ◌<◌, ◌≡◌, refl, ap, ◌∙◌, arith, false, Option, none, some, List,
  ◌∷◌, ◌++◌, word64,
}
use gewodsys.Array.{get}
use gewodsys.Pmm.{add64}
use gewodsys.Heap.{Kernel, size_of, find_smallest_hole}
use gewodsys.Heap.Allocate.{allocate, carve}
use gewodsys.Heap.Search.{First, find_hole-First, BestFit, find_smallest_hole-BestFit}
use gewodsys.Heap.Tiling.{Block}
use gewodsys.Heap.Split.{pieces}
use gewodsys.Heap.Index.{holes, find_block, index_of, items-without}
use gewodsys.Heap.Invariant.{IsHeap, size_of-block}
use gewodsys.Heap.Allocation.{carve-IsHeap}

-- A grant of `size` bytes from a hole with room: the address behind the header, and the heap with the
-- hole in pieces. Where the index is in order, no hole with room is smaller.
pub record Granted (ordered : Bool) (size : ℕ) (k : Kernel) (bs : List Block)
    (o : Option (ℕ × Kernel)) : Type 0 where
  pub before : List Block
  pub block : Block
  pub behind : List Block
  pub after : Kernel
  pub split : bs ≡ before ++ block ∷ behind
  pub kind : block.hole ≡ 1
  pub room : size + 32 ≤ block.bytes
  pub least :
      ordered ≡ true
      → (a : ℕ) → Mem a (holes bs)
      → size + 32 ≤ size_of a k.mem
      → block.bytes ≤ size_of a k.mem
  pub result : o ≡ some (block.at + 16, after)
  pub keeps : IsHeap ordered after (before ++ (pieces size block ++ behind))

-- The index of a hole with room, than which no other with room is smaller where the index is in order.
abbrev Chosen : Bool → ℕ → Kernel → ℕ → Type 0
Chosen o need k i =
    (i < k.heap.index.size)
    × (need ≤ size_of (get k.heap.index i k.mem) k.mem)
    × (o ≡ true → BestFit need k.heap k.mem (some i))

module _ (o : Bool) (size : ℕ) (k : Kernel) (bs : List Block) (h : IsHeap o k bs) where
  -- A hole is the entry at some index.
  pub listed_at :
      (a : ℕ)
      → Mem a (holes bs)
      → (j : ℕ) × (j < k.heap.index.size) × (get k.heap.index j k.mem ≡ a)
  unfolding get
  listed_at a entry =
      index_of a k.heap.index.size k.heap.index.array k.mem ((Perm.mem_iff h.listed).1 entry)

  pub listed_entry : (i : ℕ) → i < k.heap.index.size → Mem (get k.heap.index i k.mem) (holes bs)
  unfolding get
  listed_entry i lt = (Perm.mem_iff h.listed).0 (
      (Perm.mem_iff (items-without i k.heap.index.size k.heap.index.array k.mem lt)).1
        mem-cons_self)

  grant : (i : ℕ) → Chosen o (size + 32) k i → Granted o size k bs (some (carve size false i k))
  grant i (inside, fit, best) =
      let pos = get k.heap.index i k.mem in
      let f = find_block pos bs (listed_entry i inside) in
      let split : IsHeap o k (f.before ++ f.block ∷ f.behind) = subst (IsHeap o k) f.split h in
      let bytes : size_of pos k.mem ≡ f.block.bytes =
        rw f.here at (size_of-block o k f.before f.behind f.block split) in
      let roomy : size + 32 ≤ f.block.bytes = omega (arith, bytes, fit) in
      let run =
        carve-IsHeap o size i k f.before f.behind f.block split inside f.here f.kind roomy in
      record {
        before = f.before;
        block = f.block;
        behind = f.behind;
        after = (carve size false i k).1;
        split = f.split;
        kind = f.kind;
        room = roomy;
        least = λ order a entry room.
            let (j, lt, same) = listed_at a entry in
            let fit : size_of pos k.mem ≤ size_of (get k.heap.index j k.mem) k.mem =
              (best order).2 j lt (rw same room) in
            rw (← bytes) (rw same at fit);
        result = ap (λ p. some (p, (carve size false i k).1)) run.0;
        keeps = run.1;
      }

  chosen :
      (a : ℕ)
      → Mem a (holes bs)
      → size + 32 ≤ size_of a k.mem
      → (r : Option ℕ) → First (size + 32) k.heap.index k.mem k.heap.index.size 0 r
      → (o ≡ true → BestFit (size + 32) k.heap k.mem r)
      → (i : ℕ) × (r ≡ some i) × Chosen o (size + 32) k i
  chosen a entry room none first best =
      let (j, lt, same) = listed_at a entry in
      absurd (omega (arith, rw same at (first j (omega arith) (omega (arith, lt))), room))
  chosen a entry room (some i) first best = (i, refl, (omega (arith, first.1), first.2, best))

allocate_found :
    (fuel size i : ℕ) (k : Kernel)
    → find_smallest_hole (add64 (add64 size 16) 16) false k.heap k.mem ≡ some i
    → allocate (suc fuel) size false k ≡ some (carve size false i k)
unfolding allocate
allocate_found fuel size i k o = rw (allocate, o) refl

-- Where a hole of a well-formed heap has room, `HeapAllocate` without alignment grants the block at
-- once: it returns the address behind the header of a hole with room, and leaves the heap well formed,
-- with this hole in two or, where less than 32 bytes would be left, the whole hole as the block. Where
-- the index is in the order of the sizes, the hole is the smallest with room, and the order is kept.
pub allocate-Granted :
    (o : Bool) (fuel size a : ℕ) (k : Kernel) (bs : List Block)
    → IsHeap o k bs
    → Mem a (holes bs)
    → size + 32 ≤ size_of a k.mem
    → size + 32 < word64
    → Granted o size k bs (allocate (suc fuel) size false k)
unfolding find_smallest_hole
allocate-Granted o fuel size a k bs h entry room fits =
    let need : add64 (add64 size 16) 16 ≡ size + 32 = omega arith in
    let (i, found, best) =
      chosen o size k bs h a entry room (find_smallest_hole (size + 32) false k.heap k.mem)
        (find_hole-First (size + 32) k.heap.index k.mem k.heap.index.size 0)
        (λ e. find_smallest_hole-BestFit (size + 32) k.heap k.mem (h.sorted e)) in
    let same = ap (λ n. find_smallest_hole n false k.heap k.mem) need ∙ found in
    rw (allocate_found fuel size i k same) (grant o size k bs h i best)
