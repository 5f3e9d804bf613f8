-- ===== src/Heap/Room.antt =====
-- `HeapAllocate` on a heap where no hole has room: it expands the heap, and then grants the block.
use mathlib.Core.Option
use mathlib.Core.List.{Mem, mem-cons_self, mem-append_right}
use mathlib.Core.Path.{subst}
use gewodsys.Base.{
  ℕ, suc, ◌+◌, ◌-◌, ◌*◌, ◌≤◌, ◌<◌, ◌≡◌, refl, ap, ◌∙◌, arith, Bool, false, eq→==, Option, none,
  some, List, [], ◌∷◌, ◌++◌, word32, word64,
}
use gewodsys.Array.{get}
use gewodsys.Pmm.{add64, sub64}
use gewodsys.Vmm.{Machine}
use gewodsys.Heap.{Kernel, size_of, expand, round_up, find_smallest_hole}
use gewodsys.Heap.Allocate.{allocate, grow_hole, highest}
use gewodsys.Heap.Search.{First, find_hole-First}
use gewodsys.Heap.Tiling.{Block, free_block, Tiled-split, Tiled-le}
use gewodsys.Heap.Index.{holes, holes-append}
use gewodsys.Heap.Invariant.{IsHeap, size_of-block}
use gewodsys.Heap.Grant.{Granted, listed_at, listed_entry, allocate-Granted}
use gewodsys.Heap.Highest.{highest_lem, holes-last}
use gewodsys.Heap.Expand.{
  round_up_lem, longer, expand_lem, grow_hole-none-IsHeap, grow_hole-some-IsHeap,
}

-- What the expansion makes of the blocks: a new hole at the end, where the index is empty, or a longer
-- one, where the last block is a hole.
pub data Grown (ordered : Bool) (k : Kernel) (more : ℕ)
    : List Block → Bool → List Block → Type 0 where
  new_hole :
      {bs : List Block}
      → k.heap.index.size ≡ 0
      → k.heap.index.array + 8 ≤ k.heap.start_address
      → Grown ordered k more bs ordered (bs ++ (free_block k.heap.end_address more ∷ []))
  longer_hole :
      (xs : List Block) (b : Block)
      → b.hole ≡ 1
      → Grown ordered k more (xs ++ (b ∷ [])) false (xs ++ (free_block b.at (b.bytes + more) ∷ []))

-- The bytes that the heap grows by for a block of `size` bytes.
abbrev pub growth : ℕ → Kernel → ℕ
growth size k =
    let old = k.heap.end_address - k.heap.start_address in round_up (old + (size + 32)) - old

-- Where no hole has room, none is found.
find_smallest_hole-none :
    (o : Bool) (size : ℕ) (k : Kernel) (bs : List Block)
    → IsHeap o k bs
    → ((a : ℕ) → Mem a (holes bs) → size_of a k.mem < size + 32)
    → find_smallest_hole (size + 32) false k.heap k.mem ≡ none
unfolding find_smallest_hole
find_smallest_hole-none o size k bs h full =
    go (find_smallest_hole (size + 32) false k.heap k.mem)
      (find_hole-First (size + 32) k.heap.index k.mem k.heap.index.size 0)
  where
    go : (r : Option ℕ) → First (size + 32) k.heap.index k.mem k.heap.index.size 0 r → r ≡ none
    go none first = refl
    go (some i) first =
        let inside : i < k.heap.index.size = omega (arith, first.1) in
        absurd (omega (arith, full _ (listed_entry o size k bs h i inside), first.2))

allocate-expand :
    (fuel size : ℕ) (k k1 : Kernel)
    → find_smallest_hole (add64 (add64 size 16) 16) false k.heap k.mem ≡ none
    → (let old = sub64 k.heap.end_address k.heap.start_address in
        expand fuel (add64 old (add64 (add64 size 16) 16)) k ≡ some k1)
    → let old = sub64 k.heap.end_address k.heap.start_address in
      let more = sub64 (sub64 k1.heap.end_address k1.heap.start_address) old in
      allocate (suc fuel) size false k
      ≡ allocate fuel size false (
          grow_hole
            (highest k1.heap.index k1.mem k1.heap.index.size 0 0 none)
            k.heap.end_address
            more
            k1)
unfolding allocate Option.bind
allocate-expand fuel size k k1 found e = rw (allocate, found, e) refl

module _ (o : Bool) (size : ℕ) (k : Kernel) (bs : List Block) (h : IsHeap o k bs) (s : Machine)
    (small : k.heap.end_address + (size + 32) < k.heap.start_address + word32)
    (top : k.heap.start_address + 2 * word32 < word64) where
  abbrev start : ℕ
  start = k.heap.start_address

  abbrev end_ : ℕ
  end_ = k.heap.end_address

  abbrev wanted : ℕ
  wanted = end_ - start + (size + 32)

  abbrev more : ℕ
  more = growth size k

  -- The heap behind the new pages.
  abbrev paged : Kernel
  paged = longer wanted s k

  -- How far the heap grows.
  growth_lem :
      (start ≤ end_)
      × (size + 32 ≤ more)
      × (end_ + more < word64)
      × (paged.heap.end_address ≡ end_ + more)
      × (wanted < word32)
  growth_lem =
      let le = Tiled-le k.mem start end_ bs h.tiled in
      let (lo, hi) = round_up_lem wanted (omega arith) in
      (le, omega (arith, lo), omega (arith, hi), omega (arith, lo, hi), omega arith)

  -- The heap is well formed then, and its last hole has room.
  abbrev Prepared : Bool → List Block → Kernel → Type 0
  Prepared p cs t = IsHeap p t cs × ((a : ℕ) × Mem a (holes cs) × (size + 32 ≤ size_of a t.mem))

  last-Prepared :
      (p : Bool) (g : Kernel) (cs : List Block) (a n : ℕ)
      → size + 32 ≤ n
      → IsHeap p g (cs ++ (free_block a n ∷ []))
      → Prepared p (cs ++ (free_block a n ∷ [])) g
  last-Prepared p g cs a n room t =
      let bytes = size_of-block p g cs [] (free_block a n) t in
      (
        t,
        (
          a,
          rw (holes-append cs (free_block a n ∷ [])) (mem-append_right (holes cs) mem-cons_self),
          omega (arith, bytes, room),
        ),
      )

  -- The heap behind the expansion.
  abbrev grown_heap : Kernel
  grown_heap = grow_hole (highest k.heap.index k.mem k.heap.index.size 0 0 none) end_ more paged

  new-Prepared :
      k.heap.index.size ≡ 0
      → k.heap.index.array + 8 ≤ start
      → Prepared o (bs ++ (free_block end_ more ∷ [])) grown_heap
  unfolding highest
  new-Prepared empty space =
      let (le, room, fits, new, _) = growth_lem in
      let found : highest k.heap.index k.mem k.heap.index.size 0 0 none ≡ none =
        ap (λ n. highest k.heap.index k.mem n 0 0 none) empty in
      rw found (
        last-Prepared o (grow_hole none end_ more paged) bs end_ more room (
          grow_hole-none-IsHeap o k bs wanted more s h (omega arith) fits new
            (omega (arith, empty, space)) (omega (arith, empty))))

  longer-Prepared :
      (xs : List Block) (b : Block)
      → bs ≡ xs ++ (b ∷ [])
      → b.hole ≡ 1
      → Prepared false (xs ++ (free_block b.at (b.bytes + more) ∷ [])) grown_heap
  unfolding get
  longer-Prepared xs b split hole =
      let (le, room, fits, new, _) = growth_lem in
      let t : IsHeap o k (xs ++ (b ∷ [])) = subst (IsHeap o k) split h in
      let own : holes (b ∷ []) ≡ b.at ∷ [] = rw (eq→== b.hole 1 hole) refl in
      let entry : Mem b.at (holes (xs ++ (b ∷ []))) =
        rw (holes-append xs (b ∷ []), own) (mem-append_right (holes xs) mem-cons_self) in
      let (j, lt, at) = listed_at o size k (xs ++ (b ∷ [])) t b.at entry in
      let (mid, left, (here, _, _)) = Tiled-split k.mem start end_ xs (b ∷ []) t.tiled in
      let lo = Tiled-le k.mem start mid xs left in
      let (i, found, same) =
        highest_lem k.heap.index k.mem j lt (omega (arith, at, here, lo, h.below, lt)) (λ l inside.
          rw at (
            holes-last k.mem start end_ _ xs b t.tiled
              (listed_entry o size k (xs ++ (b ∷ [])) t l inside))) in
      rw found (
        last-Prepared false (grow_hole (some i) end_ more paged) xs b.at (b.bytes + more)
          (omega (arith, room))
          (grow_hole-some-IsHeap o k xs b wanted more i s t hole (same ∙ at) fits new))

grow_hole-end :
    (r : Option ℕ) (e n : ℕ) (k : Kernel)
    → (grow_hole r e n k).heap.end_address ≡ k.heap.end_address
unfolding grow_hole
grow_hole-end none e n k = refl
grow_hole-end (some i) e n k = refl

Grown-Prepared :
    (o : Bool) (size : ℕ) (k : Kernel) (s : Machine) (bs : List Block) (p : Bool) (cs : List Block)
    (h : IsHeap o k bs) (small : k.heap.end_address + (size + 32) < k.heap.start_address + word32)
    (top : k.heap.start_address + 2 * word32 < word64)
    → Grown o k (growth size k) bs p cs
    → Prepared o size k bs h s small top p cs (grown_heap o size k bs h s small top)
Grown-Prepared o size k s bs p cs h small top (new_hole empty space) =
    new-Prepared o size k bs h s small top empty space
Grown-Prepared o size k s bs p cs h small top (longer_hole xs b hole) =
    longer-Prepared o size k (xs ++ (b ∷ [])) h s small top xs b refl hole

-- Where no hole of a well-formed heap has room, and the pages for an expansion can be mapped,
-- `HeapAllocate` without alignment expands the heap, which stays well formed, by at least the bytes that
-- the block takes, and grants the block in the longer heap. The new bytes become a hole where the index
-- is empty, or part of the last block where that is a hole, after which nothing is said of the order of
-- the index. The expanded heap must be shorter than 2^32 bytes.
pub allocate-Expanded :
    (o : Bool) (fuel size : ℕ) (k k1 : Kernel) (bs : List Block) (p : Bool) (cs : List Block)
    → IsHeap o k bs
    → ((a : ℕ) → Mem a (holes bs) → size_of a k.mem < size + 32)
    → k.heap.end_address + (size + 32) < k.heap.start_address + word32
    → k.heap.start_address + 2 * word32 < word64
    → expand (suc fuel) (k.heap.end_address - k.heap.start_address + (size + 32)) k ≡ some k1
    → Grown o k (growth size k) bs p cs
    → (k' : Kernel) × IsHeap p k' cs
      × (k.heap.end_address + (size + 32) ≤ k'.heap.end_address)
      × Granted p size k' cs (allocate (suc (suc fuel)) size false k)
allocate-Expanded o fuel size k k1 bs p cs h full small top pages grown =
    let (s, same) = expand_lem (suc fuel) _ k k1 pages in
    let (le, room, fits, new, few) = growth_lem o size k bs h s small top in
    let n = k.heap.end_address - k.heap.start_address + (size + 32) in
    let old = k.heap.end_address - k.heap.start_address in
    let need : add64 (add64 size 16) 16 ≡ size + 32 = omega arith in
    let length : sub64 k.heap.end_address k.heap.start_address ≡ old = omega arith in
    let sum : add64 old (size + 32) ≡ n = omega arith in
    let found = find_smallest_hole-none o size k bs h full in
    let by : sub64 (sub64 (longer n s k).heap.end_address k.heap.start_address) old
        ≡ growth size k =
      omega (arith, new) in
    let (ready, (a, entry, wide)) = Grown-Prepared o size k s bs p cs h small top grown in
    let run =
      rw (length, same, by) at
        (allocate-expand (suc fuel) size k k1 (rw need found) (rw (need, length, sum) pages)) in
    (
      grown_heap o size k bs h s small top,
      ready,
      rw
          (grow_hole-end (highest k.heap.index k.mem k.heap.index.size 0 0 none) k.heap.end_address
            (growth size k) (longer n s k))
          (omega (arith, new, room)),
      rw run (
          allocate-Granted p fuel size a (grown_heap o size k bs h s small top) cs ready entry wide
            (omega arith)),
    )
