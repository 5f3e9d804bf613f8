-- ===== src/Heap/Neighbours.antt =====
-- What lies on the two sides of a block that `HeapFree` releases, and what it makes of them.
use gewodsys.Base.{◌+◌, ◌-◌, ◌≤◌, ◌<◌, ◌≡◌, Bool, false, List, [], ◌∷◌, ◌++◌}
use gewodsys.Heap.{Kernel, heap_magic, heap_min_size, magic_of}
use gewodsys.Heap.Headers.{IsFooter}
use gewodsys.Heap.Tiling.{Block, free_block}

-- The blocks before the block `b` that is released, those before the hole it becomes, and this hole.
pub data Left (ordered : Bool) (k : Kernel) (b : Block)
    : List Block → List Block → Block → Type 0 where
  -- There is no footer before it.
  apart :
      {zs : List Block}
      → 16 ≤ b.at
      → ¬ (magic_of (b.at - 16) k.mem ≡ heap_magic)
      → Left ordered k b zs zs (free_block b.at b.bytes)
  behind_used :
      {zs : List Block} (xs : List Block) (p : Block)
      → zs ≡ xs ++ (p ∷ [])
      → p.hole ≡ 0
      → Left ordered k b zs zs (free_block b.at b.bytes)
  -- The hole before it has a footer.
  into_hole :
      {zs : List Block} (xs : List Block) (p : Block)
      → zs ≡ xs ++ (p ∷ [])
      → p.hole ≡ 1
      → IsFooter (b.at - 16) p.at k.mem
      → ordered ≡ false
      → Left ordered k b zs xs (free_block p.at (p.bytes + b.bytes))

-- The blocks behind the hole `h`, and what they and the hole become.
pub data Right (k : Kernel) (h : Block) : List Block → List Block → Type 0 where
  before_used : {n : Block} {ys : List Block} → n.hole ≡ 0 → Right k h (n ∷ ys) (h ∷ n ∷ ys)
  takes_hole :
      {n : Block} {ys : List Block}
      → n.hole ≡ 1
      → n.at + n.bytes < k.heap.end_address
      → Right k h (n ∷ ys) (free_block h.at (h.bytes + n.bytes) ∷ ys)
  -- The hole behind it ends the heap, which is then cut to its least size.
  cuts_heap :
      {n : Block}
      → n.hole ≡ 1
      → h.at + 32 ≤ k.heap.start_address + heap_min_size
      → k.heap.start_address + heap_min_size ≤ k.heap.end_address
      → Right k h (n ∷ []) (free_block h.at (k.heap.start_address + heap_min_size - h.at) ∷ [])
