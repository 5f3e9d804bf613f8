-- ===== src/Heap/Steps.antt =====
-- Runs of allocations and releases, in any order.
use mathlib.Core.Bool.{false≢true}
use mathlib.Core.Option.{some-injective}
use mathlib.Core.List.{Mem, head-eq_of_cons-eq, tail-eq_of_cons-eq}
use mathlib.Core.Path.{subst}
use gewodsys.Base.{
  ℕ, suc, ◌+◌, ◌-◌, ◌*◌, ◌≤◌, ◌<◌, ◌≡◌, refl, sym, ap, ◌∙◌, arith, Bool, false, Option, some, List,
  [], ◌∷◌, ◌++◌, word32, word64,
}
use gewodsys.Rt
use gewodsys.Heap.{Kernel, size_of, expand}
use gewodsys.Heap.Allocate.{allocate}
use gewodsys.Heap.Free.{free}
use gewodsys.Heap.Tiling.{Block, Tiled, Tiled-split, Tiled-le}
use gewodsys.Heap.Split.{pieces}
use gewodsys.Heap.Index.{holes}
use gewodsys.Heap.Invariant.{IsHeap}
use gewodsys.Heap.Grant.{Granted, allocate-Granted}
use gewodsys.Heap.Neighbours.{Left, Right}
use gewodsys.Heap.Room.{Grown, growth, allocate-Expanded}
use gewodsys.Heap.Reindex.{free-IsHeap}

-- One call, on a heap of the blocks given, whose index may be in order.
pub data Step (o : Bool) (k : Kernel) : List Block → Bool → Kernel → List Block → Type 0 where
  -- `HeapAllocate` returns the memory of the block `b`, where some hole has room.
  allocated :
      (fuel size a : ℕ) (xs ys : List Block) (b : Block) {after : Kernel}
      → Mem a (holes (xs ++ b ∷ ys))
      → size + 32 ≤ size_of a k.mem
      → size + 32 < word64
      → allocate (suc fuel) size false k ≡ some (b.at + 16, after)
      → Step o k (xs ++ b ∷ ys) o after (xs ++ (pieces size b ++ ys))
  -- It returns the memory of `b` after an expansion, where none has room.
  expanded :
      (fuel size : ℕ) {bs : List Block} {p : Bool} (xs ys : List Block) (b : Block)
      {more after : Kernel}
      → ((a : ℕ) → Mem a (holes bs) → size_of a k.mem < size + 32)
      → k.heap.end_address + (size + 32) < k.heap.start_address + word32
      → k.heap.start_address + 2 * word32 < word64
      → expand (suc fuel) (k.heap.end_address - k.heap.start_address + (size + 32)) k ≡ some more
      → Grown o k (growth size k) bs p (xs ++ b ∷ ys)
      → allocate (suc (suc fuel)) size false k ≡ some (b.at + 16, after)
      → Step o k bs p after (xs ++ (pieces size b ++ ys))
  -- `HeapFree` of the block `b`, which is in use.
  freed :
      (zs ws ys : List Block) (b n hole : Block) (vs : List Block)
      → b.hole ≡ 0
      → Left o k b zs ws hole
      → Right k hole (n ∷ ys) vs
      → k.heap.index.array + 8 * (k.heap.index.size + 1) ≤ k.heap.start_address
      → k.heap.index.size + 1 < word32
      → Step o k (zs ++ (b ∷ n ∷ ys)) o (free (b.at + 16) k) (ws ++ vs)
  -- No call; the order of the index is forgotten.
  unordered : {bs : List Block} → Step o k bs false k bs

-- Calls one after the other.
pub data Run (o : Bool) (k : Kernel) (bs : List Block) : Bool → Kernel → List Block → Type 0 where
  none_yet : Run o k bs o k bs
  then_ :
      {o1 o2 : Bool} {k1 k2 : Kernel} {bs1 bs2 : List Block}
      → Run o k bs o1 k1 bs1
      → Step o1 k1 bs1 o2 k2 bs2
      → Run o k bs o2 k2 bs2

-- A block of a heap is told by its address.
same_block :
    (m : Rt.Mem) (s e : ℕ) (xs ys zs ws : List Block) (b c : Block)
    → Tiled m s e (xs ++ b ∷ ys)
    → Tiled m s e (zs ++ c ∷ ws)
    → xs ++ b ∷ ys ≡ zs ++ c ∷ ws
    → b.at ≡ c.at
    → (xs ≡ zs) × (b ≡ c) × (ys ≡ ws)
same_block m s e [] ys [] ws b c t u p at = (refl, head-eq_of_cons-eq p, tail-eq_of_cons-eq p)
same_block m s e [] ys (z ∷ zs) ws b c t u p at =
    let (mid, left, (there, _, _)) = Tiled-split m (s + z.bytes) e zs (c ∷ ws) u.2 in
    absurd (omega (arith, t.0, u.1.room, there, Tiled-le m (s + z.bytes) mid zs left, at))
same_block m s e (x ∷ xs) ys [] ws b c t u p at =
    let (mid, left, (there, _, _)) = Tiled-split m (s + x.bytes) e xs (b ∷ ys) t.2 in
    absurd (omega (arith, u.0, t.1.room, there, Tiled-le m (s + x.bytes) mid xs left, at))
same_block m s e (x ∷ xs) ys (z ∷ zs) ws b c t u p at =
    let same : x ≡ z = head-eq_of_cons-eq p in
    let (rest, block, behind) =
      same_block m (s + x.bytes) e xs ys zs ws b c t.2 (rw (← same) at u.2) (tail-eq_of_cons-eq p)
        at in
    (rw (same, rest) refl, block, behind)

-- The grant is of the block at the address that is returned.
Granted-IsHeap :
    (o : Bool) (size : ℕ) (k after : Kernel) (xs ys : List Block) (b : Block)
    (r : Option (ℕ × Kernel))
    → IsHeap o k (xs ++ b ∷ ys)
    → Granted o size k (xs ++ b ∷ ys) r
    → r ≡ some (b.at + 16, after)
    → IsHeap o after (xs ++ (pieces size b ++ ys))
Granted-IsHeap o size k after xs ys b r h g run =
    let same : Path (ℕ × Kernel) (b.at + 16, after) (g.block.at + 16, g.after) =
      some-injective (b.at + 16, after) (g.block.at + 16, g.after) (sym run ∙ g.result) in
    let place : b.at + 16 ≡ g.block.at + 16 = ap (λ p. p.0) same in
    let state : after ≡ g.after = ap (λ p. p.1) same in
    let bs = λ (l : List Block). Tiled k.mem k.heap.start_address k.heap.end_address l in
    let (before, block, behind) =
      same_block k.mem k.heap.start_address k.heap.end_address xs ys g.before g.behind b g.block
        h.tiled (subst bs g.split h.tiled) g.split (omega (arith, place)) in
    rw (state, before, block, behind) g.keeps

IsHeap-forget : (o : Bool) (k : Kernel) (bs : List Block) → IsHeap o k bs → IsHeap false k bs
IsHeap-forget o k bs h = record {
  tiled = h.tiled;
  listed = h.listed;
  sorted = λ q. absurd (false≢true q);
  by_size = h.by_size;
  below = h.below;
  count = h.count;
  top = h.top;
}

Step-IsHeap :
    (o : Bool) (k : Kernel) (bs : List Block) (p : Bool) (k' : Kernel) (bs' : List Block)
    → IsHeap o k bs
    → Step o k bs p k' bs'
    → IsHeap p k' bs'
Step-IsHeap o k bs p k' bs' h (allocated fuel size a xs ys b entry room fits run) =
    Granted-IsHeap o size k k' xs ys b (allocate (suc fuel) size false k) h
      (allocate-Granted o fuel size a k (xs ++ b ∷ ys) h entry room fits) run
Step-IsHeap o k bs p k' bs' h (expanded fuel size xs ys b {more} full small top pages grown run) =
    let (k2, t, longer, grant) =
      allocate-Expanded o fuel size k more bs p (xs ++ b ∷ ys) h full small top pages grown in
    Granted-IsHeap p size k2 k' xs ys b (allocate (suc (suc fuel)) size false k) t grant run
Step-IsHeap o k bs p k' bs' h (freed zs ws ys b n hole vs taken left right space count) =
    free-IsHeap o k zs ws ys b n hole vs h taken left right space count
Step-IsHeap o k bs p k' bs' h unordered = IsHeap-forget o k bs h

-- Every run of calls keeps a well-formed heap well formed: allocations without alignment, with and
-- without an expansion, and releases, in any order, each where `Step` allows it. An allocation finds a
-- hole with room, or expands a heap of less than 2^32 bytes whose index is empty or whose last block is
-- a hole. A release is of a block in use that is not the last, between neighbours that `Left` and
-- `Right` allow, while the index has room for one more entry.
pub Run-IsHeap :
    (o : Bool) (k : Kernel) (bs : List Block) (p : Bool) (k' : Kernel) (bs' : List Block)
    → IsHeap o k bs
    → Run o k bs p k' bs'
    → IsHeap p k' bs'
Run-IsHeap o k bs p k' bs' h none_yet = h
Run-IsHeap o k bs p k' bs' h (then_ {o1} {o2} {k1} {k2} {bs1} {bs2} run step) =
    Step-IsHeap o1 k1 bs1 o2 k2 bs2 (Run-IsHeap o k bs o1 k1 bs1 h run) step
