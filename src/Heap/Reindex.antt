-- ===== src/Heap/Reindex.antt =====
-- The whole of `HeapFree`, on the invariant of the heap.
use mathlib.Core.List.{Perm, append-nil}
use mathlib.Core.List.Perm
use gewodsys.Base.{
  ℕ, ◌+◌, ◌-◌, ◌*◌, ◌≤◌, ◌<◌, ◌≡◌, refl, ap, ◌∙◌, inl, inr, arith, Bool, true, Bool-cases, eq→==,
  ne→==, if◌then◌else◌, List, [], ◌∷◌, ◌++◌, word32, word64,
}
use gewodsys.Rt
use gewodsys.Array.{OrderedArray, insert}
use gewodsys.Pmm.{add64, sub64}
use gewodsys.Heap.{Heap, Kernel, heap_min_size}
use gewodsys.Heap.Free.{Freed, join_left, join_right, trim, free}
use gewodsys.Heap.Tiling.{Block, free_block, Tiled-split, Tiled-le}
use gewodsys.Heap.Coalesce.{behind, trim_inside}
use gewodsys.Heap.Index.{holes, holes-append}
use gewodsys.Heap.Invariant.{IsHeap, Ready-IsHeap}
use gewodsys.Heap.Neighbours.{Left, Right, before_used, takes_hole, cuts_heap}
use gewodsys.Heap.Marked.{Marked, join_left-Marked}
use gewodsys.Heap.Release.{Settled, settle_used, settle_hole}
use gewodsys.Heap.Contract.{trim_last, Settled-contract}

-- The end of `HeapFree`: a hole that is new is added to the index.
abbrev added : Freed → OrderedArray × Rt.Mem
added g = if g.add then insert g.index g.header g.mem else (g.index, g.mem)

added-IsHeap :
    (o : Bool) (k : Kernel) (stop x : ℕ) (bs : List Block) (others : List ℕ) (f g : Freed)
    → Settled o k.heap.start_address k.heap.end_address stop bs others f g
    → f.header ≡ x
    → Perm (if f.add then x ∷ others else others) (holes bs)
    → x < word64
    → k.heap.end_address < word64
    → let r = added g in IsHeap o (record k { heap = record k.heap { index = r.0 }; mem = r.1 }) bs
added-IsHeap o k stop x bs others f g s at all small top = elim (Bool-cases f.add) [
  | inl new ↦
      rw (s.add, new, s.header, at)
        (Ready-IsHeap o k g.index g.mem x bs (record {
          tiled = s.tiled;
          listed = Perm.trans (Perm.cons x s.listed) (rw new at all);
          sorted = s.sorted;
          by_size = s.by_size;
          below = s.below;
          count = s.count;
          top = top;
          fits = small;
        }))
  | inr old ↦
      rw (s.add, old)
        (record {
          tiled = s.tiled;
          listed = Perm.trans s.listed (rw old at all);
          sorted = s.sorted;
          by_size = s.by_size;
          below = omega (arith, s.below);
          count = omega (arith, s.count);
          top = top;
        })
]

free_lem :
    (a : ℕ) (k : Kernel) (g : Freed) (heap : Heap)
    → a + 16 < word64
    → (let f = join_left a k.heap.index k.mem in
        trim (add64 f.footer 16) (join_right f) k.heap ≡ (g, heap))
    → let r = added g in
      free (a + 16) k ≡ record k { heap = record heap { index = r.0 }; mem = r.1 }
unfolding free
free_lem a k g heap small end_ =
    let back : sub64 (a + 16) 16 ≡ a = omega arith in
    rw (ne→== (a + 16) 0 (omega arith), back, end_) refl

module _ (o : Bool) (k : Kernel) (zs ws ys : List Block) (b n hole : Block)
    (h : IsHeap o k (zs ++ (b ∷ n ∷ ys)))
    (space : k.heap.index.array + 8 * (k.heap.index.size + 1) ≤ k.heap.start_address)
    (count : k.heap.index.size + 1 < word32) where
  abbrev f : Freed
  f = join_left b.at k.heap.index k.mem

  abbrev others : List ℕ
  others = holes zs ++ holes ys

  -- The hole lies in the heap, with the block behind.
  inside :
      Marked o k ws ys hole n others f
      → (hole.at + 32 ≤ n.at) × (n.at + n.bytes ≤ k.heap.end_address) × (32 ≤ n.bytes)
  inside marked =
      let (mid, left, (at, block, (next, other, right))) =
        Tiled-split f.mem k.heap.start_address k.heap.end_address ws (hole ∷ n ∷ ys)
          marked.found.tiled in
      let hi = Tiled-le f.mem (mid + hole.bytes + n.bytes) k.heap.end_address ys right in
      (omega (arith, block.room, at, next), omega (arith, next), other.room)

  small : b.at + 16 < word64
  small =
      let (mid, left, (at, block, right)) =
        Tiled-split k.mem k.heap.start_address k.heap.end_address zs (b ∷ n ∷ ys) h.tiled in
      let hi = Tiled-le k.mem (mid + b.bytes) k.heap.end_address (n ∷ ys) right in
      omega (arith, block.room, at, h.top)

  used-IsHeap :
      Marked o k ws ys hole n others f
      → n.hole ≡ 0
      → IsHeap o (free (b.at + 16) k) (ws ++ (hole ∷ n ∷ ys))
  used-IsHeap marked kind =
      let (lo, hi, room) = inside marked in
      let found = marked.found in
      let s =
        settle_used k.heap.index k.heap.start_address k.heap.end_address ws ys hole n f found h.top
          o k.mem others marked.listed marked.before h.by_size space count kind in
      let stays =
        trim_inside (add64 f.footer 16) (join_right f) k.heap
          (ne→== (add64 (join_right f).footer 16) k.heap.end_address (omega (arith, s.footer))) in
      let result : behind hole n ++ ys ≡ hole ∷ n ∷ ys = rw (eq→== n.hole 0 kind) refl in
      let listed : holes (ws ++ (hole ∷ n ∷ ys)) ≡ holes ws ++ (hole.at ∷ holes ys) =
        rw
          (
            holes-append ws (hole ∷ n ∷ ys),
            eq→== hole.hole 1 found.hole,
            ne→== n.hole 1 (omega (arith, kind)),
          )
          refl in
      rw (free_lem b.at k (join_right f) k.heap small stays) (
        added-IsHeap o k n.at hole.at (ws ++ (hole ∷ n ∷ ys)) others f (join_right f)
          (rw result at s) found.at (rw listed marked.all) (omega (arith, lo, hi, h.top)) h.top)

  abbrev together : Block
  together = free_block hole.at (hole.bytes + n.bytes)

  hole-Settled :
      Marked o k ws ys hole n others f
      → n.hole ≡ 1
      → Settled o k.heap.start_address k.heap.end_address
          (n.at + n.bytes)
          (ws ++ (together ∷ ys))
          others
          f
          (join_right f)
  hole-Settled marked kind =
      let result : behind hole n ++ ys ≡ together ∷ ys =
        rw (ne→== n.hole 0 (omega (arith, kind))) refl in
      rw result at (
        settle_hole k.heap.index k.heap.start_address k.heap.end_address ws ys hole n f marked.found
          h.top o k.mem others marked.listed marked.before h.by_size space count kind)

  hole-IsHeap :
      Marked o k ws ys hole n others f
      → n.hole ≡ 1
      → n.at + n.bytes < k.heap.end_address
      → IsHeap o (free (b.at + 16) k) (ws ++ (together ∷ ys))
  hole-IsHeap marked kind more =
      let (lo, hi, room) = inside marked in
      let s = hole-Settled marked kind in
      let stays = trim_inside (add64 f.footer 16) (join_right f) k.heap (
        ne→== (add64 (join_right f).footer 16) k.heap.end_address
          (omega (arith, s.footer, more))) in
      rw (free_lem b.at k (join_right f) k.heap small stays) (
        added-IsHeap o k (n.at + n.bytes) hole.at (ws ++ (together ∷ ys)) others f (join_right f) s
          marked.found.at (rw (holes-append ws (together ∷ ys)) marked.all)
          (omega (arith, lo, hi, h.top)) h.top)

cut-IsHeap :
    (o : Bool) (k : Kernel) (zs ws : List Block) (b n hole : Block)
    → (h : IsHeap o k (zs ++ (b ∷ n ∷ [])))
    → k.heap.index.array + 8 * (k.heap.index.size + 1) ≤ k.heap.start_address
    → k.heap.index.size + 1 < word32
    → Marked o k ws [] hole n (holes zs ++ []) (join_left b.at k.heap.index k.mem)
    → n.hole ≡ 1
    → hole.at + 32 ≤ k.heap.start_address + heap_min_size
    → k.heap.start_address + heap_min_size ≤ k.heap.end_address
    → IsHeap o
        (free (b.at + 16) k)
        (ws ++ (free_block hole.at (k.heap.start_address + heap_min_size - hole.at) ∷ []))
cut-IsHeap o k zs ws b n hole h space count marked kind short long =
    let start = k.heap.start_address in
    let e = k.heap.end_address in
    let f = join_left b.at k.heap.index k.mem in
    let g = join_right f in
    let block = free_block hole.at (hole.bytes + n.bytes) in
    let others = holes zs ++ [] in
    let s = hole-Settled o k zs ws [] b n hole h space count marked kind in
    let (mid, left, (at, one, (next, two, stop))) =
      Tiled-split f.mem start e ws (hole ∷ n ∷ []) marked.found.tiled in
    let ends : n.at + n.bytes ≡ e = omega (arith, next, stop) in
    let s1 : Settled o start e e (ws ++ (block ∷ [])) others f g = rw ends at s in
    let header : g.header ≡ hole.at = s.header ∙ marked.found.at in
    let left_of = λ (q : o ≡ true). (marked.before q).0 ∙ ap holes (append-nil ws) in
    let end_ = start + heap_min_size in
    let heap : Heap = record k.heap { end_address = end_ } in
    let right = add64 f.footer 16 in
    let run =
      trim_last o start e right ws block others f g s1 refl header left_of h.top short long k.heap
        refl refl in
    let cut =
      Settled-contract o start e right ws block others f g s1 refl header left_of h.top short
        long in
    let result = ws ++ (free_block hole.at (end_ - hole.at) ∷ []) in
    rw (free_lem b.at k _ heap (small o k zs ws [] b n hole h space count) run) (
      added-IsHeap o (record k { heap = heap }) (add64 g.footer 16) hole.at result others f _ cut
        marked.found.at (rw (holes-append ws (free_block hole.at (end_ - hole.at) ∷ [])) marked.all)
        (omega (arith, short, long, h.top)) (omega (arith, long, h.top)))

freed-IsHeap :
    (o : Bool) (k : Kernel) (zs ws ys : List Block) (b n hole : Block) (vs : List Block)
    → IsHeap o k (zs ++ (b ∷ n ∷ ys))
    → k.heap.index.array + 8 * (k.heap.index.size + 1) ≤ k.heap.start_address
    → k.heap.index.size + 1 < word32
    → Marked o k ws ys hole n (holes zs ++ holes ys) (join_left b.at k.heap.index k.mem)
    → Right k hole (n ∷ ys) vs
    → IsHeap o (free (b.at + 16) k) (ws ++ vs)
freed-IsHeap o k zs ws ys b n hole vs h space count marked (before_used kind) =
    used-IsHeap o k zs ws ys b n hole h space count marked kind
freed-IsHeap o k zs ws ys b n hole vs h space count marked (takes_hole kind more) =
    hole-IsHeap o k zs ws ys b n hole h space count marked kind more
freed-IsHeap o k zs ws ys b n hole vs h space count marked (cuts_heap kind short long) =
    cut-IsHeap o k zs ws b n hole h space count marked kind short long

-- Freeing a block in use that is not the last keeps the heap well formed: the block becomes a hole, and
-- those of its two neighbours that are holes become part of it. Where this hole ends the heap, the heap
-- is cut to its least size, which must end behind the header of the hole and not behind the heap. What
-- lies before the block is a block in use, a hole that has its footer, after which nothing is said of
-- the order of the index, or no footer at all. The index must have room for one more entry.
pub free-IsHeap :
    (o : Bool) (k : Kernel) (zs ws ys : List Block) (b n hole : Block) (vs : List Block)
    → IsHeap o k (zs ++ (b ∷ n ∷ ys))
    → b.hole ≡ 0
    → Left o k b zs ws hole
    → Right k hole (n ∷ ys) vs
    → k.heap.index.array + 8 * (k.heap.index.size + 1) ≤ k.heap.start_address
    → k.heap.index.size + 1 < word32
    → IsHeap o (free (b.at + 16) k) (ws ++ vs)
free-IsHeap o k zs ws ys b n hole vs h taken left right space count =
    freed-IsHeap o k zs ws ys b n hole vs h space count
      (join_left-Marked o k zs ys b n h taken space left) right
