-- ===== src/Heap/Expand.antt =====
-- What `HeapExpand` and the lines of `HeapAllocate` behind its call do to a heap.
use mathlib.Core.Bool.{false≢true}
use mathlib.Core.Option
use mathlib.Core.Option.{some-injective, none-ne-some}
use mathlib.Core.List.{Perm, Mem, perm_middle, append-nil}
use mathlib.Core.List.Perm
use gewodsys.Base.{
  ℕ, ◌+◌, ◌-◌, ◌*◌, ◌/◌, ◌%◌, ◌^◌, ◌≤◌, ◌<◌, ◌≡◌, refl, sym, ◌∙◌, inl, inr, arith, Bool, false,
  bit_and, eq→==, Option, none, some, List, [], ◌∷◌, ◌++◌, word32, word64,
}
use gewodsys.Base.Masks.{bit_and-shifted}
use gewodsys.Rt
use gewodsys.Rt.{load, store}
use gewodsys.Array.{OrderedArray, get}
use gewodsys.Array.Cells.{items-keep}
use gewodsys.Array.Insert.{contents}
use gewodsys.Pmm.{add64, sub64}
use gewodsys.Vmm.{Machine}
use gewodsys.Heap.{Kernel, size_of, round_up, expand, expand_loop, write_header, write_footer}
use gewodsys.Heap.Allocate.{grow_hole}
use gewodsys.Heap.Headers.{
  IsHeader-keep, load-write_header, load-write_footer, write_header-IsHeader,
}
use gewodsys.Heap.Tiling.{Block, free_block, Tiled, Tiled-keep, Tiled-join, Tiled-le, Tiled-split}
use gewodsys.Heap.Index.{holes, holes-append, IsSorted-keep}
use gewodsys.Heap.Placed.{Tiled-Placed, Placed-same}
use gewodsys.Heap.Invariant.{IsHeap, Ready, Ready-IsHeap, size_of-block}
use gewodsys.Heap.Resize.{resized, resized-Tiled, resized-contents}

-- Below 2^32 a size is rounded up by at most a page.
pub round_up_lem :
    (size : ℕ) → size < word32 → (size ≤ round_up size) × (round_up size ≤ size + 4096)
unfolding round_up
round_up_lem size small =
    let m : bit_and size 0xFFFFF000 ≡ size / 2 ^ 12 % 2 ^ 20 * 2 ^ 12 =
      bit_and-shifted 12 20 size in
    rw m (ground arith, ground arith)

-- The heap behind the pages that `HeapExpand` has mapped.
abbrev pub longer : ℕ → Machine → Kernel → Kernel
longer size s k = record k {
  machine = s;
  heap = record k.heap { end_address = add64 k.heap.start_address (round_up size) };
}

pub expand_lem :
    (fuel size : ℕ) (k k1 : Kernel)
    → expand fuel size k ≡ some k1
    → (s : Machine) × (k1 ≡ longer size s k)
unfolding expand
expand_lem fuel size k k1 e =
    go
      (expand_loop fuel fuel k.heap.start_address (round_up size)
        (sub64 k.heap.end_address k.heap.start_address) k.machine)
      e
  where
    go :
        (r : Option Machine)
        → Option.map (λ s. longer size s k) r ≡ some k1
        → (s : Machine) × (k1 ≡ longer size s k)
    go none e = absurd (none-ne-some k1 e)
    go (some s) e = (s, sym (some-injective (longer size s k) k1 e))

-- Where no hole is lengthened, the new bytes become a hole behind the last block.
module _ (o : Bool) (k : Kernel) (bs : List Block) (size more : ℕ) (s : Machine) (h : IsHeap o k bs)
    (room : 32 ≤ more) (fits : k.heap.end_address + more < word64)
    (new : (longer size s k).heap.end_address ≡ k.heap.end_address + more)
    (space : k.heap.index.array + 8 * (k.heap.index.size + 1) ≤ k.heap.start_address)
    (count : k.heap.index.size + 1 < word32) where
  abbrev index : OrderedArray
  index = k.heap.index

  abbrev start : ℕ
  start = k.heap.start_address

  abbrev end_ : ℕ
  end_ = k.heap.end_address

  -- The memory with the header and the footer of the new hole.
  abbrev m : Rt.Mem
  m = write_footer (end_ + more - 16) end_ (write_header end_ 1 more k.mem)

  abbrev result : List Block
  result = bs ++ (free_block end_ more ∷ [])

  below-load : (c u : ℕ) → c + u ≤ end_ → load u c m ≡ load u c k.mem
  below-load c u le =
      load-write_footer u c (end_ + more - 16) end_ _ (inr (omega arith))
      ∙ load-write_header u c end_ 1 more k.mem (inr (omega arith))

  new-Tiled : Tiled m start (end_ + more) result
  new-Tiled =
      Tiled-join m start end_ (end_ + more) bs (free_block end_ more ∷ [])
        (Tiled-keep k.mem m start end_ bs (λ c u lo hi. below-load c u hi) h.tiled)
        (
          refl,
          record {
            room = room;
            header =
                IsHeader-keep end_ 1 more (write_header end_ 1 more k.mem) m
                  (λ c u lo hi. load-write_footer u c (end_ + more - 16) end_ _ (inr (omega arith)))
                  (write_header-IsHeader end_ 1 more k.mem (omega arith) (omega arith));
            footer = inl refl;
          },
          refl,
        )

  new-Ready : Ready o start (end_ + more) index m end_ result
  new-Ready =
      let le = Tiled-le k.mem start end_ bs h.tiled in
      let l = contents index k.mem in
      let same : contents index m ≡ l =
        items-keep index.size index.array k.mem m
          (λ c u lo hi. below-load c u (omega (arith, le, h.below))) in
      let sized = λ (x : ℕ) (entry : Mem x l).
        (Placed-same start x k.mem m bs
          (Tiled-Placed start start end_ k.mem bs (omega arith) h.tiled)
          (Tiled-Placed start start end_ m bs (omega arith)
            (Tiled-keep k.mem m start end_ bs (λ c u lo hi. below-load c u hi) h.tiled))
          ((Perm.mem_iff h.listed).0 entry)).1 in
      let middle : Perm (end_ ∷ holes bs) (holes bs ++ (end_ ∷ [])) =
        rw (append-nil (holes bs)) at (Perm.symm (perm_middle {a = end_} (holes bs) [])) in
      record {
        tiled = new-Tiled;
        listed =
            rw (same, holes-append bs (free_block end_ more ∷ []))
              (Perm.trans (Perm.cons end_ h.listed) middle);
        sorted = λ q.
            rw same (IsSorted-keep (λ a. size_of a k.mem) (λ a. size_of a m) l sized (h.sorted q));
        by_size = h.by_size;
        below = space;
        count = count;
        top = fits;
        fits = omega arith;
      }

  pub grow_hole-none-IsHeap : IsHeap o (grow_hole none end_ more (longer size s k)) result
  unfolding grow_hole
  grow_hole-none-IsHeap =
      let footer : sub64 (add64 end_ more) 16 ≡ end_ + more - 16 = omega arith in
      rw footer (Ready-IsHeap o (longer size s k) index m end_ result (rw new new-Ready))

-- Where the last block is a hole, and is the one that is lengthened, it takes up the new bytes.
pub grow_hole-some-IsHeap :
    (o : Bool) (k : Kernel) (xs : List Block) (b : Block) (size more i : ℕ) (s : Machine)
    → IsHeap o k (xs ++ (b ∷ []))
    → b.hole ≡ 1
    → get k.heap.index i k.mem ≡ b.at
    → k.heap.end_address + more < word64
    → (longer size s k).heap.end_address ≡ k.heap.end_address + more
    → IsHeap false
        (grow_hole (some i) k.heap.end_address more (longer size s k))
        (xs ++ (free_block b.at (b.bytes + more) ∷ []))
unfolding grow_hole
grow_hole-some-IsHeap o k xs b size more i s h hole at fits new =
    let start = k.heap.start_address in
    let e = k.heap.end_address in
    let end_ = e + more in
    let m = k.mem in
    let bytes = size_of-block o k xs [] b h in
    let (mid, left, (here, block, stop)) = Tiled-split m start e xs (b ∷ []) h.tiled in
    let le = Tiled-le m start mid xs left in
    let room : b.at + 32 ≤ end_ = omega (arith, here, stop, block.room) in
    let m' = resized start e end_ m xs b h.tiled hole room fits in
    let sum : end_ - b.at ≡ b.bytes + more = omega (arith, here, stop) in
    let size1 : add64 (size_of b.at m) more ≡ b.bytes + more =
      omega (arith, bytes, here, stop, fits) in
    let foot : sub64 (add64 b.at (b.bytes + more)) 16 ≡ end_ - 16 =
      omega (arith, here, stop, block.room, fits) in
    let same : contents k.heap.index m' ≡ contents k.heap.index m =
      resized-contents start e end_ m xs b h.tiled hole room fits k.heap.index h.below in
    let t : Tiled m' start end_ (xs ++ (free_block b.at (end_ - b.at) ∷ [])) =
      resized-Tiled start e end_ m xs b h.tiled hole room fits in
    let own : holes (b ∷ []) ≡ b.at ∷ [] = rw (eq→== b.hole 1 hole) refl in
    let all : Perm (contents k.heap.index m) (holes xs ++ (b.at ∷ [])) =
      rw (holes-append xs (b ∷ []), own) at h.listed in
    rw (at, size1, foot, new, ← sum)
      (record {
        tiled = t;
        listed = rw (same, holes-append xs (free_block b.at (end_ - b.at) ∷ [])) all;
        sorted = λ q. absurd (false≢true q);
        by_size = h.by_size;
        below = h.below;
        count = h.count;
        top = fits;
      })
