-- ===== src/Heap/Marked.antt =====
-- The first half of `HeapFree`: the block becomes a hole of its own, or part of the one before it.
use mathlib.Core.Bool.{false≢true}
use mathlib.Core.List.{Perm, perm_middle, append_assoc}
use mathlib.Core.List.Perm
use gewodsys.Base.{
  ℕ, ◌+◌, ◌-◌, ◌*◌, ◌≤◌, ◌<◌, ◌≡◌, refl, sym, ◌∙◌, inl, inr, arith, Bool, true, false, Bool-cases,
  ◌==◌, eq→==, ne→==, if◌then◌else◌, List, [], ◌∷◌, ◌++◌,
}
use gewodsys.Rt
use gewodsys.Rt.{load, store}
use gewodsys.Rt.Words.{load-store_ne}
use gewodsys.Array.{OrderedArray}
use gewodsys.Array.Cells.{items-keep}
use gewodsys.Array.Insert.{contents}
use gewodsys.Array.Order.{IsSorted}
use gewodsys.Pmm.{add64, sub64}
use gewodsys.Heap.{Kernel, heap_magic, magic_of, size_of}
use gewodsys.Heap.Free.{Freed, join_left}
use gewodsys.Heap.Headers.{IsFooter}
use gewodsys.Heap.Tiling.{Block, free_block, IsBlock, Tiled, Tiled-split, Tiled-le}
use gewodsys.Heap.Join.{
  Found, joined_mem, join_left-used, join_left-hole, join_left-Found, marked-Tiled,
}
use gewodsys.Heap.Index.{holes, holes-append}
use gewodsys.Heap.Placed.{Placed, Tiled-Placed, Placed-split, Placed-join}
use gewodsys.Heap.Invariant.{IsHeap}
use gewodsys.Heap.Neighbours.{Left, apart, behind_used, into_hole}

-- What it leaves: the hole, the entries of the index but for the block behind, and the index in the
-- order of the sizes that the memory before tells.
pub record Marked (ordered : Bool) (k : Kernel) (ws ys : List Block) (h n : Block) (others : List ℕ)
    (f : Freed) : Type 0 where
  pub found : Found k.heap.start_address k.heap.end_address ws (n ∷ ys) h k.heap.index f
  pub listed : Perm (contents k.heap.index f.mem) (holes (n ∷ []) ++ others)
  pub before :
      ordered ≡ true
      → (others ≡ holes (ws ++ ys))
        × Placed k.heap.start_address k.mem (ws ++ ys)
        × IsSorted (λ a. size_of a k.mem) (contents k.heap.index f.mem)
  pub all : Perm (if f.add then h.at ∷ others else others) (holes ws ++ (h.at ∷ holes ys))

module _ (o : Bool) (k : Kernel) (zs ys : List Block) (b n : Block)
    (h : IsHeap o k (zs ++ (b ∷ n ∷ ys))) (taken : b.hole ≡ 0) where
  abbrev index : OrderedArray
  index = k.heap.index

  abbrev start : ℕ
  start = k.heap.start_address

  abbrev end_ : ℕ
  end_ = k.heap.end_address

  -- The block, and where it lies.
  record Here : Type 0 where
    lo : start ≤ b.at
    hi : b.at + b.bytes < end_
    block : IsBlock b k.mem
    left : Tiled k.mem start b.at zs

  here : Here
  here =
      let (mid, left, (at, block, (next, other, right))) =
        Tiled-split k.mem start end_ zs (b ∷ n ∷ ys) h.tiled in
      let lo = Tiled-le k.mem start mid zs left in
      let hi = Tiled-le k.mem (mid + b.bytes + n.bytes) end_ ys right in
      let room = other.room in
      record { lo = omega (arith, at); hi = omega (arith, at); block = block; left = rw at left }

  -- The entries of the index: those of the two sides, and the one behind the block first.
  kept-listed : Perm (contents index k.mem) (holes (n ∷ []) ++ (holes zs ++ holes ys))
  kept-listed =
      let own : holes (b ∷ n ∷ ys) ≡ holes (n ∷ ys) =
        rw (ne→== b.hole 1 (omega (arith, taken))) refl in
      let old : Perm (contents index k.mem) (holes zs ++ (holes (n ∷ []) ++ holes ys)) =
        rw (holes-append zs (b ∷ n ∷ ys), own, holes-append (n ∷ []) ys) at h.listed in
      elim (Bool-cases (n.hole == 1)) [
        | inl hole ↦ rw hole (Perm.trans (rw hole at old) (perm_middle (holes zs) (holes ys)))
        | inr used ↦ rw used (rw used at old)
      ]

  abbrev m : Rt.Mem
  m = store 1 (b.at + 4) 1 k.mem

  abbrev last_ : ℕ
  last_ = b.at + b.bytes - 16

  -- A hole of its own.
  abbrev alone : Freed
  alone = record { header = b.at; footer = last_; add = true; index = index; mem = m }

  module _ (space : index.array + 8 * (index.size + 1) ≤ start) where
    alone-Marked : Marked o k zs ys (free_block b.at b.bytes) n (holes zs ++ holes ys) alone
    alone-Marked =
        let a = here in
        let same : contents index m ≡ contents index k.mem =
          items-keep index.size index.array k.mem m (λ c u lo hi.
            load-store_ne u 1 (b.at + 4) 1 c k.mem (inr (omega (arith, space, a.lo)))) in
        let placed =
          Placed-split start k.mem zs (b ∷ n ∷ ys)
            (Tiled-Placed start start end_ k.mem (zs ++ (b ∷ n ∷ ys)) (omega arith) h.tiled) in
        record {
          found = record {
            tiled = marked-Tiled k.mem start end_ zs (n ∷ ys) b h.tiled;
            at = refl;
            end_ = refl;
            hole = refl;
            index_same = refl;
          };
          listed = rw same kept-listed;
          before = λ e. (
            sym (holes-append zs ys),
            Placed-join start k.mem zs ys placed.0 placed.1.2.2,
            rw same (h.sorted e),
          );
          all = Perm.symm (perm_middle (holes zs) (holes ys));
        }

    apart_left :
        16 ≤ b.at → ¬ (magic_of (b.at - 16) k.mem ≡ heap_magic) → join_left b.at index k.mem ≡ alone
    unfolding join_left
    apart_left room none =
        let a = here in
        let before : sub64 b.at 16 ≡ b.at - 16 = omega (arith, a.hi, h.top) in
        let footer : sub64 (add64 b.at (size_of b.at k.mem)) 16 ≡ last_ =
          omega (arith, a.block.header.bytes, a.block.room, a.hi, h.top) in
        let magic : (magic_of (b.at - 16) m == heap_magic) ≡ false = ne→== _ heap_magic (λ e.
          none (sym (load-store_ne 4 1 (b.at + 4) 1 (b.at - 16) k.mem (inr (omega arith))) ∙ e)) in
        rw (before, footer, magic) refl

    -- The block before.
    record Previous (p : Block) : Type 0 where
      previous : IsBlock p k.mem
      next : p.at + p.bytes ≡ b.at
      first : start ≤ p.at

    preceding : (xs : List Block) (p : Block) → zs ≡ xs ++ (p ∷ []) → Previous p
    preceding xs p e =
        let (mid, left, (at, block, stop)) =
          Tiled-split k.mem start b.at xs (p ∷ []) (rw e at here.left) in
        record {
          previous = block;
          next = omega (arith, at, stop);
          first = omega (arith, at, Tiled-le k.mem start mid xs left);
        }

    used_left :
        (xs : List Block) (p : Block)
        → zs ≡ xs ++ (p ∷ [])
        → p.hole ≡ 0
        → join_left b.at index k.mem ≡ alone
    used_left xs p e used =
        let a = here in
        let q = preceding xs p e in
        let place : p.at + p.bytes - 16 ≡ b.at - 16 = omega (arith, q.next) in
        let foot : IsFooter (b.at - 16) p.at k.mem = elim q.previous.footer [
          | inl hole ↦ absurd (omega (arith, hole, used))
          | inr foot ↦ rw place at foot
        ] in
        join_left-used index k.mem p b q.previous a.block q.next foot (omega (arith, a.hi, h.top))
          (ne→== p.hole 1 (omega (arith, used)))

    hole_left :
        (xs : List Block) (p : Block)
        → zs ≡ xs ++ (p ∷ [])
        → p.hole ≡ 1
        → IsFooter (b.at - 16) p.at k.mem
        → o ≡ false
        → Marked o k xs ys
            (free_block p.at (p.bytes + b.bytes))
            n
            (holes zs ++ holes ys)
            (join_left b.at index k.mem)
    hole_left xs p e kind foot none =
        let a = here in
        let q = preceding xs p e in
        let hole : (p.hole == 1) ≡ true = eq→== p.hole 1 kind in
        let f : Freed = record {
          header = p.at;
          footer = last_;
          add = false;
          index = index;
          mem = joined_mem k.mem p b;
        } in
        let left : join_left b.at index k.mem ≡ f =
          join_left-hole index k.mem p b q.previous a.block q.next foot (omega (arith, a.hi, h.top))
            hole in
        let tiled : Tiled k.mem start end_ (xs ++ (p ∷ b ∷ n ∷ ys)) =
          rw (e, append_assoc xs (p ∷ []) (b ∷ n ∷ ys)) at h.tiled in
        let found = join_left-Found index k.mem start end_ xs (n ∷ ys) p b tiled foot h.top in
        let room = a.block.room in
        let same : contents index f.mem ≡ contents index k.mem =
          items-keep index.size index.array k.mem f.mem (λ c u lo hi.
            load-store_ne u 8 (p.at + 8) (p.bytes + b.bytes) c _
              (inr (omega (arith, space, q.first)))
            ∙ load-store_ne u 8 (last_ + 8) p.at c _ (inr (omega (arith, space, a.lo, room)))
            ∙ load-store_ne u 1 (b.at + 4) 1 c k.mem (inr (omega (arith, space, a.lo)))) in
        let own : holes (p ∷ []) ≡ p.at ∷ [] = rw hole refl in
        let all : holes zs ++ holes ys ≡ holes xs ++ (p.at ∷ holes ys) =
          rw (e, holes-append xs (p ∷ []), own) (append_assoc (holes xs) (p.at ∷ []) (holes ys)) in
        rw left (record {
          found = rw (hole, left) at found;
          listed = rw same kept-listed;
          before = λ t. absurd (false≢true (sym none ∙ t));
          all = rw all (Perm.refl (holes xs ++ (p.at ∷ holes ys)));
        })

    pub join_left-Marked :
        {ws : List Block} {hole : Block}
        → Left o k b zs ws hole
        → Marked o k ws ys hole n (holes zs ++ holes ys) (join_left b.at index k.mem)
    join_left-Marked (apart room none) = rw (apart_left room none) alone-Marked
    join_left-Marked (behind_used xs p e used) = rw (used_left xs p e used) alone-Marked
    join_left-Marked (into_hole xs p e kind foot none) = hole_left xs p e kind foot none
