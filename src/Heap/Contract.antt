-- ===== src/Heap/Contract.antt =====
-- The end of `HeapFree` where the hole that is left ends the heap: the heap is cut to its least size.
use mathlib.Core.List.Perm
use gewodsys.Base.{
  ℕ, ◌+◌, ◌-◌, ◌≤◌, ◌<◌, ◌≡◌, refl, ◌∙◌, arith, Bool, true, false, ltb, ◌==◌, eq→==, ne→==, lt→ltb,
  List, [], ◌∷◌, ◌++◌, word64,
}
use gewodsys.Rt
use gewodsys.Rt.{load, store}
use gewodsys.Array.Insert.{contents}
use gewodsys.Pmm.{add64, sub64}
use gewodsys.Heap.{Heap, heap_min_size, contracted, contract, size_of}
use gewodsys.Heap.Free.{Freed, trim, trim_to}
use gewodsys.Heap.Tiling.{Block, free_block}
use gewodsys.Heap.Index.{holes, IsSorted-keep}
use gewodsys.Heap.Trim.{contracted_lem}
use gewodsys.Heap.Release.{Settled}
use gewodsys.Heap.Resize.{resized, last-IsBlock, resized-Tiled, resized-contents, resized-size}

module _ (o : Bool) (start e right : ℕ) (xs : List Block) (h : Block) (others : List ℕ)
    (f g : Freed) (s : Settled o start e e (xs ++ (h ∷ [])) others f g) (hole : h.hole ≡ 1)
    (at : g.header ≡ h.at) (left_of : o ≡ true → others ≡ holes xs) (top : e < word64)
    (short : h.at + 32 ≤ start + heap_min_size) (long : start + heap_min_size ≤ e) where
  abbrev end_ : ℕ
  end_ = start + heap_min_size

  -- The size that the hole is cut to, and the memory then.
  abbrev cut : ℕ
  cut = end_ - h.at

  abbrev m : Rt.Mem
  m = resized start e end_ g.mem xs h s.tiled hole short (omega arith)

  pub trim_last :
      (heap : Heap)
      → heap.start_address ≡ start
      → heap.end_address ≡ e
      → trim right g heap ≡ (record g { mem = m }, record heap { end_address = end_ })
  unfolding trim contract trim_to
  trim_last heap first ends =
      let (left, block, stop, lo) =
        last-IsBlock start e end_ g.mem xs h s.tiled hole short (omega arith) in
      let o : ℕ = h.at - start in
      let offset : sub64 h.at start ≡ o = omega (arith, stop, lo) in
      let small : ltb o heap_min_size ≡ true = lt→ltb o heap_min_size (omega arith) in
      let new : contracted o ≡ heap_min_size = contracted_lem o ∙ (rw small refl) in
      let old : sub64 e start ≡ e - start = omega arith in
      let left : sub64 (size_of h.at g.mem) (sub64 (e - start) heap_min_size) ≡ cut =
        omega (arith, block.header.bytes, stop, lo) in
      let more : (cut == 0) ≡ false = ne→== cut 0 (omega arith) in
      let place : sub64 (add64 h.at cut) 16 ≡ end_ - 16 = omega (arith, lo) in
      let stops : add64 start heap_min_size ≡ end_ = omega arith in
      rw
        (
          first,
          ends,
          at,
          eq→== (add64 g.footer 16) e s.footer,
          offset,
          new,
          old,
          left,
          more,
          place,
          stops,
        )
        refl

  -- The heap then ends 0x70000 bytes behind its start, and so does the hole.
  pub Settled-contract :
      Settled o start end_
        (add64 g.footer 16)
        (xs ++ (free_block h.at cut ∷ []))
        others
        f
        (record g { mem = m })
  Settled-contract =
      let tiled = resized-Tiled start e end_ g.mem xs h s.tiled hole short (omega arith) in
      let sized = resized-size start e end_ g.mem xs h s.tiled hole short (omega arith) in
      let same =
        resized-contents start e end_ g.mem xs h s.tiled hole short (omega arith) g.index
          (omega (arith, s.below)) in
      record {
        tiled = tiled;
        listed = rw same s.listed;
        sorted = λ q. rw same (
            IsSorted-keep (λ a. size_of a g.mem) (λ a. size_of a m) (contents g.index g.mem)
              (λ x entry. sized x (rw (left_of q) at ((Perm.mem_iff s.listed).0 entry)))
              (s.sorted q));
        by_size = s.by_size;
        below = s.below;
        count = s.count;
        header = s.header;
        add = s.add;
        footer = refl;
      }
