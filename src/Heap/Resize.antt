-- ===== src/Heap/Resize.antt =====
-- A hole that ends the heap gets a new size, and the heap a new end: what `HeapFree` does where it
-- contracts the heap, and `HeapAllocate` where it expands it.
use mathlib.Core.List.{Mem}
use gewodsys.Base.{
  ℕ, ◌+◌, ◌-◌, ◌*◌, ◌≤◌, ◌<◌, ◌≡◌, refl, ◌∙◌, inl, inr, arith, List, [], ◌∷◌, ◌++◌, word64,
}
use gewodsys.Rt
use gewodsys.Rt.{load, store}
use gewodsys.Rt.Words.{load-store_ne}
use gewodsys.Array.{OrderedArray}
use gewodsys.Array.Cells.{items-keep}
use gewodsys.Array.Insert.{contents}
use gewodsys.Heap.{size_of, write_footer}
use gewodsys.Heap.Headers.{IsHeader, IsHeader-keep, set_size-IsHeader, load-write_footer}
use gewodsys.Heap.Tiling.{
  Block, free_block, IsBlock, Tiled, Tiled-split, Tiled-le, Tiled-keep, Tiled-join,
}
use gewodsys.Heap.Index.{holes}
use gewodsys.Heap.Placed.{Tiled-Placed, Placed-split, Placed-same}

module _ (start e end_ : ℕ) (m : Rt.Mem) (xs : List Block) (h : Block)
    (tiled : Tiled m start e (xs ++ (h ∷ []))) (hole : h.hole ≡ 1) (room : h.at + 32 ≤ end_)
    (top : end_ < word64) where
  -- The new size.
  abbrev pub cut : ℕ
  cut = end_ - h.at

  abbrev sized : Rt.Mem
  sized = store 8 (h.at + 8) cut m

  abbrev pub resized : Rt.Mem
  resized = write_footer (end_ - 16) h.at sized

  pub last-IsBlock : Tiled m start h.at xs × IsBlock h m × (h.at + h.bytes ≡ e) × (start ≤ h.at)
  last-IsBlock =
      let (mid, left, (here, block, stop)) = Tiled-split m start e xs (h ∷ []) tiled in
      let le = Tiled-le m start mid xs left in
      (rw here left, block, omega (arith, here, stop), omega (arith, here))

  -- Nothing before the hole changes.
  before-load : (c u : ℕ) → c + u ≤ h.at → load u c resized ≡ load u c m
  before-load c u le =
      load-write_footer u c (end_ - 16) h.at sized (inr (omega arith))
      ∙ load-store_ne u 8 (h.at + 8) cut c m (inr (omega arith))

  pub resized-Tiled : Tiled resized start end_ (xs ++ (free_block h.at cut ∷ []))
  resized-Tiled =
      let (left, block, stop, lo) = last-IsBlock in
      let header : IsHeader h.at 1 h.bytes m = rw hole at block.header in
      Tiled-join resized start h.at end_ xs (free_block h.at cut ∷ [])
        (Tiled-keep m resized start h.at xs (λ c u l r. before-load c u r) left)
        (
          refl,
          record {
            room = omega arith;
            header =
                IsHeader-keep h.at 1 cut sized resized
                  (λ c u l r. load-write_footer u c (end_ - 16) h.at sized (inr (omega arith)))
                  (set_size-IsHeader h.at 1 h.bytes cut m (omega arith) header);
            footer = inl refl;
          },
          omega arith,
        )

  pub resized-contents :
      (index : OrderedArray)
      → index.array + 8 * index.size ≤ start
      → contents index resized ≡ contents index m
  resized-contents index below =
      let (left, block, stop, lo) = last-IsBlock in
      items-keep index.size index.array m resized
        (λ c u l r. before-load c u (omega (arith, below, lo)))

  -- The other holes keep their sizes.
  pub resized-size : (x : ℕ) → Mem x (holes xs) → size_of x resized ≡ size_of x m
  resized-size x entry =
      let le : start ≤ start = omega arith in
      let new_end = free_block h.at cut ∷ [] in
      let old =
        Placed-split start m xs (h ∷ []) (Tiled-Placed start start e m (xs ++ (h ∷ [])) le tiled) in
      let new =
        Placed-split start resized xs new_end
          (Tiled-Placed start start end_ resized (xs ++ new_end) le resized-Tiled) in
      (Placed-same start x m resized xs old.0 new.0 entry).1
