-- ===== src/Heap/Tests/Expand.antt =====
-- The expansion of a heap of one page that is one hole.
use mathlib.Core.Option
use mathlib.Core.List.{Mem, not-mem-nil}
use mathlib.Core.List.Perm
use gewodsys.Base.{
  Bool-cases, ==_iff, ◌==◌, ℕ, ◌<◌, some, none, ◌≤◌, false, true, ◌+◌, ◌≡◌, refl, arith, inl, inr,
  [], ◌∷◌,
}
use gewodsys.Rt.{load, store, store8}
use gewodsys.Bitmap.{get_bit}
use gewodsys.Pmm.{request_page, search_page}
use gewodsys.Vmm.{map_memory, map_aligned, warn_unaligned, get_page_indices, next_table}
use gewodsys.Heap.{Kernel, write_header, size_of}
use gewodsys.Heap.Allocate.{allocate}
use gewodsys.Heap.Tiling.{free_block, IsBlock}
use gewodsys.Heap.Invariant.{IsHeap}
use gewodsys.Heap.Grant.{Granted}
use gewodsys.Heap.Index.{Mem-tail}
use gewodsys.Heap.Room.{growth, longer_hole, allocate-Expanded}
use gewodsys.Heap.{expand, expand_loop, round_up}
use gewodsys.Vmm.{map_page}
use gewodsys.Bitmap.{set_bit}
use gewodsys.Heap.Tests.{heap, paged}

-- A heap of one page, whose one hole the index names.
abbrev one_page : Kernel
one_page = record {
  heap = record heap { end_address = 0x2000 };
  mem = write_header 0x1000 1 0x1000 (store 8 64 0x1000 (λ _. 0));
  machine = paged;
}

one_page-IsBlock : IsBlock (free_block 0x1000 0x1000) one_page.mem
unfolding write_header load store store8
one_page-IsBlock = record {
  room = omega arith;
  header = record { magic = refl; kind = refl; bytes = refl };
  footer = inl refl;
}

one_page-IsHeap : IsHeap true one_page (free_block 0x1000 0x1000 ∷ [])
unfolding write_header load store store8
one_page-IsHeap = record {
  tiled = (refl, one_page-IsBlock, refl);
  listed = Perm.refl (0x1000 ∷ []);
  sorted = λ e. (tt, tt);
  by_size = refl;
  below = omega arith;
  count = omega arith;
  top = omega arith;
}

abbrev expanded : Kernel
expanded = elim (expand 4 0x2020 one_page) [ none ↦ one_page | some k ↦ k ]

one_page-expand : expand 4 0x2020 one_page ≡ some expanded
unfolding expand expand_loop round_up request_page map_memory next_table search_page get_bit load
    store store8 Option.bind map_aligned warn_unaligned get_page_indices map_page set_bit
one_page-expand = refl

one_page-size_of : size_of 0x1000 one_page.mem < 0x1000 + 32
unfolding write_header load store store8
one_page-size_of = omega arith

no_room : (a : ℕ) → Mem a (0x1000 ∷ []) → size_of a one_page.mem < 0x1000 + 32
no_room a entry = elim (Bool-cases (a == 0x1000)) [
  | inl here ↦ let p : a ≡ 0x1000 = (==_iff a 0x1000).0 here in rw p one_page-size_of
  | inr there ↦ absurd (not-mem-nil (Mem-tail a 0x1000 [] entry (λ p. ground (arith, p, there))))
]

-- A block of 0x1000 bytes does not fit into the one page: two pages are added to the hole.
allocate-Expanded_example :
    (k' : Kernel) × IsHeap false k' (free_block 0x1000 (0x1000 + growth 0x1000 one_page) ∷ [])
    × (0x2000 + (0x1000 + 32) ≤ k'.heap.end_address)
    × Granted false 0x1000 k'
        (free_block 0x1000 (0x1000 + growth 0x1000 one_page) ∷ [])
        (allocate 5 0x1000 false one_page)
allocate-Expanded_example =
    allocate-Expanded true 3 0x1000 one_page expanded (free_block 0x1000 0x1000 ∷ []) false
      (free_block 0x1000 (0x1000 + growth 0x1000 one_page) ∷ []) one_page-IsHeap no_room
      (omega arith) (omega arith) one_page-expand (longer_hole [] (free_block 0x1000 0x1000) refl)

growth_of_one_page : growth 0x1000 one_page ≡ 0x2000
unfolding round_up
growth_of_one_page = refl
