-- ===== src/Heap/Tests.antt =====
-- The theorems at a heap of the least size that is one hole.
mod Release
mod Expand
use mathlib.Core.Option
use mathlib.Core.List.{mem-cons_self}
use mathlib.Core.List.Perm
use gewodsys.Base.{
  ℕ, ◌<◌, some, none, ◌-◌, ◌*◌, ◌%◌, ◌≤◌, false, true, ◌+◌, ◌≡◌, refl, arith, inl, inr, [], ◌∷◌,
  ◌++◌,
}
use gewodsys.Rt.{load, store, store8}
use gewodsys.Array.{get, insert, remove}
use gewodsys.Bitmap.{get_bit}
use gewodsys.Pmm.{Pmm, page_size, request_page, search_page}
use gewodsys.Vmm.{
  Machine, get_identity_page, map_memory, map_aligned, warn_unaligned, get_page_indices, next_table,
}
use gewodsys.Heap.{
  Heap, Kernel, create, heap_index_size, header_predicate, write_header, write_footer, size_of,
  is_hole, magic_of, find_smallest_hole, find_hole, fits,
}
use gewodsys.Heap.Allocate.{allocate, carve, place, leave_rest}
use gewodsys.Heap.Free.{Freed, free, trim}
use gewodsys.Heap.Tiling.{used, free_block, IsBlock, Tiled}
use gewodsys.Heap.Carve.{write_block}
use gewodsys.Heap.Neighbours.{apart, behind_used, takes_hole, cuts_heap}
use gewodsys.Heap.Reindex.{free-IsHeap}
use gewodsys.Heap.Invariant.{IsHeap}
use gewodsys.Heap.Fresh.{create-IsHeap}
use gewodsys.Heap.Grant.{Granted, allocate-Granted}
use gewodsys.Heap.Safety.{Clear, in_use, allocate-Clear}
use gewodsys.Heap.Trim.{end_address-trim}

abbrev no_pages : Pmm
no_pages = record {
  total_available_pages = 0;
  first_available_page_addr = 0;
  last_available_page_address = 0;
  total_memory = 0;
  total_pages = 0;
  bitfield = 0;
  free_memory = 0;
  locked_memory = 0;
  reserved_memory = 0;
  bits = λ _. 0;
  last_requested = 0;
  warnings = 0;
}

abbrev machine : Machine
machine = record { mem = λ _. 0; pmm = no_pages; pml4 = 0; warnings = 0 }

abbrev heap : Heap
heap = record {
  index = record { array = 64; size = 1; capacity = 4; predicate = header_predicate };
  start_address = 0x1000;
  end_address = 0x71000;
  max_address = 0x71000;
  supervisor = 0;
  readonly = 0;
}

-- The index names the hole at 0x1000, which has 0x70000 bytes.
abbrev empty : Kernel
empty = record {
  heap = heap;
  mem = write_header 0x1000 1 0x70000 (store 8 64 0x1000 (λ _. 0));
  machine = machine;
}

hole-IsBlock : IsBlock (free_block 0x1000 0x70000) empty.mem
unfolding write_header load store store8
hole-IsBlock = record {
  room = omega arith;
  header = record { magic = refl; kind = refl; bytes = refl };
  footer = inl refl;
}

first_entry : get heap.index 0 empty.mem ≡ 0x1000
unfolding get write_header load store store8
first_entry = refl

empty-IsHeap : IsHeap true empty (free_block 0x1000 0x70000 ∷ [])
unfolding write_header load store store8
empty-IsHeap = record {
  tiled = (refl, hole-IsBlock, refl);
  listed = Perm.refl (0x1000 ∷ []);
  sorted = λ e. (tt, tt);
  by_size = refl;
  below = omega arith;
  count = omega arith;
  top = omega arith;
}

room : 0x100 + 32 ≤ size_of 0x1000 empty.mem
unfolding write_header load store store8
room = omega arith

allocate-Granted_example :
    Granted true 0x100 empty (free_block 0x1000 0x70000 ∷ []) (allocate 1 0x100 false empty)
allocate-Granted_example =
    allocate-Granted true 0 0x100 0x1000 empty (free_block 0x1000 0x70000 ∷ []) empty-IsHeap
      mem-cons_self room (omega arith)

-- Page tables at the addresses 0x1000 to 0x4000, whose first entries lead from one to the next, and
-- eight free pages from 0x5000 on.
abbrev paged : Machine
paged = record {
  mem = store 8 0x1000 0x2003 (store 8 0x2000 0x3003 (store 8 0x3000 0x4003 (λ _. 0)));
  pmm = record no_pages { total_available_pages = 8; first_available_page_addr = 0x5000 };
  pml4 = 0x1000;
  warnings = 0;
}

abbrev with_page : Machine
with_page = elim (get_identity_page 1 paged) [ none ↦ paged | some r ↦ r.1 ]

paged-get_identity_page : get_identity_page 1 paged ≡ some (0x5000, with_page)
unfolding get_identity_page request_page map_memory next_table search_page get_bit load store store8
    Option.bind map_aligned warn_unaligned get_page_indices
paged-get_identity_page = refl

create-IsHeap_example :
    (k : Kernel) × (create 1 0x10000000 0x10200000 0x20000000 0 0 (λ _. 0) paged ≡ some k)
    × IsHeap true k (free_block k.heap.start_address (0x10200000 - k.heap.start_address) ∷ [])
    × (k.heap.start_address % page_size ≡ 0)
    × (0x10000000 + 8 * heap_index_size ≤ k.heap.start_address)
    × (k.heap.end_address ≡ 0x10200000)
create-IsHeap_example =
    create-IsHeap 1 0x10000000 0x10200000 0x20000000 0 0 (λ _. 0) paged (0x5000, with_page)
      paged-get_identity_page (omega arith) (omega arith)

allocate-Clear_example :
    (p : ℕ) × (after : Kernel) × (allocate 1 0x100 false empty ≡ some (p, after))
    × (0x1000 < p)
    × (p + 0x100 < 0x71000)
    × Clear p 0x100 (in_use (free_block 0x1000 0x70000 ∷ []))
allocate-Clear_example =
    allocate-Clear true 0 0x100 0x1000 empty (free_block 0x1000 0x70000 ∷ []) empty-IsHeap
      mem-cons_self room (omega arith)

-- An allocation and its release leave the one hole.
round_trip :
    let r = carve 0x100 false 0 empty in
    let k = free r.0 r.1 in
    (k.heap.index.size ≡ 1)
    × (get k.heap.index 0 k.mem ≡ 0x1000)
    × (size_of 0x1000 k.mem ≡ 0x70000)
    × (is_hole 0x1000 k.mem ≡ 1)
unfolding carve free get write_header load store store8 insert remove place leave_rest
round_trip = (refl, refl, refl, refl)

-- A hole 0x71000 bytes behind the start of the heap, to its end at 0x101000.
abbrev at_end : Freed
at_end = record {
  header = 0x72000;
  footer = 0x100FF0;
  add = true;
  index = heap.index;
  mem = write_header 0x72000 1 0x8F000 (λ _. 0);
}

end_address-trim_example :
    (trim 0 at_end (record heap { end_address = 0x101000 })).1.end_address ≡ 0x1000 + 0x70000
end_address-trim_example =
    end_address-trim 0 at_end (record heap { end_address = 0x101000 }) (omega arith) (omega arith)
      (omega arith) refl
