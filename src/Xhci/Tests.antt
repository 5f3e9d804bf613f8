-- ===== src/Xhci/Tests.antt =====
-- A ring of four slots in empty memory, and a ring that a small heap has room for.
use gewodsys.Base.{ℕ, ◌*◌, ◌%◌, ◌^◌, ◌≤◌, ◌<◌, ◌≡◌, ◌↔◌, refl, arith, none, some, [], ◌∷◌}
use gewodsys.Base.Int.{pos}
use gewodsys.Rt.{Mem, load, store, store8, zero_memory}
use gewodsys.Array.{get, insert, remove}
use gewodsys.Pmm.{Pmm}
use gewodsys.Vmm.{Machine}
use gewodsys.Heap.{
  Kernel, header_predicate, write_header, write_footer, find_smallest_hole, find_hole, fits,
}
use gewodsys.Heap.Allocate.{allocate, carve, place, leave_rest}
use gewodsys.Heap.Calls.{kmalloc}
use gewodsys.Xhci.{Ring, Added, sizeof_ring, sizeof_trb, ring_create, ring_add}
use gewodsys.Xhci.Create.{new_ring, ring_create-size}
use gewodsys.Xhci.Queue.{IsQueue, ring_add-IsQueue, fresh-IsQueue}

abbrev no_pages : Pmm
no_pages = record {
  total_available_pages = 0;
  first_available_page_addr = 0;
  last_available_page_address = 0;
  total_memory = 0;
  total_pages = 0;
  bitfield = 0;
  free_memory = 0;
  locked_memory = 0;
  reserved_memory = 0;
  bits = λ _. 0;
  last_requested = 0;
  warnings = 0;
}

abbrev machine : Machine
machine = record { mem = λ _. 0; pmm = no_pages; pml4 = 0; warnings = 0 }

abbrev ring : Ring
ring = record { ptr = 0x1000; index = 0; max_index = 4; cycle = 1 }

abbrev blank : Mem
blank _ = 0

-- A block of type 23, which asks the controller for nothing.
abbrev noop : ℕ
noop = 23 * 2 ^ 106

abbrev one : Added
one = ring_add ring noop machine blank

ring-IsQueue : IsQueue ring machine 0 1 [] blank
unfolding load
ring-IsQueue = fresh-IsQueue ring machine blank (omega arith) (omega arith) refl refl (λ k lt. refl)

one-IsQueue : IsQueue one.ring machine 0 1 (noop ∷ []) one.mem
one-IsQueue =
    (ring_add-IsQueue ring machine 0 1 noop [] blank ring-IsQueue (omega arith)
      (λ e. omega (arith, e)) (omega arith)).1

-- A heap whose index names one hole at 0x1000, of 0x70000 bytes.
abbrev empty : Kernel
empty = record {
  heap = record {
    index = record { array = 64; size = 1; capacity = 4; predicate = header_predicate };
    start_address = 0x1000;
    end_address = 0x71000;
    max_address = 0x71000;
    supervisor = 0;
    readonly = 0;
  };
  mem = write_header 0x1000 1 0x70000 (store 8 64 0x1000 blank);
  machine = machine;
}

-- The heap after the ring itself is allocated, and after its 300 blocks are.
abbrev with_ring : Kernel
with_ring = elim (kmalloc 1 sizeof_ring empty) [ none ↦ empty | some r ↦ r.1 ]

abbrev cleared : Kernel
cleared = record with_ring { mem = zero_memory 0x1010 sizeof_ring with_ring.mem }

abbrev with_blocks : Kernel
with_blocks = elim (kmalloc 1 (300 * sizeof_trb) cleared) [ none ↦ empty | some r ↦ r.1 ]

empty-kmalloc : kmalloc 1 sizeof_ring empty ≡ some (0x1010, with_ring)
unfolding kmalloc allocate find_smallest_hole find_hole fits carve place leave_rest get insert
    remove write_header write_footer load store store8 header_predicate
empty-kmalloc = refl

cleared-kmalloc : kmalloc 1 (300 * sizeof_trb) cleared ≡ some (0x1048, with_blocks)
unfolding kmalloc allocate find_smallest_hole find_hole fits carve place leave_rest get insert
    remove write_header write_footer load store store8 header_predicate zero_memory
cleared-kmalloc = refl

ring_create-size_example :
    (ring_create 1 300 empty ≡ some (0x1010, new_ring 0x1048 512, with_blocks))
    × (300 ≤ 512)
    × ((300 * sizeof_trb < 512 * sizeof_trb) ↔ (0 < 300 % 256))
ring_create-size_example =
    ring_create-size 1 300 0x1010 0x1048 empty with_ring with_blocks (omega arith) empty-kmalloc
      cleared-kmalloc

ring_add-IsQueue_example :
    let a = ring_add one.ring noop machine one.mem in
    (a.result ≡ pos 0) × IsQueue a.ring machine 0 1 (noop ∷ noop ∷ []) a.mem
unfolding ring_add
ring_add-IsQueue_example =
    ring_add-IsQueue one.ring machine 0 1 noop (noop ∷ []) one.mem one-IsQueue (omega arith)
      (λ e. omega (arith, e)) (omega arith)
