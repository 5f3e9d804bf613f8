-- ===== src/Heap/Tests/Release.antt =====
-- The theorems on releases at a heap of four blocks, and at one of two.
use mathlib.Core.List.{mem-cons_self}
use mathlib.Core.List.Perm
use gewodsys.Base.{some, false, true, ◌≡◌, refl, arith, inl, inr, [], ◌∷◌, ◌++◌}
use gewodsys.Rt.{load, store, store8}
use gewodsys.Array.{get, insert, remove}
use gewodsys.Heap.{
  Kernel, header_predicate, write_header, write_footer, magic_of, find_smallest_hole, find_hole,
  fits,
}
use gewodsys.Heap.Allocate.{allocate, carve, place, leave_rest}
use gewodsys.Heap.Free.{free}
use gewodsys.Heap.Tiling.{used, free_block, IsBlock, Tiled}
use gewodsys.Heap.Carve.{write_block}
use gewodsys.Heap.Neighbours.{apart, behind_used, takes_hole, cuts_heap}
use gewodsys.Heap.Steps.{Step, allocated, freed, none_yet, then_, Run-IsHeap}
use gewodsys.Heap.Reindex.{free-IsHeap}
use gewodsys.Heap.Invariant.{IsHeap}
use gewodsys.Heap.Tests.{machine, heap, empty, empty-IsHeap, room}

-- Four blocks of 0x100 bytes from 0x2000 on: two allocated ones, a hole and an allocated one.
abbrev row : Kernel
row = record {
  heap = record heap { start_address = 0x2000; end_address = 0x2400 };
  mem = write_block 0x2000 0x100 (
      write_block 0x2100 0x100
        (write_header 0x2200 1 0x100 (write_block 0x2300 0x100 (store 8 64 0x2200 (λ _. 0)))));
  machine = machine;
}

row-Tiled : Tiled row.mem 0x2000 0x2400 (
    []
    ++ (used 0x2000 0x100 ∷ used 0x2100 0x100 ∷ free_block 0x2200 0x100 ∷ used 0x2300 0x100 ∷ []))
unfolding write_header write_footer load store store8
row-Tiled = (refl, first, (refl, second, (refl, third, (refl, fourth, refl))))
  where
    first : IsBlock (used 0x2000 0x100) row.mem
    first = record {
      room = omega arith;
      header = record { magic = refl; kind = refl; bytes = refl };
      footer = inr (record { magic = refl; block = refl });
    }

    second : IsBlock (used 0x2100 0x100) row.mem
    second = record {
      room = omega arith;
      header = record { magic = refl; kind = refl; bytes = refl };
      footer = inr (record { magic = refl; block = refl });
    }

    third : IsBlock (free_block 0x2200 0x100) row.mem
    third = record {
      room = omega arith;
      header = record { magic = refl; kind = refl; bytes = refl };
      footer = inl refl;
    }

    fourth : IsBlock (used 0x2300 0x100) row.mem
    fourth = record {
      room = omega arith;
      header = record { magic = refl; kind = refl; bytes = refl };
      footer = inr (record { magic = refl; block = refl });
    }

row-IsHeap :
    IsHeap true row
      (used 0x2000 0x100 ∷ used 0x2100 0x100 ∷ free_block 0x2200 0x100 ∷ used 0x2300 0x100 ∷ [])
unfolding write_header write_footer load store store8
row-IsHeap = record {
  tiled = row-Tiled;
  listed = Perm.refl (0x2200 ∷ []);
  sorted = λ e. (tt, tt);
  by_size = refl;
  below = omega arith;
  count = omega arith;
  top = omega arith;
}

free-IsHeap_example :
    IsHeap true
      (free 0x2110 row)
      (used 0x2000 0x100 ∷ free_block 0x2100 0x200 ∷ used 0x2300 0x100 ∷ [])
free-IsHeap_example =
    free-IsHeap true row (used 0x2000 0x100 ∷ []) (used 0x2000 0x100 ∷ []) (used 0x2300 0x100 ∷ [])
      (used 0x2100 0x100) (free_block 0x2200 0x100) (free_block 0x2100 0x100)
      (free_block 0x2100 0x200 ∷ used 0x2300 0x100 ∷ []) row-IsHeap refl
      (behind_used [] (used 0x2000 0x100) refl refl) (takes_hole refl (omega arith)) (omega arith)
      (omega arith)

-- The heap of one hole after an allocation of 0x100 bytes.
abbrev one_taken : Kernel
one_taken = (carve 0x100 false 0 empty).1

one_taken-allocate : allocate 1 0x100 false empty ≡ some (0x1010, one_taken)
unfolding allocate find_smallest_hole find_hole fits carve place leave_rest get insert remove
    write_header write_footer load store store8 header_predicate
one_taken-allocate = refl

one_taken_space : (one_taken.heap.index.array ≡ 64) × (one_taken.heap.index.size ≡ 1)
unfolding carve place leave_rest get insert remove write_header write_footer load store store8
one_taken_space = (refl, refl)

one_taken_start :
    (one_taken.heap.start_address ≡ 0x1000)
    × (one_taken.heap.end_address ≡ 0x71000)
    × (magic_of 0xFF0 one_taken.mem ≡ 0)
unfolding carve place leave_rest get insert remove write_header write_footer load store store8
one_taken_start = (refl, refl, refl)

one_taken_Step :
    Step true empty
      (free_block 0x1000 0x70000 ∷ [])
      true
      one_taken
      (used 0x1000 0x120 ∷ free_block 0x1120 0x6FEE0 ∷ [])
one_taken_Step =
    allocated 0 0x100 0x1000 [] [] (free_block 0x1000 0x70000) mem-cons_self room (omega arith)
      one_taken-allocate

released_Step :
    Step true one_taken
      (used 0x1000 0x120 ∷ free_block 0x1120 0x6FEE0 ∷ [])
      true
      (free 0x1010 one_taken)
      (free_block 0x1000 0x70000 ∷ [])
unfolding carve place leave_rest get insert remove write_header write_footer load store store8
released_Step =
    freed [] [] [] (used 0x1000 0x120) (free_block 0x1120 0x6FEE0) (free_block 0x1000 0x120)
      (free_block 0x1000 0x70000 ∷ []) refl (apart (omega arith) (λ e. absurd (omega (arith, e))))
      (cuts_heap refl (omega arith) (omega arith)) (omega arith) (omega arith)

-- The block that is allocated is released again.
Run-IsHeap_example : IsHeap true (free 0x1010 one_taken) (free_block 0x1000 0x70000 ∷ [])
Run-IsHeap_example =
    Run-IsHeap true empty (free_block 0x1000 0x70000 ∷ []) true (free 0x1010 one_taken)
      (free_block 0x1000 0x70000 ∷ []) empty-IsHeap
      (then_ (then_ none_yet one_taken_Step) released_Step)
