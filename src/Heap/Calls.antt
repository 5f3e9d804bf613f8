-- ===== src/Heap/Calls.antt =====
-- `MmInitializeHeap`, `kmalloc` and `kfree` of kernel/mem/heap.c.
use mathlib.Core.Option
use gewodsys.Base.{ℕ, zero, suc, ◌+◌, ◌*◌, false, Option, some}
use gewodsys.Rt.{Mem}
use gewodsys.Pmm.{request_page, page_size}
use gewodsys.Vmm.{Machine, map_memory}
use gewodsys.Heap.{Kernel, create}
use gewodsys.Heap.Allocate.{allocate}
use gewodsys.Heap.Free.{free}

abbrev pub heap_addr : ℕ
heap_addr = 0x0000100000000000

abbrev pub heap_size : ℕ
heap_size = page_size * 65536

-- The pages that `MmInitializeHeap` maps, one a round.
unfoldable pub map_heap : ℕ → ℕ → ℕ → Machine → Option Machine
map_heap fuel zero offset s = some s
map_heap fuel (suc n) offset s = Option.bind (request_page fuel s.pmm) (λ r.
    Option.bind (map_memory fuel (heap_addr + offset) r.0 (record s { pmm = r.1 }))
      (map_heap fuel n (offset + page_size)))

unfoldable pub initialize_heap : ℕ → Mem → Machine → Option Kernel
unfolding map_heap create
initialize_heap fuel m s =
    Option.bind (map_heap fuel 65536 0 s)
      (create fuel heap_addr (heap_addr + heap_size) (heap_addr + 0x40000000) 0 0 m)

unfoldable pub kmalloc : ℕ → ℕ → Kernel → Option (ℕ × Kernel)
unfolding allocate
kmalloc fuel size k = allocate fuel size false k

unfoldable pub kfree : ℕ → Kernel → Kernel
unfolding free
kfree address k = free address k
