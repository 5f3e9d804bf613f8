-- ===== src/Heap.antt =====
-- kernel/mem/heap.c: a heap of blocks, each with a header before it and a footer behind it, and an
-- ordered array of the blocks that are holes.
pub mod Index
pub mod Placed
pub mod Invariant
pub mod Allocation
pub mod Release
pub mod Reindex
pub mod Resize
pub mod Expand
pub mod Highest
pub mod Room
pub mod Contract
pub mod Steps
pub mod Marked
pub mod Neighbours
pub mod Grant
pub mod Safety
pub mod Fresh
pub mod Allocate
pub mod Free
pub mod Calls
pub mod Search
pub mod Carve
pub mod Headers
pub mod Tiling
pub mod Split
pub mod Join
pub mod Coalesce
pub mod Trim
mod Tests
use mathlib.Core.Option
use gewodsys.Base.{
  ℕ, zero, suc, ◌+◌, ◌-◌, ◌*◌, ◌/◌, ◌%◌, bit_and, Bool, Option, none, some, ltb, leb, ◌==◌,
  if◌then◌else◌,
}
use gewodsys.Rt.{Mem, load, store}
use gewodsys.Array.{OrderedArray, get, insert, remove}
use gewodsys.Array as Array
use gewodsys.Pmm.{Pmm, request_page, add64, sub64, page_size}
use gewodsys.Vmm.{Machine, map_memory, get_identity_page}

-- `Heap`, which lies in a page of its own.
pub record Heap : Type 0 where
  pub index : OrderedArray
  pub start_address : ℕ
  pub end_address : ℕ
  pub max_address : ℕ
  pub supervisor : ℕ
  pub readonly : ℕ

-- The heap, the bytes at its virtual addresses, and the machine that maps them. What a page holds
-- when it is first mapped is what `mem` says there.
pub record Kernel : Type 0 where
  pub heap : Heap
  pub mem : Mem
  pub machine : Machine

abbrev pub heap_magic : ℕ
heap_magic = 0x123890AB

abbrev pub header_bytes : ℕ
header_bytes = 16

abbrev pub footer_bytes : ℕ
footer_bytes = 16

-- The fields of `HeapHeader` and `HeapFooter`.
abbrev pub magic_of : ℕ → Mem → ℕ
magic_of a m = load 4 a m

abbrev pub is_hole : ℕ → Mem → ℕ
is_hole a m = load 1 (a + 4) m

abbrev pub size_of : ℕ → Mem → ℕ
size_of a m = load 8 (a + 8) m

abbrev pub header_of : ℕ → Mem → ℕ
header_of a m = load 8 (a + 8) m

unfoldable pub write_header : ℕ → ℕ → ℕ → Mem → Mem
write_header a hole size m = store 8 (a + 8) size (store 1 (a + 4) hole (store 4 a heap_magic m))

unfoldable pub write_footer : ℕ → ℕ → Mem → Mem
write_footer a header m = store 8 (a + 8) header (store 4 a heap_magic m)

unfoldable pub header_predicate : ℕ → ℕ → Mem → Bool
header_predicate a b m = ltb (size_of a m) (size_of b m)

-- The pages that the loop of `HeapExpand` maps; the first fuel is for the rounds, the second for the
-- requests of pages.
unfoldable pub expand_loop : ℕ → ℕ → ℕ → ℕ → ℕ → Machine → Option Machine
expand_loop zero fuel start size offset s = none
expand_loop (suc n) fuel start size offset s =
    let next = λ (s' : Machine). expand_loop n fuel start size (add64 offset page_size) s' in
    if ltb offset size
    then Option.bind (request_page fuel s.pmm)
        (λ r. Option.bind (map_memory fuel (add64 start offset) r.0 (record s { pmm = r.1 })) next)
    else some s

-- The mask has 32 bits, and a page is added even to a multiple of the page size.
unfoldable pub round_up : ℕ → ℕ
round_up size = if bit_and size 0xFFFFF000 == 0 then size else bit_and size 0xFFFFF000 + page_size

unfoldable pub expand : ℕ → ℕ → Kernel → Option Kernel
unfolding expand_loop round_up
expand fuel size k =
    let h = k.heap in
    Option.map
      (λ s. record k {
        machine = s;
        heap = record h { end_address = add64 h.start_address (round_up size) };
      })
      (expand_loop fuel fuel h.start_address (round_up size) (sub64 h.end_address h.start_address)
        k.machine)

abbrev pub heap_min_size : ℕ
heap_min_size = 0x70000

-- `HeapContract` keeps one bit of the size where it means to clear twelve. Its loop only counts.
unfoldable pub contracted : ℕ → ℕ
contracted size =
    let s = if bit_and size 0x1000 == 0 then size else bit_and size 0x1000 + 0x1000 in
    if ltb s heap_min_size then heap_min_size else s

unfoldable pub contract : ℕ → Heap → ℕ × Heap
unfolding contracted
contract size h =
    (contracted size, record h { end_address = add64 h.start_address (contracted size) })

-- What the alignment of a block takes from a hole.
unfoldable pub alignment_gap : ℕ → ℕ
alignment_gap a =
    if bit_and (add64 a header_bytes) 0xFFFFF000 == 0
    then 0
    else page_size - add64 a header_bytes % page_size

-- Whether a hole has room. Sizes are below 2^63, so that the signed comparison is one of numbers.
unfoldable pub fits : ℕ → Bool → ℕ → Mem → Bool
unfolding alignment_gap
fits size aligned a m = leb (if aligned then size + alignment_gap a else size) (size_of a m)

-- The loop of `HeapFindSmallestHole`, with the rounds left up to the size of the index.
unfoldable pub find_hole : ℕ → Bool → OrderedArray → Mem → ℕ → ℕ → Option ℕ
unfolding fits
find_hole size aligned index m zero i = none
find_hole size aligned index m (suc n) i =
    let rest = find_hole size aligned index m n (i + 1) in
    if fits size aligned (get index i m) m then some i else rest

unfoldable pub find_smallest_hole : ℕ → Bool → Heap → Mem → Option ℕ
unfolding find_hole
find_smallest_hole size aligned h m = find_hole size aligned h.index m h.index.size 0

abbrev pub heap_index_size : ℕ
heap_index_size = 0x20000

-- `HeapCreate` over the addresses from `start` on.
unfoldable pub create : ℕ → ℕ → ℕ → ℕ → ℕ → ℕ → Mem → Machine → Option Kernel
unfolding write_header header_predicate
create fuel start end_ max supervisor readonly m s =
    Option.map
      (λ r.
        let (index, m1) = Array.create start heap_index_size header_predicate m in
        let past = add64 start (8 * heap_index_size) in
        let first =
          if past / page_size == 0 then past else add64 (past / page_size * page_size) page_size in
        let (index', m2) = insert index first (write_header first 1 (sub64 end_ first) m1) in
        record {
          heap = record {
            index = index';
            start_address = first;
            end_address = end_;
            max_address = max;
            supervisor = supervisor;
            readonly = readonly;
          };
          mem = m2;
          machine = r.1;
        })
      (get_identity_page fuel s)
