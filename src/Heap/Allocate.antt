-- ===== src/Heap/Allocate.antt =====
-- `HeapAllocate` of kernel/mem/heap.c.
use mathlib.Core.Option
use gewodsys.Base.{
  ℕ, zero, suc, ◌+◌, ◌-◌, ◌%◌, bit_and, Bool, not, ◌&&◌, Option, none, some, ltb, ◌==◌,
  if◌then◌else◌,
}
use gewodsys.Rt.{Mem, store}
use gewodsys.Array.{OrderedArray, get, insert, remove}
use gewodsys.Pmm.{add64, sub64, page_size}
use gewodsys.Heap.{
  Kernel, header_bytes, footer_bytes, size_of, write_header, write_footer, expand,
  find_smallest_hole,
}

-- Where an allocation takes place: the address and the size that are left of the hole.
pub record Place : Type 0 where
  pub pos : ℕ
  pub size : ℕ
  pub index : OrderedArray
  pub mem : Mem

-- An aligned block leaves a hole in front, which stays in the index; otherwise the hole leaves it.
unfoldable pub place : Bool → ℕ → OrderedArray → Mem → Place
place aligned i index m =
    let pos = get index i m in
    let hole = size_of pos m in
    let front = sub64 (page_size - pos % page_size) header_bytes in
    let at = add64 pos front in
    if aligned && not (bit_and pos 0xFFFFF000 == 0)
    then record {
      pos = at;
      size = sub64 hole front;
      index = index;
      mem = write_footer (sub64 at footer_bytes) pos (write_header pos 1 front m);
    }
    else let (index', m') = remove index i m in
      record { pos = pos; size = hole; index = index'; mem = m' }

-- The hole behind the block, where something is left.
unfoldable pub leave_rest : ℕ → ℕ → ℕ → OrderedArray → Mem → OrderedArray × Mem
leave_rest at left end_ index m =
    if left == 0
    then (index, m)
    else let m1 = write_header at 1 left m in
      let footer = sub64 (add64 at left) footer_bytes in
      insert index at (if ltb footer end_ then write_footer footer at m1 else m1)

-- The part of `HeapAllocate` that follows when the hole at index `i` has room.
unfoldable pub carve : ℕ → Bool → ℕ → Kernel → ℕ × Kernel
carve size aligned i k =
    let h = k.heap in
    let hole = size_of (get h.index i k.mem) k.mem in
    let need = add64 (add64 size header_bytes) footer_bytes in
    let whole = ltb (sub64 hole need) (header_bytes + footer_bytes) in
    let given = if whole then add64 size (sub64 hole need) else size in
    let taken = if whole then hole else need in
    let p = place aligned i h.index k.mem in
    let footer = add64 (add64 p.pos header_bytes) given in
    let m = write_footer footer p.pos (write_header p.pos 0 taken p.mem) in
    let (index, m') =
      leave_rest (add64 footer footer_bytes) (sub64 p.size taken) h.end_address p.index m in
    (add64 p.pos header_bytes, record k { heap = record h { index = index }; mem = m' })

-- The entry of the index with the highest address, if any is above `value`.
unfoldable pub highest : OrderedArray → Mem → ℕ → ℕ → ℕ → Option ℕ → Option ℕ
highest index m zero i value found = found
highest index m (suc n) i value found =
    let tmp = get index i m in
    let taller = ltb value tmp in
    highest index m n (i + 1) (if taller then tmp else value) (if taller then some i else found)

-- The hole that an expansion by `more` bytes adds or lengthens.
unfoldable pub grow_hole : Option ℕ → ℕ → ℕ → Kernel → Kernel
unfolding write_header write_footer
grow_hole none old_end more k =
    let m = write_header old_end 1 more k.mem in
    let (index, m') =
      insert k.heap.index old_end
        (write_footer (sub64 (add64 old_end more) footer_bytes) old_end m) in
    record k { heap = record k.heap { index = index }; mem = m' }
grow_hole (some i) old_end more k =
    let a = get k.heap.index i k.mem in
    let size = add64 (size_of a k.mem) more in
    record k {
      mem = write_footer (sub64 (add64 a size) footer_bytes) a (store 8 (a + 8) size k.mem);
    }

-- `HeapAllocate`. The fuel bounds the calls of itself after an expansion, and the loops in it.
unfoldable pub allocate : ℕ → ℕ → Bool → Kernel → Option (ℕ × Kernel)
unfolding find_smallest_hole expand highest grow_hole carve
allocate zero size aligned k = none
allocate (suc fuel) size aligned k =
    let need = add64 (add64 size header_bytes) footer_bytes in
    let h = k.heap in
    let old = sub64 h.end_address h.start_address in
    let again = λ (k' : Kernel).
      let more = sub64 (sub64 k'.heap.end_address k'.heap.start_address) old in
      let last = highest k'.heap.index k'.mem k'.heap.index.size 0 0 none in
      allocate fuel size aligned (grow_hole last h.end_address more k') in
    elim (find_smallest_hole need aligned h k.mem) [
      | none ↦ Option.bind (expand fuel (add64 old need) k) again
      | some i ↦ some (carve size aligned i k)
    ]
