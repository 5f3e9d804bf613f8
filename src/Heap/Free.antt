-- ===== src/Heap/Free.antt =====
-- `HeapFree` of kernel/mem/heap.c.
use gewodsys.Base.{ℕ, zero, suc, ◌+◌, Bool, true, false, not, ◌&&◌, ltb, ◌==◌, if◌then◌else◌}
use gewodsys.Rt.{Mem, store}
use gewodsys.Array.{OrderedArray, get, insert, remove}
use gewodsys.Pmm.{add64, sub64}
use gewodsys.Heap.{
  Heap, Kernel, heap_magic, header_bytes, footer_bytes, magic_of, is_hole, size_of, header_of,
  write_footer, contract,
}

-- The search for a block in the index, with the rounds left; the size of the index if it is not there.
unfoldable pub find_entry : ℕ → OrderedArray → Mem → ℕ → ℕ → ℕ
find_entry a index m zero i = i
find_entry a index m (suc n) i =
    let rest = find_entry a index m n (i + 1) in if get index i m == a then i else rest

-- What `HeapFree` has found so far: the hole's header and footer, whether it must be added to the
-- index, and the state.
pub record Freed : Type 0 where
  pub header : ℕ
  pub footer : ℕ
  pub add : Bool
  pub index : OrderedArray
  pub mem : Mem

-- The block becomes a hole, joined to the one before it if that is a hole.
unfoldable pub join_left : ℕ → OrderedArray → Mem → Freed
join_left header index m =
    let footer = sub64 (add64 header (size_of header m)) footer_bytes in
    let m1 = store 1 (header + 4) 1 m in
    let before = sub64 header footer_bytes in
    let left = header_of before m1 in
    if magic_of before m1 == heap_magic && is_hole left m1 == 1
    then record {
      header = left;
      footer = footer;
      add = false;
      index = index;
      mem =
          let m2 = store 8 (footer + 8) left m1 in
          store 8 (left + 8) (add64 (size_of left m2) (size_of header m1)) m2;
    }
    else record { header = header; footer = footer; add = true; index = index; mem = m1 }

-- The hole behind it is joined to it, and leaves the index.
unfoldable pub join_right : Freed → Freed
unfolding find_entry
join_right f =
    let right = add64 f.footer footer_bytes in
    if magic_of right f.mem == heap_magic && not (is_hole right f.mem == 0)
    then (let m1 =
          store 8 (f.header + 8) (add64 (size_of f.header f.mem) (size_of right f.mem)) f.mem in
        let (index, m2) = remove f.index (find_entry right f.index m1 f.index.size 0) m1 in
        record f {
          footer = sub64 (add64 right (size_of right m1)) footer_bytes;
          index = index;
          mem = m2;
        })
    else f

-- The end of `HeapFree` where the hole lies at the end of the heap, which is contracted to it. `right`
-- is what stood behind the block.
unfoldable pub trim_to : ℕ → ℕ → Freed → Freed
unfolding find_entry write_footer
trim_to right left f =
    let i = find_entry right f.index f.mem f.index.size 0 in
    let footer = sub64 (add64 f.header left) footer_bytes in
    let (index, m) = remove f.index i f.mem in
    if not (left == 0)
    then record f { mem = write_footer footer f.header (store 8 (f.header + 8) left f.mem) }
    else if ltb i f.index.size
    then record f { index = index; mem = m }
    else f

unfoldable pub trim : ℕ → Freed → Heap → Freed × Heap
unfolding contract trim_to
trim right f h =
    let old = sub64 h.end_address h.start_address in
    let (new, h') = contract (sub64 f.header h.start_address) h in
    if add64 f.footer footer_bytes == h.end_address
    then (trim_to right (sub64 (size_of f.header f.mem) (sub64 old new)) f, h')
    else (f, h)

-- `HeapFree`
unfoldable pub free : ℕ → Kernel → Kernel
unfolding join_left join_right trim
free address k =
    if address == 0
    then k
    else let f = join_left (sub64 address header_bytes) k.heap.index k.mem in
      let (g, h) = trim (add64 f.footer footer_bytes) (join_right f) k.heap in
      let (index, m) = if g.add then insert g.index g.header g.mem else (g.index, g.mem) in
      record k { heap = record h { index = index }; mem = m }
