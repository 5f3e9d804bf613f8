-- ===== src/Heap/Carve.antt =====
-- What `HeapAllocate` makes of a hole with room, without alignment.
use gewodsys.Base.{
  ℕ, ◌+◌, ◌-◌, ◌≤◌, ◌<◌, ◌≡◌, ◌∙◌, inr, arith, true, false, ltb, ◌==◌, lt→ltb, le→ltb, ne→==,
  word64,
}
use gewodsys.Rt.{Mem, load}
use gewodsys.Rt.Words.{Apart}
use gewodsys.Array.{OrderedArray, get, insert, remove}
use gewodsys.Pmm.{add64, sub64}
use gewodsys.Heap.{Kernel, size_of, write_header, write_footer}
use gewodsys.Heap.Allocate.{place, leave_rest, carve}
use gewodsys.Heap.Headers.{
  IsHeader, IsFooter, IsHeader-keep, load-write_header, load-write_footer, write_header-IsHeader,
  write_footer-IsFooter,
}

module _ (pos bytes : ℕ) (m : Mem) where
  -- A block of `bytes` bytes written at `pos`.
  abbrev pub write_block : Mem
  write_block = write_footer (pos + bytes - 16) pos (write_header pos 0 bytes m)

  pub load-write_block :
      (b u : ℕ) → 32 ≤ bytes → Apart pos bytes b u → load u b write_block ≡ load u b m
  load-write_block b u room apart =
      load-write_footer u b (pos + bytes - 16) pos (write_header pos 0 bytes m) (grind arith)
      ∙ load-write_header u b pos 0 bytes m (grind arith)

  pub write_block-IsHeader : 32 ≤ bytes → pos + bytes < word64 → IsHeader pos 0 bytes write_block
  write_block-IsHeader room fits =
      IsHeader-keep pos 0 bytes (write_header pos 0 bytes m) write_block
        (λ b u lo hi.
          load-write_footer u b (pos + bytes - 16) pos (write_header pos 0 bytes m)
            (inr (omega arith)))
        (write_header-IsHeader pos 0 bytes m (omega arith) (omega arith))

  pub write_block-IsFooter : pos < word64 → IsFooter (pos + bytes - 16) pos write_block
  write_block-IsFooter fits =
      write_footer-IsFooter (pos + bytes - 16) pos (write_header pos 0 bytes m) fits

module _ (size i : ℕ) (k : Kernel) where
  abbrev index : OrderedArray
  index = k.heap.index

  abbrev pos : ℕ
  pos = get index i k.mem

  abbrev hole : ℕ
  hole = size_of pos k.mem

  abbrev emptied : OrderedArray × Mem
  emptied = remove index i k.mem

  pub carve_whole :
      size + 32 ≤ hole
      → hole < size + 64
      → pos + hole < word64
      → carve size false i k ≡ (
        pos + 16,
        record k {
          heap = record k.heap { index = emptied.0 };
          mem = write_block pos hole emptied.1;
        },
      )
  unfolding carve place leave_rest
  carve_whole room tight fits =
      let need : add64 (add64 size 16) 16 ≡ size + 32 = omega arith in
      let small : ltb (sub64 hole (size + 32)) 32 ≡ true = lt→ltb _ _ (omega arith) in
      let given : add64 size (sub64 hole (size + 32)) ≡ hole - 32 = omega arith in
      let footer : add64 (add64 pos 16) (hole - 32) ≡ pos + hole - 16 = omega arith in
      let gone : sub64 hole hole ≡ 0 = omega arith in
      let out : add64 pos 16 ≡ pos + 16 = omega arith in rw (need, small, given, footer, gone, out)

  abbrev rest_at : ℕ
  rest_at = pos + (size + 32)

  abbrev rest_bytes : ℕ
  rest_bytes = hole - (size + 32)

  -- The block, and the hole behind it.
  abbrev pub split_mem : Mem
  split_mem =
      write_footer (pos + hole - 16) rest_at
        (write_header rest_at 1 rest_bytes (write_block pos (size + 32) emptied.1))

  pub carve_split :
      size + 64 ≤ hole
      → pos + hole < word64
      → pos + hole ≤ k.heap.end_address
      → carve size false i k ≡ (
        pos + 16,
        record k {
          heap = record k.heap { index = (insert emptied.0 rest_at split_mem).0 };
          mem = (insert emptied.0 rest_at split_mem).1;
        },
      )
  unfolding carve place leave_rest
  carve_split room fits inside =
      let need : add64 (add64 size 16) 16 ≡ size + 32 = omega arith in
      let big : ltb (sub64 hole (size + 32)) 32 ≡ false = le→ltb _ _ (omega arith) in
      let footer : add64 (add64 pos 16) size ≡ pos + (size + 32) - 16 = omega arith in
      let behind : add64 (pos + (size + 32) - 16) 16 ≡ rest_at = omega arith in
      let left : sub64 hole (size + 32) ≡ rest_bytes = omega arith in
      let some_left : (rest_bytes == 0) ≡ false = ne→== _ 0 (omega arith) in
      let last : sub64 (add64 rest_at rest_bytes) 16 ≡ pos + hole - 16 = omega arith in
      let inside' : ltb (pos + hole - 16) k.heap.end_address ≡ true = lt→ltb _ _ (omega arith) in
      let out : add64 pos 16 ≡ pos + 16 = omega arith in
      rw (need, big, footer, behind, left, some_left, last, inside', out)
