-- ===== src/Heap/Trim.antt =====
-- The end of the heap after the last block is freed.
use gewodsys.Base.{
  ℕ, ◌+◌, ◌-◌, ◌*◌, ◌/◌, ◌%◌, ◌^◌, ◌≤◌, ◌<◌, ◌≡◌, arith, bit_and, true, ◌||◌, ltb, ◌==◌,
  if◌then◌else◌, word64,
}
use gewodsys.Base.Masks.{bit_and-shifted}
use gewodsys.Pmm.{add64, sub64}
use gewodsys.Heap.{Heap, contracted, contract, heap_min_size}
use gewodsys.Heap.Free.{Freed, trim}

pub contracted_lem :
    (size : ℕ)
    → contracted size
      ≡ (if ltb size heap_min_size || size / 2 ^ 12 % 2 == 1 then heap_min_size else size)
unfolding contracted
contracted_lem size =
    let m : bit_and size 0x1000 ≡ size / 2 ^ 12 % 2 ^ 1 * 2 ^ 12 = bit_and-shifted 12 1 size in
    rw m (ground arith)

-- Where a hole ends the heap, freeing contracts the heap to the start of the hole only if that lies
-- 0x70000 bytes or more behind the heap's start and bit 12 of this distance is clear. In every other
-- case the heap then ends 0x70000 bytes behind its start, which is before the hole where the distance
-- is greater.
pub end_address-trim :
    (right : ℕ) (f : Freed) (h : Heap)
    → h.start_address ≤ f.header
    → f.header < word64
    → h.start_address + heap_min_size < word64
    → add64 f.footer 16 ≡ h.end_address
    → let o = f.header - h.start_address in
      (trim right f h).1.end_address
      ≡ h.start_address + (if ltb o heap_min_size || o / 2 ^ 12 % 2 == 1 then heap_min_size else o)
unfolding trim contract
end_address-trim right f h order small room last =
    let o : ℕ = f.header - h.start_address in
    let offset : sub64 f.header h.start_address ≡ o = omega arith in
    let reached : (add64 f.footer 16 == h.end_address) ≡ true = ground (arith, last) in
    rw (reached, offset, contracted_lem o) (ground arith)
