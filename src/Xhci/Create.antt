-- ===== src/Xhci/Create.antt =====
-- How many blocks a new ring is taken to hold, and how many are allocated.
use mathlib.Core.Option
use gewodsys.Base.{ℕ, ◌+◌, ◌-◌, ◌*◌, ◌/◌, ◌%◌, ◌^◌, ◌≤◌, ◌<◌, ◌≡◌, ◌↔◌, refl, arith, some, word32}
use gewodsys.Rt.{zero_memory}
use gewodsys.Heap.{Kernel}
use gewodsys.Heap.Calls.{kmalloc}
use gewodsys.Xhci.{Ring, ring_create, num_pages, num_trbs, sizeof_ring, sizeof_trb}

-- A ring whose blocks are the memory at `ptr`, and whose next block is the first.
abbrev pub new_ring : ℕ → ℕ → Ring
new_ring ptr n = record { ptr = ptr; index = 0; max_index = n; cycle = 1 }

num_trbs-size : (size : ℕ) → size ≤ 2 ^ 28 - 256 → num_trbs size ≡ (size + 255) / 256 * 256
unfolding num_trbs num_pages
num_trbs-size size small = omega arith

-- Where the heap has `sizeof_ring` bytes and then 16 for each of `size` blocks, up to 2^28 - 256,
-- `XhciRingCreate` makes a ring at the first address whose blocks lie at the second. The ring is taken
-- to hold the next multiple of 256 blocks, which reach behind the bytes that were asked for unless
-- `size` is itself that multiple.
pub ring_create-size :
    (fuel size at ptr : ℕ) (k k1 k2 : Kernel)
    → size ≤ 2 ^ 28 - 256
    → kmalloc fuel sizeof_ring k ≡ some (at, k1)
    → kmalloc fuel (size * sizeof_trb) (record k1 { mem = zero_memory at sizeof_ring k1.mem })
      ≡ some (ptr, k2)
    → let n = (size + 255) / 256 * 256 in
      (ring_create fuel size k ≡ some (at, new_ring ptr n, k2))
      × (size ≤ n)
      × ((size * sizeof_trb < n * sizeof_trb) ↔ (0 < size % 256))
unfolding ring_create Option.bind
ring_create-size fuel size at ptr k k1 k2 small first second =
    let bytes : size * sizeof_trb % word32 ≡ size * sizeof_trb = omega arith in
    (
      rw (first, bytes, second, num_trbs-size size small) refl,
      omega arith,
      (λ e. omega (arith, e), λ e. omega (arith, e)),
    )
