-- ===== src/Xhci.antt =====
-- kernel/dev/usb/xhci.c: the rings of transfer request blocks that the driver shares with the host
-- controller. A block is a word of 128 bits in the memory of Rt.
pub mod Create
pub mod Blocks
pub mod Queue
pub mod Start
pub mod Initialize
pub mod Identity
mod Tests
use mathlib.Core.Option
use gewodsys.Base.{
  ℕ, ◌+◌, ◌-◌, ◌*◌, ◌/◌, ◌%◌, ◌||◌, Option, ◌==◌, if◌then◌else◌, word32, word64, field, with_field,
}
use gewodsys.Base.Int.{ℤ, pos, negsuc}
use gewodsys.Rt.{Mem, load, store, zero_memory}
use gewodsys.Pmm.{page_size, add64}
use gewodsys.Vmm.{Machine, get_physical_address}
use gewodsys.Heap.{Kernel}
use gewodsys.Heap.Calls.{kmalloc, kfree}

-- `XhciRing`. `ptr` is the address of the blocks.
pub record Ring : Type 0 where
  pub ptr : ℕ
  pub index : ℕ
  pub max_index : ℕ
  pub cycle : ℕ

abbrev pub sizeof_ring : ℕ
sizeof_ring = 24

abbrev pub sizeof_trb : ℕ
sizeof_trb = 16

-- The bit fields of `XhciTrb`.
abbrev pub cycle_of : ℕ → ℕ
cycle_of w = field 96 1 w

abbrev pub trb_type : ℕ → ℕ
trb_type w = field 106 6 w

abbrev pub trb_link : ℕ
trb_link = 6

abbrev pub cmd_ring_size : ℕ
cmd_ring_size = 256

abbrev pub evt_ring_size : ℕ
evt_ring_size = 256

abbrev pub trb_at : ℕ → ℕ → Mem → ℕ
trb_at ptr index m = load 16 (ptr + 16 * index) m

-- `XhciTrbLink` to the physical address of the blocks.
unfoldable pub link_to : ℕ → ℕ → ℕ
link_to cycle address =
    with_field 0 64 address
      (with_field 97 1 1 (with_field 96 1 cycle (with_field 106 6 trb_link 0)))

-- What the driver allocates for a ring of `size` blocks, and the blocks that it takes it to hold.
unfoldable pub num_pages : ℕ → ℕ
num_pages size = add64 (size * sizeof_trb % word64) 0xFFF / page_size % word32

unfoldable pub num_trbs : ℕ → ℕ
unfolding num_pages
num_trbs size = num_pages size * page_size % word32 / sizeof_trb

-- `XhciRingCreate`: the address of the ring, and its fields. `kmalloc` takes a `uint32_t`.
unfoldable pub ring_create : ℕ → ℕ → Kernel → Option (ℕ × Ring × Kernel)
unfolding num_trbs
ring_create fuel size k = Option.bind (kmalloc fuel sizeof_ring k) (λ r.
    let zeroed = record r.1 { mem = zero_memory r.0 sizeof_ring r.1.mem } in
    Option.map
      (λ q. (r.0, record { ptr = q.0; index = 0; max_index = num_trbs size; cycle = 1 }, q.1))
      (kmalloc fuel (size * sizeof_trb % word32) zeroed))

-- `XhciRingDestroy`, for the ring at an address.
unfoldable pub ring_destroy : ℕ → Ring → Kernel → Kernel
ring_destroy at r k = kfree at (kfree r.ptr k)

-- The outcome of `XhciRingAdd`: what it returns, the caller's block, the ring and the blocks.
pub record Added : Type 0 where
  pub result : ℤ
  pub trb : ℕ
  pub ring : Ring
  pub mem : Mem

-- The step of the index, with the link at the end of the ring.
unfoldable pub advance : Ring → Machine → Mem → Ring × Mem
unfolding link_to
advance r s m =
    let index = (r.index + 1) % word32 in
    let link = link_to r.cycle (get_physical_address r.ptr s) in
    if index == (r.max_index + word32 - 1) % word32
    then (
      record r { index = 0; cycle = if r.cycle == 0 then 1 else 0 },
      store 16 (r.ptr + 16 * index) link m,
    )
    else (record r { index = index }, m)

-- `XhciRingAdd`
unfoldable pub ring_add : Ring → ℕ → Machine → Mem → Added
unfolding advance
ring_add r trb s m =
    if trb_type trb == 0
    then record { result = negsuc 0; trb = trb; ring = r; mem = m }
    else let stamped = with_field 96 1 r.cycle trb in
      let (r', m') = advance r s (store 16 (r.ptr + 16 * r.index) stamped m) in
      record { result = pos 0; trb = stamped; ring = r'; mem = m' }

-- `XhciRingGet` into the block at the address `trb`, 0 for the null pointer.
unfoldable pub ring_get : Ring → ℕ → Mem → ℤ × Ring × Mem
ring_get r trb m =
    let last = trb_at r.ptr r.index m in
    let index = (r.index + 1) % word32 in
    if trb == 0 || r.index == 0
    then (negsuc 0, r, m)
    else if trb_type last == 0
    then (negsuc 0, r, m)
    else (
      pos 0,
      (if index == r.max_index
          then record r { index = 0; cycle = if r.cycle == 0 then 1 else 0 }
          else record r { index = index }),
      store 16 trb last m,
    )

unfoldable pub ring_get_physical_address : Ring → Machine → ℕ
ring_get_physical_address r s = add64 (get_physical_address r.ptr s) (r.index * sizeof_trb)

unfoldable pub ring_size : Ring → ℕ
ring_size r = r.max_index * sizeof_trb
