-- ===== src/Acpi/Host.antt =====
-- The functions of kernel/cpu/acpi.c on memory and on the configuration space, for the interpreter.
use mathlib.Core.Option
use gewodsys.Base.{
  ℕ, zero, suc, ◌*◌, ◌/◌, ◌%◌, Option, none, some, ltb, ◌==◌, if◌then◌else◌, word32,
}
use gewodsys.Rt.{copy_memory}
use gewodsys.Pmm.{add64, page_size}
use gewodsys.Vmm.{Machine, map_memory}
use gewodsys.Heap.{Kernel}
use gewodsys.Heap.Calls.{kmalloc, kfree}
use gewodsys.Ports.{Ports}
use gewodsys.Pci.{located, read8, read16, read32, write8, write16, write32}

-- `kmalloc` takes a `uint32_t`.
unfoldable pub laihost_malloc : ℕ → ℕ → Kernel → Option (ℕ × Kernel)
unfolding kmalloc
laihost_malloc fuel size k = kmalloc fuel (size % word32) k

unfoldable pub laihost_free : ℕ → ℕ → Kernel → Kernel
unfolding kfree
laihost_free ptr size k = kfree ptr k

unfoldable pub laihost_realloc : ℕ → ℕ → ℕ → ℕ → Kernel → Option (ℕ × Kernel)
unfolding kmalloc kfree copy_memory
laihost_realloc fuel ptr size old_size k =
    let moved : ℕ × Kernel → ℕ × Kernel =
      λ r. (r.0, kfree ptr (record r.1 { mem = copy_memory r.0 ptr old_size r.1.mem })) in
    if size == old_size
    then some (ptr, k)
    else if size == 0
    then some (0, kfree ptr k)
    else if ptr == 0
    then kmalloc fuel (size % word32) k
    else Option.map moved (kmalloc fuel (size % word32) k)

-- The loop of `laihost_map`; the first fuel is for its rounds.
unfoldable pub map_pages : ℕ → ℕ → ℕ → ℕ → ℕ → Machine → Option Machine
map_pages zero fuel address i count s = none
map_pages (suc n) fuel address i count s =
    let next = λ (s' : Machine). map_pages n fuel address (add64 i page_size) count s' in
    if ltb i count
    then Option.bind (map_memory fuel (add64 address i) (add64 address i) s) next
    else some s

unfoldable pub laihost_map : ℕ → ℕ → ℕ → Machine → Option (ℕ × Machine)
unfolding map_pages
laihost_map fuel address count s =
    let start = address / page_size * page_size in
    Option.map (λ s'. (start, s')) (map_pages fuel fuel start 0 count s)

-- The offset is cut to a `uint8_t` at each call.
module _ (P : Ports) where
  open P use {Dev}

  unfoldable pub laihost_pci_readb : ℕ → ℕ → ℕ → ℕ → ℕ → Dev → ℕ × Dev
  unfolding read8
  laihost_pci_readb seg bus slot func offset d = read8 P (located bus slot func) (offset % 256) d

  unfoldable pub laihost_pci_readw : ℕ → ℕ → ℕ → ℕ → ℕ → Dev → ℕ × Dev
  unfolding read16
  laihost_pci_readw seg bus slot func offset d = read16 P (located bus slot func) (offset % 256) d

  unfoldable pub laihost_pci_readd : ℕ → ℕ → ℕ → ℕ → ℕ → Dev → ℕ × Dev
  unfolding read32
  laihost_pci_readd seg bus slot func offset d = read32 P (located bus slot func) (offset % 256) d

  unfoldable pub laihost_pci_writeb : ℕ → ℕ → ℕ → ℕ → ℕ → ℕ → Dev → Dev
  unfolding write8
  laihost_pci_writeb seg bus slot func offset value d =
      write8 P (located bus slot func) (offset % 256) value d

  unfoldable pub laihost_pci_writew : ℕ → ℕ → ℕ → ℕ → ℕ → ℕ → Dev → Dev
  unfolding write16
  laihost_pci_writew seg bus slot func offset value d =
      write16 P (located bus slot func) (offset % 256) value d

  unfoldable pub laihost_pci_writed : ℕ → ℕ → ℕ → ℕ → ℕ → ℕ → Dev → Dev
  unfolding write32
  laihost_pci_writed seg bus slot func offset value d =
      write32 P (located bus slot func) (offset % 256) value d
