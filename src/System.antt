-- ===== src/System.antt =====
-- The state that the parts of the kernel share while it starts, and what they do to it together.
pub mod Madt
pub mod Masking
mod Tests
use mathlib.Core.Option
use gewodsys.Base.{ℕ, Option}
use gewodsys.Ports.{Ports}
use gewodsys.Vmm.{map_memory}
use gewodsys.Heap.{Kernel}
use gewodsys.Heap.Calls.{kmalloc}
use gewodsys.Apic.Hardware.{Device}
use gewodsys.Apic.{Apic}

-- The interrupt code with the memory-mapped registers, the ports, and the heap with the machine.
pub record System (D : Device) (P : Ports) : Type 0 where
  pub apic : Apic D
  pub ports : P.Dev
  pub kernel : Kernel

module _ (D : Device) (P : Ports) where
  -- `MmMapMemory(address, address)`
  unfoldable pub map_identity : ℕ → ℕ → System D P → Option (System D P)
  unfolding map_memory
  map_identity fuel address s =
      Option.map (λ m. record s { kernel = record s.kernel { machine = m } })
        (map_memory fuel address address s.kernel.machine)

  unfoldable pub allocate_for : ℕ → ℕ → System D P → Option (ℕ × System D P)
  unfolding kmalloc
  allocate_for fuel size s =
      Option.map (λ r. (r.0, record s { kernel = r.1 })) (kmalloc fuel size s.kernel)
