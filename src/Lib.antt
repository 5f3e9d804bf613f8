-- ===== src/Lib.antt =====
-- The core of the gewodsys kernel: its memory primitives, its page allocator, page tables and heap,
-- the routing of interrupts, the descriptor tables, the ACPI tables, the configuration of PCI devices,
-- the drivers of the USB controller and of the graphics device, the scheduler, the mouse and the
-- serial output.
--
-- How the parts depend on each other. `MmInitialize` takes the largest usable entry of the boot
-- loader's memory map and keeps a bitmap of its pages. `MmMapMemory` takes a page from that
-- allocator for each page table that is missing. The heap keeps its holes in an ordered array and maps
-- more pages where none has room. The enumeration of PCI devices reads their configuration space and
-- starts the first driver that takes a device; that of the USB controller shares rings of blocks with
-- it. The walk of the MADT adds the I/O APICs. The interrupt code maps requests to vectors, writes
-- the redirection entries of the I/O APICs and calls the handler of a vector. The scheduler keeps a
-- list of tasks and loads the address space of the one whose turn it is. `KeMain` starts the parts in
-- this order: the descriptor tables, the memory, the tasks, the tables of ACPI with the interrupts
-- and the PCI devices, and the keyboard and the mouse.
--
-- The files.
--   Base: native numbers, Boolean tests, lists, options, bit fields of words, integers.
--   Rt: kernel/lib/memory.c. Memory is a function from addresses to bytes; `load` and `store` are the
--     accesses of several bytes, low byte first. `zero_memory`, `copy_memory`, `fill_memory` and
--     `memcmp` are `RtZeroMemory`, `RtCopyMemory`, `RtFillMemory` and `memcmp`.
--   Array: kernel/lib/array.c. `create`, `insert`, `get` and `remove` are `ArrayCreate` and so on;
--     the cells lie in the memory of Rt.
--   Links: kernel/lib/list.h. `list_add`, `list_add_front` and `list_remove` are `LIST_ADD` and so on.
--   Bitmap: the bit macros of kernel/mem/pmm.c and of kernel/cpu/irqhandler.c.
--   Pmm: kernel/mem/pmm.c. The record `Pmm` is `MemoryStatistics` with the bitmap that it points at
--     and the static variable of `MmRequestPage`. `reserve_page` is `MmReservePage`, `request_page`
--     is `MmRequestPage`, and so on; `initialize` is `MmInitialize`.
--   Vmm: kernel/mem/vmm.c. `map_memory` is `MmMapMemory`: three rounds of `next_table`, which takes a
--     page from Pmm where a table is missing, and `map_page`. `get_physical_address`,
--     `set_page_permissions`, `page_set` and the others follow their functions.
--   IoApic: the registers of the I/O APICs of kernel/cpu/apic.c, and `get_by_irq`, which is
--     `IoApicGetByIrq`.
--   Apic: kernel/cpu/apic.c and kernel/cpu/irqhandler.c. `update_rentry` is what the `ApicSetIrq`
--     functions share; `enable_interrupt`, `register_irq_handler`, `irq_handler`,
--     `allocate_software_irq` and `initialize_interrupts` follow their functions.
--   Sched: kernel/tsk/sched.c. The tasks lie in a store by address; `create_task`,
--     `create_kernel_task` and `schedule` are `TskCreateTask` and so on.
--   Serial: kernel/utl/serial.c. `print` is the format walk of `ComPrint`, over the characters of the
--     format and the arguments, and returns the characters written.
--   Heap: kernel/mem/heap.c. A `Kernel` is a `Heap`, the bytes at its virtual addresses and the machine
--     of Vmm. `find_smallest_hole`, `expand` and `contract` are `HeapFindSmallestHole` and so on;
--     Heap/Allocate has `HeapAllocate`, in the steps `place`, `leave_rest` and `carve`, Heap/Free has
--     `HeapFree`, in the steps `join_left`, `join_right` and `trim`, and Heap/Calls has
--     `MmInitializeHeap`, `kmalloc` and `kfree`. `Tiled` says that blocks lie one behind the other,
--     `IsHeap` also that the index lists the holes, by their sizes where its first argument is true.
--     `Left` and `Right` are the neighbours between which a release is followed, `Grown` what an
--     expansion makes of the blocks, and `Run` is a sequence of calls.
--   Ports: the port instructions of kernel/cpu/intel.h, and the registers in memory, as parameters.
--   Pci: kernel/dev/pci.c. `read16` is `PciRead16`, `read_bar` is `PciReadBar`, `initialize` is
--     `PciInitialize`, and so on. A `Bus` is what the enumeration keeps, the table of loaded drivers
--     among it. Pci/Identity follows the bytes that identify functions, Xhci/Identity through
--     `XhciInitialize`, and Boot/Drivers through the enumeration with both drivers.
--   Acpi: kernel/cpu/acpi.c. `tables` is the search in `AcpiInitialize`, `scan` is `laihost_scan`;
--     Acpi/Host has the other host functions, `laihost_realloc` and so on.
--   Input: kernel/kernel.c. `ps2_mouse_handler` is `Ps2MouseHandler`, and `enable_mouse` is the part of
--     `KeMain` that turns the mouse on.
--   Intel: kernel/cpu/intel.c. `set_interrupt` is `IntelSetInterrupt`, `intel_initialize` is
--     `IntelInitialize`, up to the instructions that load the tables.
--   System: the state that the parts share while the kernel starts. System/Madt has `ApicInitialize` of
--     kernel/cpu/apic.c, in the steps `disable_pic`, `walk_entries` and `add_io_apic`.
--   Xhci: kernel/dev/usb/xhci.c. `ring_create`, `ring_add` and `ring_get` are `XhciRingCreate` and so
--     on; the blocks lie in the memory of Rt. Xhci/Start has `XhciInterrupterCreate` and
--     Xhci/Initialize has `XhciInitialize` and `XhciHostIrq`. `IsQueue` says which blocks are on a
--     ring.
--   Boot: `KeMain` of kernel/kernel.c as `ke_main`, in the steps `start_memory`, `add_task`,
--     `acpi_initialize` and `finish`, and `AcpiInitialize` of kernel/cpu/acpi.c with the drivers that
--     `PciInitialize` starts.
--   Gpu: kernel/dev/gpu/cherrytrail.c. `cherry_trail_initialize` is `CherryTrailInitialize`.
-- In each folder, Tests holds small runs and the theorems at concrete inputs.
--
-- Numbers. A number of the code is a natural number, and the wrap-around of its type is written out
-- where the code adds, subtracts or converts. The arguments of a function are taken to fit their
-- types. Addresses that the memory functions compute do not wrap. The highest interrupt request is
-- taken to fit an `int`.
--
-- Loops. A counted loop recurses on its rounds. The search of `MmRequestPage` may run for ever, so it
-- takes fuel: twice the pages of the region and one more are enough where it can end, since the loop
-- passes the end of the region once. `TskPrintTasks` takes fuel for the length of the list, and the
-- number printing of `ComPrint` for the ten digits of an `int`. `HeapAllocate` calls itself after it has
-- expanded the heap, and takes fuel for that and for the pages that it requests; `laihost_map` takes
-- fuel for the pages that it maps. The walk of the MADT takes fuel for its entries; an entry of length
-- 0 uses up any fuel, as the code then runs for ever. The wait for the USB controller and the walk over
-- its capabilities take fuel as well, since they may not end.
--
-- Parameters. The registers of an I/O APIC are a record `Device` of 32-bit reads and writes with the
-- laws of its select register and its window; Apic/Chip.antt has a device that fulfils them. The
-- registers of the USB controller are a record `Mmio` of accesses of one, four and eight bytes on a
-- state of their own. The ports are a record `Ports` of functions on a state of their own, with the
-- laws `HasConfig` of the first configuration mechanism of the PCI specification; Pci/Tests.antt has
-- ports that fulfil them, and Boot/Tests/Drivers.antt others whose identifying bytes are read-only.
-- What `kmalloc` returns is an argument of `create_task`, which `add_task` passes, and the drivers of
-- PCI devices are arguments of `initialize`, which `start_pci` passes. The boot loader's memory map,
-- its constant for usable memory and the addresses in the kernel's image are arguments too, the record
-- `Image` of `ke_main`.
--
-- Not modelled: messages, but for a count of warnings in the memory managers; `MmDebugPrint`, which
-- only prints; `ExcHandler`, which prints and halts; the names of PCI vendors and devices, which are
-- only printed; the port output; interrupts that arrive while the kernel starts; what is compiled
-- with `ACPI_USE_LAI`; assembly, the calls of VMware among it; kernel/cpu/lai, which is a copy of
-- another project; and kernel/fs, whose files are empty.
pub mod Base
pub mod Rt
pub mod Array
pub mod Bitmap
pub mod Pmm
pub mod Vmm
pub mod IoApic
pub mod Apic
pub mod Sched
pub mod Serial
pub mod Ports
pub mod Pci
pub mod Heap
pub mod Acpi
pub mod Input
pub mod Links
pub mod Xhci
pub mod Intel
pub mod System
pub mod Gpu
pub mod Boot
