-- ===== src/Rt/Tests.antt =====
-- The memory loops on a few bytes, which hold 1, 2, 3, ... at the addresses 0, 1, 2, ...
use gewodsys.Base.{ℕ, ◌+◌, ◌-◌, ◌%◌, ◌<◌, ◌≡◌, ◌↔◌, refl, inl, arith, if◌then◌else◌}
use gewodsys.Base.Int.{pos, negsuc}
use gewodsys.Rt.{Mem, load8, copy_memory, memcmp}
use gewodsys.Rt.Copy.{within, load8-copy_memory}
use gewodsys.Rt.Compare.{memcmp-zero_iff}

abbrev bytes : Mem
bytes a = a + 1

compared : memcmp 0 2 3 bytes ≡ negsuc 1
unfolding memcmp
compared = refl

load8-copy_memory_example :
    load8 5 (copy_memory 4 10 8 bytes)
    ≡ (if within 4 8 5 then load8 (10 + (5 - 4)) bytes else load8 5 bytes)
load8-copy_memory_example = load8-copy_memory 4 10 8 5 bytes (inl (omega arith))

repeated : Mem
repeated a = a % 4

memcmp-zero_iff_example :
    (memcmp 1 5 6 repeated ≡ pos 0)
    ↔ ((j : ℕ) → j < 6 → load8 (1 + j) repeated ≡ load8 (5 + j) repeated)
memcmp-zero_iff_example = memcmp-zero_iff 1 5 6 repeated
