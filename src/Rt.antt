-- ===== src/Rt.antt =====
-- kernel/lib/memory.c: byte memory, and the loops that fill, copy and compare it.
pub mod Words
pub mod Copy
pub mod Compare
mod Tests
use gewodsys.Base.{ℕ, zero, suc, ◌+◌, ◌-◌, ◌*◌, ◌/◌, ◌%◌, ◌==◌, if◌then◌else◌, ltb}
use gewodsys.Base.Int.{ℤ, sub_ℕ}

-- Byte-addressed memory. A cell stands for its low eight bits.
abbrev pub Mem : Type 0
Mem = ℕ → ℕ

abbrev pub load8 : ℕ → Mem → ℕ
load8 a m = m a % 256

unfoldable pub store8 : ℕ → ℕ → Mem → Mem
store8 a v m x = if x == a then v % 256 else m x

-- An access of `w` bytes, low byte first.
unfoldable pub load : ℕ → ℕ → Mem → ℕ
load zero a m = 0
load (suc w) a m = load8 a m + 256 * load w (a + 1) m

unfoldable pub store : ℕ → ℕ → ℕ → Mem → Mem
store zero a v m = m
store (suc w) a v m = store w (a + 1) (v / 256) (store8 a v m)

-- Each loop is `for (i = 0; i < size; i++)`, over the rounds left and `i`.
unfoldable pub zero_loop : ℕ → ℕ → ℕ → Mem → Mem
zero_loop zero i ptr m = m
zero_loop (suc n) i ptr m = zero_loop n (i + 1) ptr (store8 (ptr + i) 0 m)

unfoldable pub zero_memory : ℕ → ℕ → Mem → Mem
unfolding zero_loop
zero_memory address size m = zero_loop size 0 address m

unfoldable pub copy_loop : ℕ → ℕ → ℕ → ℕ → Mem → Mem
copy_loop zero i dest src m = m
copy_loop (suc n) i dest src m =
    copy_loop n (i + 1) dest src (store8 (dest + i) (load8 (src + i) m) m)

unfoldable pub copy_memory : ℕ → ℕ → ℕ → Mem → Mem
unfolding copy_loop
copy_memory dest src size m = copy_loop size 0 dest src m

unfoldable pub fill_loop : ℕ → ℕ → ℕ → ℕ → Mem → Mem
fill_loop zero i ptr value m = m
fill_loop (suc n) i ptr value m = fill_loop n (i + 1) ptr value (store8 (ptr + i) value m)

-- `value` is converted to `uint8_t` at the call.
unfoldable pub fill_memory : ℕ → ℕ → ℕ → Mem → Mem
unfolding fill_loop
fill_memory address size value m = fill_loop size 0 address (value % 256) m

-- The libc names return their first argument.
pub memcpy : ℕ → ℕ → ℕ → Mem → ℕ × Mem
unfolding copy_memory
memcpy dest source size m = (dest, copy_memory dest source size m)

pub memmove : ℕ → ℕ → ℕ → Mem → ℕ × Mem
unfolding copy_memory
memmove dest source size m = (dest, copy_memory dest source size m)

-- `fill` is the argument `int data` as a bit pattern.
pub memset : ℕ → ℕ → ℕ → Mem → ℕ × Mem
unfolding fill_memory
memset addr fill length m = (addr, fill_memory addr length fill m)

compare_loop : ℕ → ℕ → ℕ → ℕ → Mem → ℤ
compare_loop zero i a b m = sub_ℕ 0 0
compare_loop (suc n) i a b m =
    let rest = compare_loop n (i + 1) a b m in
    if load8 (a + i) m == load8 (b + i) m then rest else sub_ℕ (load8 (a + i) m) (load8 (b + i) m)

pub memcmp : ℕ → ℕ → ℕ → Mem → ℤ
unfolding compare_loop
memcmp a b size m = compare_loop size 0 a b m
