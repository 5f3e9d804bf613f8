-- ===== src/Rt/Copy.antt =====
-- What memory holds after `RtZeroMemory`, `RtFillMemory`, `RtCopyMemory` and `memmove`.
use gewodsys.Base.{
  ℕ, zero, suc, ◌+◌, ◌-◌, ◌%◌, ◌≤◌, ◌<◌, ◌≡◌, refl, ◌⊎◌, Bool, ◌&&◌, arith, ltb, leb, if◌then◌else◌,
}
use gewodsys.Rt.{
  Mem, load8, store8, zero_loop, zero_memory, copy_loop, copy_memory, fill_loop, fill_memory,
  memmove,
}

abbrev pub within : ℕ → ℕ → ℕ → Bool
within a n x = leb a x && ltb x (a + n)

fill_loop-load8 :
    (n i a v x : ℕ) (m : Mem)
    → load8 x (fill_loop n i a v m) ≡ (if within (a + i) n x then v % 256 else load8 x m)
unfolding fill_loop store8
fill_loop-load8 zero i a v x m = ground arith
fill_loop-load8 (suc n) i a v x m =
    ground (arith, fill_loop-load8 n (i + 1) a v x (store8 (a + i) v m))

-- `RtFillMemory` writes the value's low byte to each of the `n` addresses from `a` on, and leaves
-- every other address as it was.
pub load8-fill_memory :
    (a n v x : ℕ) (m : Mem)
    → load8 x (fill_memory a n v m) ≡ (if within a n x then v % 256 else load8 x m)
unfolding fill_memory
load8-fill_memory a n v x m = ground (arith, fill_loop-load8 n 0 a (v % 256) x m)

zero_loop-load8 :
    (n i a x : ℕ) (m : Mem)
    → load8 x (zero_loop n i a m) ≡ (if within (a + i) n x then 0 else load8 x m)
unfolding zero_loop store8
zero_loop-load8 zero i a x m = ground arith
zero_loop-load8 (suc n) i a x m = ground (arith, zero_loop-load8 n (i + 1) a x (store8 (a + i) 0 m))

-- `RtZeroMemory` zeroes each of the `n` addresses from `a` on, and leaves every other address as it
-- was.
pub load8-zero_memory :
    (a n x : ℕ) (m : Mem) → load8 x (zero_memory a n m) ≡ (if within a n x then 0 else load8 x m)
unfolding zero_memory
load8-zero_memory a n x m = ground (arith, zero_loop-load8 n 0 a x m)

copy_loop-load8 :
    (n i dest src x : ℕ) (m : Mem)
    → (dest ≤ src) ⊎ (src + i + n ≤ dest + i)
    → load8 x (copy_loop n i dest src m)
      ≡ (if within (dest + i) n x then load8 (src + (x - dest)) m else load8 x m)
unfolding copy_loop store8
copy_loop-load8 zero i dest src x m apart = ground arith
copy_loop-load8 (suc n) i dest src x m apart =
    ground (arith, copy_loop-load8 n (i + 1) dest src x (store8 (dest + i) (load8 (src + i) m) m))

-- Where the destination does not start inside the source, after its first byte, `RtCopyMemory`
-- leaves the source's old bytes at the destination and every other address as it was.
pub load8-copy_memory :
    (dest src n x : ℕ) (m : Mem)
    → (dest ≤ src) ⊎ (src + n ≤ dest)
    → load8 x (copy_memory dest src n m)
      ≡ (if within dest n x then load8 (src + (x - dest)) m else load8 x m)
unfolding copy_memory
load8-copy_memory dest src n x m apart = ground (arith, copy_loop-load8 n 0 dest src x m)

smear :
    (n i s x : ℕ) (m : Mem)
    → s + i ≤ x
    → x ≤ s + i + n
    → load8 x (copy_loop n i (s + 1) s m) ≡ load8 (s + i) m
unfolding copy_loop store8
smear zero i s x m lo hi = ground arith
smear (suc n) i s x m lo hi = ground (
  arith,
  smear n (i + 1) s x (store8 (s + 1 + i) (load8 (s + i) m) m),
  copy_loop-before n (i + 1) (s + 1) s x (store8 (s + 1 + i) (load8 (s + i) m) m),
)
  where
    copy_loop-before :
        (k j dest src y : ℕ) (g : Mem)
        → y < dest + j
        → load8 y (copy_loop k j dest src g) ≡ load8 y g
    copy_loop-before zero j dest src y g h = refl
    copy_loop-before (suc k) j dest src y g h =
        ground
          (arith, copy_loop-before k (j + 1) dest src y (store8 (dest + j) (load8 (src + j) g) g))

-- `memmove` copies forwards: moving `n` bytes up by one address puts the first byte at every
-- address of the destination.
pub memmove_up :
    (s n x : ℕ) (m : Mem) → s < x → x ≤ s + n → load8 x (memmove (s + 1) s n m).1 ≡ load8 s m
unfolding memmove copy_memory
memmove_up s n x m lo hi = ground (arith, smear n 0 s x m)
