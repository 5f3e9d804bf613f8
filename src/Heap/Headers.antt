-- ===== src/Heap/Headers.antt =====
-- What the writers of headers and footers, and the index, leave in memory.
use gewodsys.Base.{
  ℕ, zero, suc, ◌+◌, ◌-◌, ◌*◌, ◌≤◌, ◌<◌, ◌≡◌, refl, ◌∙◌, inl, inr, arith, Bool-cases, ◌==◌, word64,
}
use gewodsys.Rt.{Mem, load, store}
use gewodsys.Rt.Words.{Apart, load-store_ne, load-store_self}
use gewodsys.Array.{
  OrderedArray, get, set_cell, scan, shift_up, shift_down, insert_at, insert, remove,
}
use gewodsys.Heap.{heap_magic, magic_of, is_hole, size_of, header_of, write_header, write_footer}

-- A block's header at `a`.
pub record IsHeader (a hole size : ℕ) (m : Mem) : Type 0 where
  pub magic : magic_of a m ≡ heap_magic
  pub kind : is_hole a m ≡ hole
  pub bytes : size_of a m ≡ size

-- A footer at `a` for the block at `header`.
pub record IsFooter (a header : ℕ) (m : Mem) : Type 0 where
  pub magic : magic_of a m ≡ heap_magic
  pub block : header_of a m ≡ header

pub load-write_header :
    (u b a hole size : ℕ) (m : Mem)
    → Apart a 16 b u
    → load u b (write_header a hole size m) ≡ load u b m
unfolding write_header
load-write_header u b a hole size m apart =
    load-store_ne u 8 (a + 8) size b _ (grind arith)
    ∙ load-store_ne u 1 (a + 4) hole b _ (grind arith)
    ∙ load-store_ne u 4 a heap_magic b m (grind arith)

pub load-write_footer :
    (u b a header : ℕ) (m : Mem) → Apart a 16 b u → load u b (write_footer a header m) ≡ load u b m
unfolding write_footer
load-write_footer u b a header m apart =
    load-store_ne u 8 (a + 8) header b _ (grind arith)
    ∙ load-store_ne u 4 a heap_magic b m (grind arith)

pub write_header-IsHeader :
    (a hole size : ℕ) (m : Mem)
    → hole < 256
    → size < word64
    → IsHeader a hole size (write_header a hole size m)
unfolding write_header
write_header-IsHeader a hole size m small wide =
    let m1 = store 4 a heap_magic m in
    let m2 = store 1 (a + 4) hole m1 in
    record {
      magic =
          load-store_ne 4 8 (a + 8) size a m2 (inr (omega arith))
          ∙ load-store_ne 4 1 (a + 4) hole a m1 (inr (omega arith))
          ∙ load-store_self 4 a heap_magic m (omega arith);
      kind =
          load-store_ne 1 8 (a + 8) size (a + 4) m2 (inr (omega arith))
          ∙ load-store_self 1 (a + 4) hole m1 (omega arith);
      bytes = load-store_self 8 (a + 8) size m2 (omega arith);
    }

pub write_footer-IsFooter :
    (a header : ℕ) (m : Mem) → header < word64 → IsFooter a header (write_footer a header m)
unfolding write_footer
write_footer-IsFooter a header m wide =
    let m1 = store 4 a heap_magic m in
    record {
      magic =
          load-store_ne 4 8 (a + 8) header a m1 (inr (omega arith))
          ∙ load-store_self 4 a heap_magic m (omega arith);
      block = load-store_self 8 (a + 8) header m1 (omega arith);
    }

-- A header stays where nothing in its 16 bytes changes.
pub IsHeader-keep :
    (a hole size : ℕ) (m m' : Mem)
    → ((b u : ℕ) → a ≤ b → b + u ≤ a + 16 → load u b m' ≡ load u b m)
    → IsHeader a hole size m
    → IsHeader a hole size m'
IsHeader-keep a hole size m m' same h = record {
  magic = same a 4 (omega arith) (omega arith) ∙ h.magic;
  kind = same (a + 4) 1 (omega arith) (omega arith) ∙ h.kind;
  bytes = same (a + 8) 8 (omega arith) (omega arith) ∙ h.bytes;
}

pub IsFooter-keep :
    (a header : ℕ) (m m' : Mem)
    → ((b u : ℕ) → a ≤ b → b + u ≤ a + 16 → load u b m' ≡ load u b m)
    → IsFooter a header m
    → IsFooter a header m'
IsFooter-keep a header m m' same h = record {
  magic = same a 4 (omega arith) (omega arith) ∙ h.magic;
  block = same (a + 8) 8 (omega arith) (omega arith) ∙ h.block;
}

pub set_hole-IsHeader :
    (a hole size : ℕ) (m : Mem) → IsHeader a hole size m → IsHeader a 1 size (store 1 (a + 4) 1 m)
set_hole-IsHeader a hole size m h = record {
  magic = load-store_ne 4 1 (a + 4) 1 a m (inr (omega arith)) ∙ h.magic;
  kind = load-store_self 1 (a + 4) 1 m (omega arith);
  bytes = load-store_ne 8 1 (a + 4) 1 (a + 8) m (inl (omega arith)) ∙ h.bytes;
}

pub set_size-IsHeader :
    (a hole size new : ℕ) (m : Mem)
    → new < word64
    → IsHeader a hole size m
    → IsHeader a hole new (store 8 (a + 8) new m)
set_size-IsHeader a hole size new m small h = record {
  magic = load-store_ne 4 8 (a + 8) new a m (inr (omega arith)) ∙ h.magic;
  kind = load-store_ne 1 8 (a + 8) new (a + 4) m (inr (omega arith)) ∙ h.kind;
  bytes = load-store_self 8 (a + 8) new m small;
}

load-shift_down :
    (n i u b : ℕ) (a : OrderedArray) (m : Mem)
    → Apart a.array (8 * (i + n)) b u
    → load u b (shift_down a n i m) ≡ load u b m
unfolding shift_down set_cell
load-shift_down zero i u b a m apart = refl
load-shift_down (suc n) i u b a m apart =
    load-shift_down n (i + 1) u b a (set_cell a i (get a (i + 1) m) m) (grind arith)
    ∙ load-store_ne u 8 (a.array + 8 * i) (get a (i + 1) m) b m (grind arith)

-- Taking an entry out of the index changes the index alone.
pub load-remove :
    (a : OrderedArray) (i u b : ℕ) (m : Mem)
    → i ≤ a.size
    → Apart a.array (8 * a.size) b u
    → load u b (remove a i m).1 ≡ load u b m
unfolding remove
load-remove a i u b m le apart =
    let e : i + (a.size - i) ≡ a.size = omega arith in
    load-shift_down (a.size - i) i u b a m (rw e apart)

load-shift_up :
    (n i t u b : ℕ) (a : OrderedArray) (m : Mem)
    → Apart a.array (8 * (i + n + 1)) b u
    → load u b (shift_up a n i t m) ≡ load u b m
unfolding shift_up set_cell
load-shift_up zero i t u b a m apart = refl
load-shift_up (suc n) i t u b a m apart =
    load-shift_up n (i + 1) (get a (i + 1) m) u b a (set_cell a (i + 1) t m) (grind arith)
    ∙ load-store_ne u 8 (a.array + 8 * (i + 1)) t b m (grind arith)

scan-le : (a : OrderedArray) (x : ℕ) (m : Mem) (n i : ℕ) → scan a x m n i ≤ i + n
unfolding scan
scan-le a x m zero i = omega arith
scan-le a x m (suc n) i = ground (arith, scan-le a x m n (i + 1))

-- Putting an entry into the index changes the index alone.
pub load-insert :
    (a : OrderedArray) (x u b : ℕ) (m : Mem)
    → Apart a.array (8 * (a.size + 1)) b u
    → load u b (insert a x m).1 ≡ load u b m
unfolding insert insert_at set_cell
load-insert a x u b m apart =
    let i : ℕ = scan a x m a.size 0 in
    let le = scan-le a x m a.size 0 in
    elim (Bool-cases (i == a.size)) [
      | inl e ↦ rw e (load-store_ne u 8 (a.array + 8 * a.size) x b m (grind arith))
      | inr e ↦
          let whole : i + (a.size - i) + 1 ≡ a.size + 1 = omega arith in
          rw e (
            load-shift_up (a.size - i) i (get a i m) u b a (set_cell a i x m) (rw whole apart)
            ∙ load-store_ne u 8 (a.array + 8 * i) x b m (ground arith))
    ]
