-- ===== src/Rt/Compare.antt =====
-- What `memcmp` says of two ranges.
use gewodsys.Base.{
  ℕ, zero, suc, ◌+◌, ◌≤◌, ◌<◌, ◌≡◌, ◌≢◌, ◌↔◌, refl, inl, inr, arith, ◌==◌, eq→==, Bool-cases,
}
use gewodsys.Base.Int.{pos, sub_ℕ}
use gewodsys.Rt.{Mem, load8, compare_loop, memcmp}

sub_ℕ-eq_zero : (x y : ℕ) → sub_ℕ x y ≡ pos 0 → x ≡ y
sub_ℕ-eq_zero x y h = ground arith

-- The loop from offset `i` on, with `n` rounds left.
compare_loop-equal :
    (n i a b : ℕ) (m : Mem)
    → ((j : ℕ) → i ≤ j → j < i + n → load8 (a + j) m ≡ load8 (b + j) m)
    → compare_loop n i a b m ≡ pos 0
unfolding compare_loop
compare_loop-equal zero i a b m same = refl
compare_loop-equal (suc n) i a b m same =
    rw (eq→== _ _ (same i (omega arith) (omega arith)))
      (compare_loop-equal n (i + 1) a b m λ j lo hi. same j (omega arith) (omega arith))

compare_loop_zero :
    (n i a b : ℕ) (m : Mem)
    → compare_loop n i a b m ≡ pos 0
    → (j : ℕ) → i ≤ j
    → j < i + n
    → load8 (a + j) m ≡ load8 (b + j) m
unfolding compare_loop
compare_loop_zero zero i a b m h j lo hi = absurd (omega arith)
compare_loop_zero (suc n) i a b m h j lo hi = ground (
  arith,
  sub_ℕ-eq_zero (load8 (a + i) m) (load8 (b + i) m),
  λ (r : compare_loop n (i + 1) a b m ≡ pos 0) (l : i + 1 ≤ j).
      compare_loop_zero n (i + 1) a b m r j l (omega arith),
)

compare_loop_first :
    (n i k a b : ℕ) (m : Mem)
    → i ≤ k
    → k < i + n
    → ((j : ℕ) → j < k → load8 (a + j) m ≡ load8 (b + j) m)
    → load8 (a + k) m ≢ load8 (b + k) m
    → compare_loop n i a b m ≡ sub_ℕ (load8 (a + k) m) (load8 (b + k) m)
unfolding compare_loop
compare_loop_first zero i k a b m lo hi same ne = absurd (omega arith)
compare_loop_first (suc n) i k a b m lo hi same ne = elim (Bool-cases (i == k)) [
  | inl e ↦ ground arith
  | inr e ↦
      rw (eq→== _ _ (same i (ground arith)))
        (compare_loop_first n (i + 1) k a b m (ground arith) (omega arith) same ne)
]

-- `memcmp` returns 0 exactly when the two ranges hold the same bytes.
pub memcmp-zero_iff :
    (a b n : ℕ) (m : Mem)
    → (memcmp a b n m ≡ pos 0) ↔ ((j : ℕ) → j < n → load8 (a + j) m ≡ load8 (b + j) m)
unfolding memcmp
memcmp-zero_iff a b n m = (
  λ h j lt. compare_loop_zero n 0 a b m h j (omega arith) (omega arith),
  λ same. compare_loop-equal n 0 a b m λ j lo hi. same j (omega arith),
)

-- Where the ranges agree up to offset `k` and differ there, `memcmp` returns the difference of the
-- two bytes at that offset.
pub memcmp_first :
    (a b n k : ℕ) (m : Mem)
    → k < n
    → ((j : ℕ) → j < k → load8 (a + j) m ≡ load8 (b + j) m)
    → load8 (a + k) m ≢ load8 (b + k) m
    → memcmp a b n m ≡ sub_ℕ (load8 (a + k) m) (load8 (b + k) m)
unfolding memcmp
memcmp_first a b n k m lt same ne =
    compare_loop_first n 0 k a b m (omega arith) (omega arith) same ne
