-- ===== src/Rt/Words.antt =====
-- What a load sees of a store.
use gewodsys.Base.{
  ℕ, zero, suc, ◌+◌, ◌*◌, ◌/◌, ◌%◌, ◌^◌, ◌≤◌, ◌<◌, ◌≡◌, refl, ◌∙◌, ap₂, ◌⊎◌, inr, arith,
}
use native.Mathlib.Nat.{pow-suc}
use gewodsys.Rt.{Mem, load8, store8, load, store}

pub load8-store8_self : (a v : ℕ) (m : Mem) → load8 a (store8 a v m) ≡ v % 256
unfolding store8
load8-store8_self a v m = ground arith

-- The ranges `[a, a + w)` and `[b, b + u)` have no address in common.
abbrev pub Apart : ℕ → ℕ → ℕ → ℕ → Type 0
Apart a w b u = (a + w ≤ b) ⊎ (b + u ≤ a)

pub load8-store8_ne : (a v b : ℕ) (m : Mem) → Apart a 1 b 1 → load8 b (store8 a v m) ≡ load8 b m
unfolding store8
load8-store8_ne a v b m apart = ground arith

pub load8-store_ne : (w a v b : ℕ) (m : Mem) → Apart a w b 1 → load8 b (store w a v m) ≡ load8 b m
unfolding store
load8-store_ne zero a v b m apart = refl
load8-store_ne (suc w) a v b m apart =
    load8-store_ne w (a + 1) (v / 256) b (store8 a v m) (grind arith)
    ∙ load8-store8_ne a v b m (grind arith)

pub load-store_ne :
    (u w a v b : ℕ) (m : Mem) → Apart a w b u → load u b (store w a v m) ≡ load u b m
unfolding load
load-store_ne zero w a v b m apart = refl
load-store_ne (suc u) w a v b m apart =
    ap₂ (λ x y. x + 256 * y) (load8-store_ne w a v b m (grind arith))
      (load-store_ne u w a v (b + 1) m (grind arith))

pub load-store_self : (w a v : ℕ) (m : Mem) → v < 256 ^ w → load w a (store w a v m) ≡ v
unfolding load store
load-store_self zero a v m h = omega arith
load-store_self (suc w) a v m h = omega (
  arith,
  load8-store_ne w (a + 1) (v / 256) a (store8 a v m) (inr (omega arith)),
  load8-store8_self a v m,
  load-store_self w (a + 1) (v / 256) (store8 a v m) (omega (arith, pow-suc 256 w)),
)

pub load-lt : (w a : ℕ) (m : Mem) → load w a m < 256 ^ w
unfolding load
load-lt zero a m = omega arith
load-lt (suc w) a m = omega (arith, pow-suc 256 w, load-lt w (a + 1) m)
