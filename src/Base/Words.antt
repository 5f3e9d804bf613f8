-- ===== src/Base/Words.antt =====
-- Machine words as native numbers: bit fields, and tables over the values of a byte.
use Prim.Native.Nat.{ℕ, zero, suc, ◌+◌, ◌*◌, ◌/◌, ◌%◌, ◌^◌, ◌<◌}
use mathlib.Core.Path.{◌≡◌}
use mathlib.Core.Bool.{Bool, true, ◌&&◌}
use native.Mathlib.Omega.{arith}

abbrev pub word32 : ℕ
word32 = 2 ^ 32

abbrev pub word64 : ℕ
word64 = 2 ^ 64

-- The `n` bits of `w` from bit `lo` on, and `w` with those bits written.
abbrev pub field : ℕ → ℕ → ℕ → ℕ
field lo n w = w / 2 ^ lo % 2 ^ n

abbrev pub with_field : ℕ → ℕ → ℕ → ℕ → ℕ
with_field lo n v w = w / 2 ^ (lo + n) * 2 ^ (lo + n) + v % 2 ^ n * 2 ^ lo + w % 2 ^ lo

-- A test of every value below a bound, by evaluation.
unfoldable pub all_below : ℕ → (ℕ → Bool) → Bool
all_below zero test = true
all_below (suc bound) test = test bound && all_below bound test

pub all_below_sound :
    (bound : ℕ) (test : ℕ → Bool) (value : ℕ)
    → all_below bound test ≡ true
    → value < bound
    → test value ≡ true
unfolding all_below
all_below_sound zero test value holds below = absurd (omega arith)
all_below_sound (suc bound) test value holds below =
    ground (arith, all_below_sound bound test value)
