-- ===== src/Base/Bits.antt =====
-- `|` of a shifted field and the bits below it is a sum.
use Prim.Native.Nat.{ℕ, zero, suc, ◌+◌, ◌*◌, ◌/◌, ◌%◌, ◌^◌, ◌≤◌, ◌<◌, max, bit_or, digits}
use Prim.Native.Nat.{bit_or-bitwise}
use mathlib.Core.Path.{◌≡◌, refl, ap, sym, ◌∙◌}
use native.Mathlib.Nat.{pow-suc, mul_comm, div-div-eq-div-mul}
use native.Mathlib.Omega.{arith}

-- Fuel beyond the first operand changes nothing, whatever the operation on the digits.
pub digits_fuel :
    (z : ℕ → ℕ) (f : ℕ → ℕ → ℕ) (i j x y : ℕ) → x ≤ i → x ≤ j → digits z f i x y ≡ digits z f j x y
digits_fuel z f zero zero x y l r = refl
digits_fuel z f zero (suc j) zero y l r = refl
digits_fuel z f zero (suc j) (suc x) y l r = absurd (omega arith)
digits_fuel z f (suc i) zero zero y l r = refl
digits_fuel z f (suc i) zero (suc x) y l r = absurd (omega arith)
digits_fuel z f (suc i) (suc j) zero y l r = refl
digits_fuel z f (suc i) (suc j) (suc x) y l r =
    ap (λ t. t * 2 + f (suc x % 2) (y % 2))
      (digits_fuel z f i j (suc x / 2) (y / 2) (omega arith) (omega arith))

pub zero-bit_or : (b : ℕ) → bit_or 0 b ≡ b
zero-bit_or b = bit_or-bitwise 0 b

-- The lowest bit, and the others.
bit_or_halves : (low n : ℕ) → max (n % 2) (low % 2) + 2 * bit_or (n / 2) (low / 2) ≡ bit_or n low
bit_or_halves low zero = omega (arith, zero-bit_or (low / 2), zero-bit_or low)
bit_or_halves low (suc n) =
    let halved = bit_or-bitwise (suc n / 2) (low / 2) in
    let fuel =
      digits_fuel (λ d. d) max n (suc n / 2) (suc n / 2) (low / 2) (omega arith) (omega arith) in
    omega (arith, halved, fuel, bit_or-bitwise (suc n) low)

bit_or-zero_fuel : (n a : ℕ) → a ≤ n → bit_or a 0 ≡ a
bit_or-zero_fuel n zero h = zero-bit_or 0
bit_or-zero_fuel zero (suc a) h = absurd (omega arith)
bit_or-zero_fuel (suc n) (suc a) h =
    omega (arith, bit_or_halves 0 (suc a), bit_or-zero_fuel n (suc a / 2) (omega arith))

pub bit_or-zero : (a : ℕ) → bit_or a 0 ≡ a
bit_or-zero a = bit_or-zero_fuel a a (omega arith)

-- `(q << k) | r`, where `r` has at most `k` bits
pub bit_or_shifted : (k q r : ℕ) → r < 2 ^ k → bit_or (q * 2 ^ k) r ≡ q * 2 ^ k + r
bit_or_shifted zero q r h =
    let e : r ≡ 0 = omega arith in
    let f : q * 2 ^ 0 ≡ q = omega arith in rw (e, f) (omega (arith, bit_or-zero q))
bit_or_shifted (suc k) q r h =
    let half : q * 2 ^ suc k / 2 ≡ q * 2 ^ k =
      omega (arith, ap (λ (t : ℕ). q * t) (pow-suc 2 k), pow-suc 2 k) in
    let twice : q * 2 ^ suc k ≡ q * 2 ^ k * 2 =
      omega (arith, ap (λ (t : ℕ). q * t) (pow-suc 2 k), pow-suc 2 k) in
    ground (
      arith,
      half,
      twice,
      bit_or_halves r (q * 2 ^ suc k),
      bit_or_shifted k q (r / 2) (omega (arith, pow-suc 2 k)),
    )

-- Setting a bit that is clear adds it.
pub bit_or-bit : (k c : ℕ) → c / 2 ^ k % 2 ≡ 0 → bit_or c (2 ^ k) ≡ c + 2 ^ k
bit_or-bit zero c clear = omega (arith, bit_or_halves 1 c, bit_or-zero (c / 2))
bit_or-bit (suc k) c clear =
    let up : c / 2 ^ suc k ≡ c / 2 / 2 ^ k =
      ap (λ t. c / t) (pow-suc 2 k ∙ mul_comm (2 ^ k) 2) ∙ sym (div-div-eq-div-mul c 2 (2 ^ k)) in
    let half : 2 ^ suc k / 2 ≡ 2 ^ k = omega (arith, pow-suc 2 k) in
    let even : 2 ^ suc k % 2 ≡ 0 = omega (arith, pow-suc 2 k) in
    let clear' : c / 2 / 2 ^ k % 2 ≡ 0 = rw up at clear in
    let rest : max (c % 2) (2 ^ suc k % 2) + 2 * bit_or (c / 2) (2 ^ suc k / 2) ≡ c + 2 ^ suc k =
      rw (half, even, bit_or-bit k (c / 2) clear') (omega (arith, pow-suc 2 k)) in
    sym (bit_or_halves (2 ^ suc k) c) ∙ rest
