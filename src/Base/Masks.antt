-- ===== src/Base/Masks.antt =====
-- `&` with a mask of ones, at the bottom of a word or higher up.
use Prim.Native.Nat.{ℕ, zero, suc, ◌+◌, ◌-◌, ◌*◌, ◌/◌, ◌%◌, ◌^◌, ◌≤◌, min, bit_and}
use Prim.Native.Nat.{bit_and-bitwise}
use mathlib.Core.Path.{◌≡◌, ap, sym, ◌∙◌}
use native.Mathlib.Nat.{pow-suc, one-le-pow, div-div-eq-div-mul, div-add-mod', mul_comm, mul_assoc}
use native.Mathlib.Omega.{arith}
use gewodsys.Base.Bits.{digits_fuel}

zero-bit_and : (b : ℕ) → bit_and 0 b ≡ 0
zero-bit_and b = bit_and-bitwise 0 b

-- The lowest bit, and the others.
bit_and_halves :
    (mask n : ℕ) → min (n % 2) (mask % 2) + 2 * bit_and (n / 2) (mask / 2) ≡ bit_and n mask
bit_and_halves mask zero = omega (arith, zero-bit_and (mask / 2), zero-bit_and mask)
bit_and_halves mask (suc n) =
    let halved = bit_and-bitwise (suc n / 2) (mask / 2) in
    let fuel =
      digits_fuel (λ _. 0) min n (suc n / 2) (suc n / 2) (mask / 2) (omega arith) (omega arith) in
    omega (arith, halved, fuel, bit_and-bitwise (suc n) mask)

bit_and-zero : (n a : ℕ) → a ≤ n → bit_and a 0 ≡ 0
bit_and-zero n zero h = zero-bit_and 0
bit_and-zero zero (suc a) h = absurd (omega arith)
bit_and-zero (suc n) (suc a) h =
    omega (arith, bit_and_halves 0 (suc a), bit_and-zero n (suc a / 2) (omega arith))

half-mod : (a p : ℕ) → a / 2 % p * 2 + a % 2 ≡ a % (p * 2)
half-mod a p =
    let e : a / 2 / p ≡ a / (p * 2) = div-div-eq-div-mul a 2 p ∙ ap (λ t. a / t) (mul_comm 2 p) in
    omega (
      arith,
      div-add-mod' a (p * 2),
      div-add-mod' (a / 2) p,
      ap (λ t. t * p) e,
      mul_assoc (a / (p * 2)) p 2,
    )

-- `a & (2 ^ k - 1)`
pub bit_and-ones : (k a : ℕ) → bit_and a (2 ^ k - 1) ≡ a % 2 ^ k
bit_and-ones zero a = omega (arith, bit_and-zero a a (omega arith))
bit_and-ones (suc k) a =
    let positive : 1 ≤ 2 ^ k = one-le-pow k 2 (omega arith) in
    let half : (2 ^ suc k - 1) / 2 ≡ 2 ^ k - 1 = omega (arith, pow-suc 2 k) in
    let odd : (2 ^ suc k - 1) % 2 ≡ 1 = omega (arith, pow-suc 2 k) in
    let rest = bit_and_halves (2 ^ suc k - 1) a in
    sym rest
    ∙ rw (half, odd, bit_and-ones k (a / 2), pow-suc 2 k) (omega (arith, half-mod a (2 ^ k)))

-- `a & ((2 ^ n - 1) << k)`
pub bit_and-shifted : (k n a : ℕ) → bit_and a ((2 ^ n - 1) * 2 ^ k) ≡ a / 2 ^ k % 2 ^ n * 2 ^ k
bit_and-shifted zero n a =
    let one : (2 ^ n - 1) * 2 ^ 0 ≡ 2 ^ n - 1 = omega arith in
    let whole : a / 2 ^ 0 ≡ a = omega arith in rw (one, bit_and-ones n a, whole) (omega arith)
bit_and-shifted (suc k) n a =
    let mask : ℕ = (2 ^ n - 1) * 2 ^ k in
    let twice : (2 ^ n - 1) * 2 ^ suc k ≡ mask * 2 =
      ap (λ t. (2 ^ n - 1) * t) (pow-suc 2 k) ∙ sym (mul_assoc (2 ^ n - 1) (2 ^ k) 2) in
    let half : mask * 2 / 2 ≡ mask = omega arith in
    let even : mask * 2 % 2 ≡ 0 = omega arith in
    let up : a / 2 ^ suc k ≡ a / 2 / 2 ^ k =
      ap (λ t. a / t) (pow-suc 2 k ∙ mul_comm (2 ^ k) 2) ∙ sym (div-div-eq-div-mul a 2 (2 ^ k)) in
    let q : ℕ = a / 2 / 2 ^ k % 2 ^ n in
    let rest : min (a % 2) (mask * 2 % 2) + 2 * bit_and (a / 2) (mask * 2 / 2)
        ≡ a / 2 ^ suc k % 2 ^ n * 2 ^ suc k =
      rw (half, even, bit_and-shifted k n (a / 2), up)
        (omega (arith, ap (λ t. q * t) (pow-suc 2 k), mul_assoc q (2 ^ k) 2)) in
    rw twice (sym (bit_and_halves (mask * 2) a) ∙ rest)
