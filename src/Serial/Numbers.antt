-- ===== src/Serial/Numbers.antt =====
-- The digits that the number conversions write, read back.
use mathlib.Core.Option
use mathlib.Core.Path.{subst}
use native.Mathlib.Nat.{div-lt_iff_lt-mul, div-add-mod', mod-lt, pow-suc, one-le-pow}
use gewodsys.Base.{
  ℕ, zero, suc, ◌+◌, ◌-◌, ◌*◌, ◌/◌, ◌%◌, ◌^◌, ◌≤◌, ◌<◌, ◌≡◌, ◌≢◌, refl, sym, ap, arith, inl, inr,
  some, List, [], ◌∷◌, length, ltb, leb, false, ◌==◌, ne→==, if◌then◌else◌, Bool-cases, word32,
}
use gewodsys.Serial.{hex_digit, hex, grow, digits, decimal, print_int}

-- The value of a text of digits in a base.
abbrev pub digit_value : ℕ → ℕ
digit_value c = if ltb c 58 then c - 48 else c - 55

abbrev pub value : ℕ → List ℕ → ℕ
value base [] = 0
value base (c ∷ cs) = digit_value c * base ^ length cs + value base cs

-- Each character is one of those from 0 to 9.
abbrev pub Digits : List ℕ → Type 0
Digits [] = Unit
Digits (c ∷ cs) = (48 ≤ c) × (c < 58) × Digits cs

pub hex_digit-value : (d : ℕ) → d < 16 → digit_value (hex_digit d) ≡ d
unfolding hex_digit
hex_digit-value d h = ground arith

pub hex-length : (n num : ℕ) → length (hex n num) ≡ n
unfolding hex
hex-length zero num = refl
hex-length (suc n) num = ap suc (hex-length n num)

digits-step :
    (fuel num d e : ℕ) (ds : List ℕ)
    → (d == 0) ≡ false
    → d / 10 ≡ e
    → digits fuel (num % d) e ≡ some ds
    → digits (suc fuel) num d ≡ some ((48 + num / d) ∷ ds)
unfolding digits
digits-step fuel num d e ds real next run = rw (real, next, run)

-- From `10 ^ k` the loop writes `k + 1` digits, which make up the number.
digits-ok :
    (k fuel num : ℕ)
    → num < 10 ^ suc k
    → suc k < fuel
    → (ds : List ℕ) × (digits fuel num (10 ^ k) ≡ some ds)
      × (length ds ≡ suc k)
      × (value 10 ds ≡ num)
      × Digits ds
unfolding digits
digits-ok zero zero num small enough = absurd (omega arith)
digits-ok zero (suc zero) num small enough = absurd (omega arith)
digits-ok zero (suc (suc fuel)) num small enough =
    ((48 + num / 1) ∷ [], refl, refl, ground arith, (omega arith, ground arith, tt))
digits-ok (suc k) zero num small enough = absurd (omega arith)
digits-ok (suc k) (suc fuel) num small enough =
    let d : ℕ = 10 ^ suc k in
    let shape : d ≡ 10 ^ k * 10 = pow-suc 10 k in
    let positive : 1 ≤ 10 ^ k = one-le-pow k 10 (omega arith) in
    let real : (d == 0) ≡ false = ne→== d 0 (omega arith) in
    let next : d / 10 ≡ 10 ^ k = omega arith in
    let pos : 0 < d = omega arith in
    let fits : num < 10 * d = omega (arith, pow-suc 10 (suc k)) in
    let first : num / d < 10 = (div-lt_iff_lt-mul pos).1 fits in
    let (ds, run, len, val, all) = digits-ok k fuel (num % d) (mod-lt num pos) (omega arith) in
    let digit : digit_value (48 + num / d) ≡ num / d = ground arith in
    (
      (48 + num / d) ∷ ds,
      digits-step fuel num d (10 ^ k) ds real next run,
      ap suc len,
      rw (digit, len, val) (div-add-mod' num d),
      (omega arith, omega (arith, first), all),
    )

abbrev Grown : ℕ → ℕ → ℕ → ℕ → Type 0
Grown n k fuel num =
    (j : ℕ) × (grow fuel num (10 ^ k) ≡ some (10 ^ j)) × (num < 10 ^ suc j) × (j ≤ k + n)

grow_more :
    (n k fuel num : ℕ)
    → ((i : ℕ) → num < 10 ^ (suc k + i + 1) → i < fuel → Grown i (suc k) fuel num)
    → num < 10 ^ (k + n + 1)
    → n < suc fuel
    → ¬ (num < 10 * 10 ^ k)
    → (j : ℕ) × (grow fuel num (10 ^ suc k) ≡ some (10 ^ j)) × (num < 10 ^ suc j) × (j ≤ k + n)
grow_more zero k fuel num again small enough large =
    let z : k + 0 + 1 ≡ suc k = omega arith in
    absurd (large (omega (arith, pow-suc 10 k, subst (λ x. num < 10 ^ x) z small)))
grow_more (suc n) k fuel num again small enough large =
    let z : k + suc n + 1 ≡ suc k + n + 1 = omega arith in
    let (j, run, top, le) = again n (subst (λ x. num < 10 ^ x) z small) (omega arith) in
    (j, run, top, omega arith)

-- Growing from `10 ^ k` reaches a power of ten with at least one digit of the number above it.
grow-ok :
    (n k fuel num : ℕ)
    → num < 10 ^ (k + n + 1)
    → n < fuel
    → (j : ℕ) × (grow fuel num (10 ^ k) ≡ some (10 ^ j)) × (num < 10 ^ suc j) × (j ≤ k + n)
unfolding grow
grow-ok n k zero num small enough = absurd (omega arith)
grow-ok n k (suc fuel) num small enough =
    let positive : 1 ≤ 10 ^ k = one-le-pow k 10 (omega arith) in
    elim (Bool-cases (leb 10 (num / 10 ^ k))) [
      | inr done ↦
          let below : num / 10 ^ k < 10 = ground arith in
          let fits : num < 10 * 10 ^ k = (div-lt_iff_lt-mul positive).0 below in
          rw done (k, refl, omega (arith, pow-suc 10 k), omega arith)
      | inl more ↦
          let above : ¬ (num / 10 ^ k < 10) = λ lt. ground arith in
          let next : 10 ^ k * 10 ≡ 10 ^ suc k = sym (pow-suc 10 k) in
          rw (more, next)
            (grow_more n k fuel num (λ i. grow-ok i (suc k) fuel num) small enough
              λ lt. above ((div-lt_iff_lt-mul positive).1 lt))
    ]

decimal-value :
    (num : ℕ)
    → num < 2 ^ 31
    → (ds : List ℕ) × (decimal num ≡ some ds) × (value 10 ds ≡ num) × Digits ds
unfolding decimal Option.bind
decimal-value num small =
    let (j, run, top, le) = grow-ok 9 0 10 num (omega arith) (omega arith) in
    let (ds, out, len, val, all) = digits-ok j 11 num top (omega arith) in
    (ds, rw run out, val, all)

-- Of every bit pattern but that of the least `int`, `%d` writes decimal digits that make up the
-- number, after a minus sign those of its negation where it is negative; the fuel is enough.
pub print_int-value :
    (w : ℕ)
    → w < word32
    → w ≢ 2 ^ 31
    → (ds : List ℕ) × (print_int w ≡ some (if ltb w (2 ^ 31) then ds else 45 ∷ ds))
      × (value 10 ds ≡ (if ltb w (2 ^ 31) then w else word32 - w))
      × Digits ds
unfolding print_int
print_int-value w small other = elim (Bool-cases (ltb w (2 ^ 31))) [
  | inl positive ↦
      let (ds, out, val, all) = decimal-value w (ground arith) in rw positive (ds, out, val, all)
  | inr negative ↦
      let (ds, out, val, all) = decimal-value (word32 - w) (ground arith) in
      rw (negative, ne→== w (2 ^ 31) other) (ds, rw out, val, all)
]
