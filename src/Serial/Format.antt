-- ===== src/Serial/Format.antt =====
-- The hexadecimal conversions, and the walk over a format without conversions.
use gewodsys.Base.{
  ℕ, zero, suc, ◌+◌, ◌*◌, ◌/◌, ◌%◌, ◌^◌, ◌≤◌, ◌<◌, ◌⊎◌, ◌≡◌, ◌≢◌, refl, arith, some, List, [], ◌∷◌,
  ne→==, word32, word64,
}
use gewodsys.Serial.{hex, hex_digit, print, Arg}
use gewodsys.Serial.Numbers.{value, hex_digit-value, hex-length}

-- Each character is one of those from 0 to 9, or from A to F.
abbrev pub HexDigits : List ℕ → Type 0
HexDigits [] = Unit
HexDigits (c ∷ cs) = (((48 ≤ c) × (c < 58)) ⊎ ((65 ≤ c) × (c < 71))) × HexDigits cs

hex_digit-range :
    (d : ℕ)
    → d < 16
    → ((48 ≤ hex_digit d) × (hex_digit d < 58)) ⊎ ((65 ≤ hex_digit d) × (hex_digit d < 71))
unfolding hex_digit
hex_digit-range d small = ground arith

hex-HexDigits : (n num : ℕ) → HexDigits (hex n num)
unfolding hex
hex-HexDigits zero num = tt
hex-HexDigits (suc n) num =
    (hex_digit-range (num / 2 ^ (4 * n) % 16) (omega arith), hex-HexDigits n num)

hex-none : (num : ℕ) → value 16 (hex 0 num) ≡ 0
unfolding hex
hex-none num = refl

hex-step :
    (n num : ℕ)
    → value 16 (hex (suc n) num) ≡ (num / 2 ^ (4 * n) % 16) * 16 ^ n + value 16 (hex n num)
unfolding hex
hex-step n num = rw (hex_digit-value (num / 2 ^ (4 * n) % 16) (omega arith), hex-length n num)

-- Eight digits make up the low 32 bits.
low_half : (num : ℕ) → value 16 (hex 8 num) ≡ num % 2 ^ 32
low_half num = omega (
  arith,
  hex-step 7 num,
  hex-step 6 num,
  hex-step 5 num,
  hex-step 4 num,
  hex-step 3 num,
  hex-step 2 num,
  hex-step 1 num,
  hex-step 0 num,
  hex-none num,
)

-- The eight digits of `%x` are hexadecimal and make up the bit pattern of the `int`; the sixteen of
-- `%X` make up the `uint64_t`.
pub hex-value :
    (w v : ℕ)
    → w < word32
    → v < word64
    → (value 16 (hex 8 w) ≡ w)
      × HexDigits (hex 8 w)
      × (value 16 (hex 16 v) ≡ v)
      × HexDigits (hex 16 v)
hex-value w v hw hv = (
  omega (arith, low_half w),
  hex-HexDigits 8 w,
  omega (
    arith,
    low_half v,
    hex-step 15 v,
    hex-step 14 v,
    hex-step 13 v,
    hex-step 12 v,
    hex-step 11 v,
    hex-step 10 v,
    hex-step 9 v,
    hex-step 8 v,
  ),
  hex-HexDigits 16 v,
)

-- No character of a text is `%`.
abbrev pub IsPlain : List ℕ → Type 0
IsPlain [] = Unit
IsPlain (c ∷ cs) = (c ≢ 37) × IsPlain cs

-- A format without `%` is written as it is, whatever is passed after it.
pub print-plain : (fmt : List ℕ) (args : List Arg) → IsPlain fmt → print fmt args ≡ some fmt
unfolding print
print-plain [] args plain = refl
print-plain (c ∷ []) args plain = rw (ne→== c 37 plain.0)
print-plain (c ∷ d ∷ fmt) args plain = rw (ne→== c 37 plain.0, print-plain (d ∷ fmt) args plain.1)
