-- ===== src/Serial/Tests.antt =====
-- Printing small things. 37 is the percent sign, 97 the letter a.
use mathlib.Core.Option
use gewodsys.Base.{ℕ, ◌-◌, ◌^◌, ◌≡◌, refl, arith, some, List, [], ◌∷◌, ltb, if◌then◌else◌, word32}
use gewodsys.Serial.{int, print, print_int, decimal, grow, digits, convert}
use gewodsys.Serial.Numbers.{value, Digits, print_int-value}

printed : print (97 ∷ 37 ∷ 100 ∷ 97 ∷ []) (int 120 ∷ []) ≡ some (97 ∷ 49 ∷ 50 ∷ 48 ∷ 97 ∷ [])
unfolding print convert print_int decimal grow digits mathlib.Core.Option.bind
printed = refl

-- `%%d` writes the percent sign and then the number.
doubled : print (37 ∷ 37 ∷ 100 ∷ []) (int 7 ∷ []) ≡ some (37 ∷ 55 ∷ [])
unfolding print convert print_int decimal grow digits mathlib.Core.Option.bind
doubled = refl

print_int-value_example :
    (ds : List ℕ) × (print_int 4294967254 ≡ some (if ltb 4294967254 (2 ^ 31) then ds else 45 ∷ ds))
    × (value 10 ds ≡ (if ltb 4294967254 (2 ^ 31) then 4294967254 else word32 - 4294967254))
    × Digits ds
print_int-value_example = print_int-value 4294967254 (omega arith) (omega arith)
