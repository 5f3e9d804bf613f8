-- ===== src/Serial.antt =====
-- kernel/utl/serial.c: the format walk of `ComPrint`. Characters are their codes, and what it returns
-- here is what the calls of `ComPutChar` write.
pub mod Numbers
pub mod Format
mod Tests
use mathlib.Core.Option
use gewodsys.Base.{
  ℕ, zero, suc, ◌+◌, ◌-◌, ◌*◌, ◌/◌, ◌%◌, ◌^◌, Option, none, some, List, [], ◌∷◌, ◌++◌, Bool, ◌||◌,
  ltb, leb, ◌==◌, if◌then◌else◌, word32,
}

-- What a call passes after the format: a string, an `int` as its bit pattern, or a `uint64_t`.
pub data Arg : Type 0 where
  string : List ℕ → Arg
  int : ℕ → Arg
  long : ℕ → Arg

-- `"0123456789ABCDEF"[d]`
unfoldable pub hex_digit : ℕ → ℕ
hex_digit d = if ltb d 10 then 48 + d else 55 + d

-- `for (i = 4 * (n - 1); i >= 0; i -= 4)`, with the rounds left. The shift of a negative `int` copies
-- its sign, which the mask cuts off.
unfoldable pub hex : ℕ → ℕ → List ℕ
unfolding hex_digit
hex zero num = []
hex (suc n) num = hex_digit (num / 2 ^ (4 * n) % 16) ∷ hex n num

-- `while (num / div >= 10) div *= 10`; `none` when the fuel runs out.
unfoldable pub grow : ℕ → ℕ → ℕ → Option ℕ
grow zero num div = none
grow (suc fuel) num div =
    let rest = grow fuel num (div * 10) in if leb 10 (num / div) then rest else some div

-- `while (div)`, which writes a digit each round.
unfoldable pub digits : ℕ → ℕ → ℕ → Option (List ℕ)
digits zero num div = none
digits (suc fuel) num div =
    let rest = digits fuel (num % div) (div / 10) in
    if div == 0 then some [] else Option.map (λ ds. (48 + num / div) ∷ ds) rest

-- The fuel is for the ten digits of an `int`.
unfoldable pub decimal : ℕ → Option (List ℕ)
unfolding grow digits
decimal num = Option.bind (grow 10 num 1) λ div. digits 11 num div

-- The negation of the least `int` is no `int`, which the language leaves undefined: `none`.
unfoldable pub print_int : ℕ → Option (List ℕ)
unfolding decimal
print_int w =
    if ltb w (2 ^ 31)
    then decimal w
    else if w == 2 ^ 31
    then none
    else Option.map (λ ds. 45 ∷ ds) (decimal (word32 - w))

-- One conversion: what it writes, and the arguments after it. An argument of another type, or none,
-- is undefined: `none`.
unfoldable pub convert : ℕ → List Arg → Option (List ℕ × List Arg)
unfolding print_int hex
convert c (string s ∷ args) = if c == 115 then some (s, args) else none
convert c (int w ∷ args) =
    if c == 99
    then some (w % 256 ∷ [], args)
    else if c == 100
    then Option.map (λ ds. (ds, args)) (print_int w)
    else if c == 120
    then some (hex 8 w, args)
    else none
convert c (long w ∷ args) = if c == 88 then some (hex 16 w, args) else none
convert c [] = none

abbrev pub takes_argument : ℕ → Bool
takes_argument c = c == 115 || c == 99 || c == 100 || c == 120 || c == 88

-- The walk. After `%%` the second character is read again, as the code does not step over it; after
-- `%` and a letter that is no conversion, the letter is read as text.
unfoldable pub print : List ℕ → List Arg → Option (List ℕ)
unfolding convert
print [] args = some []
print (c ∷ []) args = if c == 37 then some [] else some (c ∷ [])
print (c ∷ d ∷ fmt) args =
    let again = print (d ∷ fmt) in
    if c == 37
    then if takes_argument d
      then Option.bind (convert d args) (λ r. Option.map (λ out. r.0 ++ out) (print fmt r.1))
      else if d == 37
      then Option.map (λ out. 37 ∷ out) (again args)
      else again args
    else Option.map (λ out. c ∷ out) (again args)
