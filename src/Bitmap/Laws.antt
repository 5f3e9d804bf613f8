-- ===== src/Bitmap/Laws.antt =====
-- Reading a bit after a write, from tables over the values of a byte.
use gewodsys.Base.{
  ℕ, ◌-◌, ◌/◌, ◌%◌, ◌^◌, ◌<◌, ◌≡◌, refl, arith, bit_and, bit_or, ◌==◌, ==_iff, if◌then◌else◌, ltb,
  all_below, all_below_sound, Bool, true, Bool-cases, inl, inr, eq→==, ne→==,
}
use gewodsys.Bitmap.{Bitmap, set_bit, clear_bit, get_bit}

abbrev bit_of : ℕ → ℕ → ℕ
bit_of byte k = bit_and (byte % 256) (2 ^ k) / 2 ^ k

abbrev set_test : ℕ → ℕ → ℕ → Bool
set_test b k j = bit_of (bit_or b (2 ^ k)) j == (if k == j then 1 else bit_and b (2 ^ j) / 2 ^ j)

abbrev clear_test : ℕ → ℕ → ℕ → Bool
clear_test b k j =
    bit_of (bit_and b (255 - 2 ^ k)) j == (if k == j then 0 else bit_and b (2 ^ j) / 2 ^ j)

abbrev bit_test : ℕ → ℕ → ℕ → Bool
bit_test b k j = ltb (bit_and b (2 ^ j) / 2 ^ j) 2

abbrev over_bytes : (ℕ → ℕ → ℕ → Bool) → Bool
over_bytes test = all_below 256 λ b. all_below 8 λ k. all_below 8 (test b k)

set_table : over_bytes set_test ≡ true
unfolding all_below
set_table = refl

clear_table : over_bytes clear_test ≡ true
unfolding all_below
clear_table = refl

bit_table : over_bytes bit_test ≡ true
unfolding all_below
bit_table = refl

over_bytes_sound :
    (test : ℕ → ℕ → ℕ → Bool) (b k j : ℕ)
    → over_bytes test ≡ true
    → b < 256
    → k < 8
    → j < 8
    → test b k j ≡ true
over_bytes_sound test b k j h hb hk hj =
    all_below_sound 8 (test b k) j
      (all_below_sound 8 (λ x. all_below 8 (test b x)) k
        (all_below_sound 256 (λ y. all_below 8 λ x. all_below 8 (test y x)) b h hb) hk)
      hj

-- Two indices are equal if their bytes and their places in it are.
same_place : (x y : ℕ) → x / 8 ≡ y / 8 → (x % 8 == y % 8) ≡ (x == y)
same_place x y h = ground arith

module _ (x y : ℕ) (bits : Bitmap) where
  -- After setting bit `x`, bit `x` reads as 1 and every other bit as before.
  pub get_bit-set_bit : get_bit y (set_bit x bits) ≡ (if x == y then 1 else get_bit y bits)
  unfolding get_bit set_bit
  get_bit-set_bit = elim (Bool-cases (y / 8 == x / 8)) [
    | inl same ↦
        let e : y / 8 ≡ x / 8 = (==_iff _ _).0 same in
        rw (e, eq→== (x / 8) (x / 8) refl, ← same_place x y (omega arith))
          ((==_iff _ _).0 (
            over_bytes_sound set_test (bits (x / 8) % 256) (x % 8) (y % 8) set_table (omega arith)
              (omega arith) (omega arith)))
    | inr other ↦ rw (other, ne→== x y (ground arith))
  ]

  -- After clearing bit `x`, bit `x` reads as 0 and every other bit as before.
  pub get_bit-clear_bit : get_bit y (clear_bit x bits) ≡ (if x == y then 0 else get_bit y bits)
  unfolding get_bit clear_bit
  get_bit-clear_bit = elim (Bool-cases (y / 8 == x / 8)) [
    | inl same ↦
        let e : y / 8 ≡ x / 8 = (==_iff _ _).0 same in
        rw (e, eq→== (x / 8) (x / 8) refl, ← same_place x y (omega arith))
          ((==_iff _ _).0 (
            over_bytes_sound clear_test (bits (x / 8) % 256) (x % 8) (y % 8) clear_table
              (omega arith) (omega arith) (omega arith)))
    | inr other ↦ rw (other, ne→== x y (ground arith))
  ]

pub get_bit-lt_two : (x : ℕ) (bits : Bitmap) → get_bit x bits < 2
unfolding get_bit
get_bit-lt_two x bits = ground (
  arith,
  over_bytes_sound bit_test (bits (x / 8) % 256) 0 (x % 8) bit_table (omega arith) (omega arith)
      (omega arith),
)
