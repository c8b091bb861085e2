-- ===== src/Decimal.antt =====
-- The texts of numbers, which fmt and strconv write and read.
use sounding.Prelude.{
  ℕ, zero, suc, ◌+◌, ◌-◌, ◌*◌, ◌/◌, ◌%◌, [], ◌∷◌, ◌++◌, Text, ltb, leb, if◌then◌else◌, Option, none,
  some, Bool, true, false, ◌&&◌, ℤ, pos, negsuc, ◌==◌,
}

-- The decimal text of a number; the fuel n is enough, since each division by ten makes n smaller.
unfoldable pub digits : ℕ → ℕ → Text
digits zero n = (b'0' + n % 10) ∷ []
digits (suc fuel) n =
    let rest = digits fuel (n / 10) in (if ltb n 10 then [] else rest) ++ (b'0' + n % 10) ∷ []

unfoldable pub decimal : ℕ → Text
unfolding digits
decimal n = digits n n

unfoldable pub is_digit : ℕ → Bool
is_digit c = leb b'0' c && leb c b'9'

-- The number of the digits so far and of those to come.
unfoldable pub read_digits : ℕ → Text → Option ℕ
unfolding is_digit
read_digits n [] = some n
read_digits n (c ∷ s) = elim (is_digit c) [
  | true ↦ read_digits (n * 10 + (c - b'0')) s
  | false ↦ none
]

-- A text of one digit at least.
unfoldable pub read_number : Text → Option ℕ
unfolding read_digits
read_number [] = none
read_number (c ∷ s) = read_digits 0 (c ∷ s)

negative : ℕ → ℤ
negative zero = pos zero
negative (suc n) = negsuc n

-- `strconv.Atoi`, for an int of 64 bits.
unfoldable pub atoi : Text → Option ℤ
unfolding read_number negative
atoi [] = none
atoi (c ∷ s) =
    if c == b'-'
    then elim (read_number s) [
      | none ↦ none
      | some n ↦ if leb n 9223372036854775808 then some (negative n) else none
    ]
    else elim (read_number (if c == b'+' then s else c ∷ s)) [
      | none ↦ none
      | some n ↦ if leb n 9223372036854775807 then some (pos n) else none
    ]
