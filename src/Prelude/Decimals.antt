-- ===== src/Prelude/Decimals.antt =====
-- strconv.FormatInt(i, 10), on the 64 bits of an int64.
use Prim.Native.Char.{Char, char}
use ticketing_backend.Prelude.{
  ℕ, zero, suc, ◌+◌, ◌-◌, ◌*◌, ◌/◌, ◌%◌, ◌^◌, ◌<◌, ◌≡◌, refl, arith, String, str_append, List, [],
  ◌∷◌, ltb, if◌then◌else◌,
}
use ticketing_backend.Prelude.Texts.{small-IsScalar}

-- The digits of a number, the last one first; a number below 10 ^ fuel has at most `fuel` of them.
unfoldable pub digits : ℕ → ℕ → List ℕ
digits zero n = []
digits (suc fuel) n = let rest = digits fuel (n / 10) in if ltb n 10 then n ∷ [] else n % 10 ∷ rest

unfoldable pub value : List ℕ → ℕ
value [] = 0
value (d ∷ ds) = d + 10 * value ds

smaller : (fuel n : ℕ) → n < 10 ^ suc fuel → n / 10 < 10 ^ fuel
smaller fuel n h = omega arith

-- With enough fuel the digits are those of the number.
pub value-digits : (fuel n : ℕ) → n < 10 ^ fuel → value (digits fuel n) ≡ n
unfolding digits value
value-digits zero n h = omega arith
value-digits (suc fuel) n h =
    let again = value-digits fuel (n / 10) (smaller fuel n h) in ground arith

-- A digit as its character; 48 is the zero.
abbrev digit_char : ℕ → Char
digit_char d = char (48 + d % 10) (small-IsScalar (48 + d % 10) (omega arith))

-- The digits, the last one first, in front of a text.
unfoldable pub print_digits : List ℕ → String → String
print_digits [] s = s
print_digits (d ∷ ds) s = print_digits ds (String.◌∷◌ (digit_char d) s)

-- A number below 2 ^ 64 has no more than 20 digits.
unfoldable pub decimal : ℕ → String
unfolding digits print_digits
decimal n = print_digits (digits 20 n) ""

decimal_value : (n : ℕ) → n < 2 ^ 64 → value (digits 20 n) ≡ n
decimal_value n h = value-digits 20 n (omega arith)

-- strconv.FormatInt(i, 10) of an int64 given by its 64 bits
unfoldable pub format_int : ℕ → String
unfolding decimal
format_int n = if ltb n (2 ^ 63) then decimal n else str_append "-" (decimal (2 ^ 64 - n % 2 ^ 64))

formats : format_int 125000 ≡ "125000"
unfolding format_int decimal digits print_digits
formats = refl

formats_negative : format_int (2 ^ 64 - 15) ≡ "-15"
unfolding format_int decimal digits print_digits
formats_negative = refl
