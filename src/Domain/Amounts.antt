-- ===== src/Domain/Amounts.antt =====
-- internal/domain/money.go: an amount in cents with its currency. The cents are the int64's
-- 64 bits, a number below 2 ^ 64 whose upper half stands for the negative values.
use Prim.Native.String.{len}
use ticketing_backend.Prelude.{
  ℕ, ◌+◌, ◌-◌, ◌/◌, ◌%◌, ◌^◌, String, str_append, Bool, true, false, not, ◌&&◌, Option, none, some,
  ltb, ◌==◌, if◌then◌else◌, str_eq,
}
use ticketing_backend.Prelude.Decimals.{decimal}

abbrev pub int64_mod : ℕ
int64_mod = 2 ^ 64

abbrev pub int64_sign : ℕ
int64_sign = 2 ^ 63

-- x < 0
abbrev pub is_negative : ℕ → Bool
is_negative x = if ltb x int64_sign then false else true

pub record Money : Type 0 where
  pub cents : ℕ
  pub currency : String

-- `none` is the ErrInvalidInput of both functions.
unfoldable pub new_money : ℕ → String → Option Money
new_money cents currency =
    if is_negative cents
    then none
    else if len currency == 3
    then some (record { cents = cents; currency = currency })
    else none

unfoldable pub add : Money → Money → Option Money
add m other =
    if str_eq m.currency other.currency
    then some (record { cents = (m.cents + other.cents) % int64_mod; currency = m.currency })
    else none

-- An int64's distance from 0.
abbrev magnitude : ℕ → ℕ
magnitude x = if is_negative x then int64_mod - x % int64_mod else x

-- The verb %02d: at least two characters, the sign among them.
abbrev two_digits : Bool → ℕ → String
two_digits true n = str_append "-" (decimal n)
two_digits false n = if ltb n 10 then str_append "0" (decimal n) else decimal n

abbrev whole : Bool → ℕ → String
whole negative n = if negative && not (n == 0) then str_append "-" (decimal n) else decimal n

-- Money.String: the quotient and the remainder are those of Go, which cuts off towards 0.
unfoldable pub show_money : Money → String
unfolding decimal
show_money m =
    let n = magnitude m.cents in
    let negative = is_negative m.cents in
    str_append (whole negative (n / 100)) (
      str_append "." (
        str_append (two_digits (negative && not (n % 100 == 0)) (n % 100))
          (str_append " " m.currency)))
