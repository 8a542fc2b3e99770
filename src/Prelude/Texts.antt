-- ===== src/Prelude/Texts.antt =====
-- strings.ToLower, strings.TrimSpace and the equality of CITEXT, on the letters and the spaces of
-- ASCII.
use Prim.Native.Char.{Char, char, code, IsScalar}
use Prim.Native.Nat.{ℕ, ◌+◌, ◌≤◌, Ordering, compare}
use mathlib.Core.Path.{◌≡◌, refl}
use mathlib.Core.Option.{Option, none, some}
use mathlib.Core.List.{List, [], ◌∷◌}
use mathlib.Core.Bool.{Bool, true, false, ◌&&◌, ◌||◌}
use native.Mathlib.Omega.{arith}
use native.Mathlib.Decide.{dec_le}
use Prim.Native.String.append
use Prim.Native.String.{String, ◌++◌ as str_append}
use text.Mathlib.Text.{◌==◌ as str_eq}
use ticketing_backend.Prelude.Tests.{◌==◌, ==_refl, leb, if◌then◌else◌}

pub small-IsScalar : (n : ℕ) → n ≤ 1000 → IsScalar n
small-IsScalar n h = let e : compare n 55296 ≡ Ordering.lt = ground arith in rw e tt

abbrev lowered : (n : ℕ) → IsScalar n → Dec (65 ≤ n) → Dec (n ≤ 90) → Char
lowered n p (yes a) (yes z) = char (n + 32) (small-IsScalar (n + 32) (omega arith))
lowered n p (no a) d = char n p
lowered n p (yes a) (no z) = char n p

-- A letter of A to Z becomes the small one.
unfoldable pub lower_char : Char → Char
unfolding dec_le
lower_char (char n p) = lowered n p (dec_le 65 n) (dec_le n 90)

unfoldable pub to_lower : String → String
unfolding lower_char
to_lower String.[] = String.[]
to_lower (String.◌∷◌ c s) = String.◌∷◌ (lower_char c) (to_lower s)

abbrev is_space : Char → Bool
is_space c = code c == 32 || leb 9 (code c) && leb (code c) 13

abbrev is_empty : String → Bool
is_empty String.[] = true
is_empty (String.◌∷◌ c s) = false

abbrev trim_left : String → String
trim_left String.[] = String.[]
trim_left (String.◌∷◌ c s) = if is_space c then trim_left s else String.◌∷◌ c s

abbrev trim_right : String → String
trim_right String.[] = String.[]
trim_right (String.◌∷◌ c s) =
    let rest = trim_right s in if is_space c && is_empty rest then String.[] else String.◌∷◌ c rest

unfoldable pub trim_space : String → String
trim_space s = trim_right (trim_left s)

-- The equality of CITEXT columns.
unfoldable pub citext_eq : String → String → Bool
unfolding to_lower
citext_eq s t = str_eq (to_lower s) (to_lower t)

lowers : to_lower (trim_space "  Fan@Example.org ") ≡ "fan@example.org"
unfolding to_lower trim_space
lowers = refl

-- strings.CutPrefix: the text after the prefix, `none` where it does not stand first.
unfoldable pub cut_prefix : String → String → Option String
cut_prefix String.[] s = some s
cut_prefix (String.◌∷◌ c p) String.[] = none
cut_prefix (String.◌∷◌ c p) (String.◌∷◌ d s) = if code c == code d then cut_prefix p s else none

-- The character with this code and the text before it, and that after it: strings.SplitN(s, sep, 2)
-- where it has two parts, and strings.Index; `none` where the character does not occur.
unfoldable pub cut : ℕ → String → Option (String × String)
cut sep String.[] = none
cut sep (String.◌∷◌ c s) =
    let rest = cut sep s in
    if code c == sep
    then some (String.[], s)
    else elim rest [ none ↦ none | some (before, after) ↦ some (String.◌∷◌ c before, after) ]

abbrev with_first : Char → List String → List String
with_first c [] = String.◌∷◌ c String.[] ∷ []
with_first c (part ∷ parts) = String.◌∷◌ c part ∷ parts

-- strings.Split by the character with this code
unfoldable pub split : ℕ → String → List String
split sep String.[] = String.[] ∷ []
split sep (String.◌∷◌ c s) =
    let rest = split sep s in if code c == sep then String.[] ∷ rest else with_first c rest

pub cut_prefix-append : (p s : String) → cut_prefix p (str_append p s) ≡ some s
unfolding cut_prefix
cut_prefix-append String.[] s = rw (append.nil s) refl
cut_prefix-append (String.◌∷◌ c p) s =
    rw (append.cons c p s, ==_refl (code c)) (cut_prefix-append p s)
