-- ===== src/Prelude/Decimal.antt =====
-- Texts as code points: `to_ascii_lowercase`, `eq_ignore_ascii_case`, `contains`, and the decimal
-- numbers that the standard library reads and prints.
use Prim.Native.Nat.{ℕ, zero, suc, ◌+◌, ◌-◌, ◌*◌, ◌/◌, ◌%◌}
use Prim.Native.Char.{code}
use Prim.Native.String.{String, ◌++◌}
use mathlib.Core.Bool.{Bool, true, false, ◌&&◌, ◌||◌}
use mathlib.Core.List.{List, [], ◌∷◌, map}
use mathlib.Core.Option.{Option, none, some}
use frank.Prelude.Tests.{leb, ltb, ◌==◌, if◌then◌else◌, and_then}

abbrev pub codes : String → List ℕ
codes String.[] = []
codes (String.◌∷◌ c s) = code c ∷ codes s

unfoldable pub ascii_lower : ℕ → ℕ
ascii_lower c = if leb b'A' c && leb c b'Z' then c + 32 else c

abbrev pub codes_eq : List ℕ → List ℕ → Bool
codes_eq [] [] = true
codes_eq [] (d ∷ t) = false
codes_eq (c ∷ s) [] = false
codes_eq (c ∷ s) (d ∷ t) = c == d && codes_eq s t

-- `a.eq_ignore_ascii_case(b)`
unfoldable pub eq_ignore_ascii_case : String → String → Bool
unfolding ascii_lower
eq_ignore_ascii_case a b = codes_eq (map ascii_lower (codes a)) (map ascii_lower (codes b))

abbrev pub codes_start : List ℕ → List ℕ → Bool
codes_start [] s = true
codes_start (p ∷ pat) [] = false
codes_start (p ∷ pat) (c ∷ s) = p == c && codes_start pat s

abbrev pub codes_contain : List ℕ → List ℕ → Bool
codes_contain pat [] = codes_start pat []
codes_contain pat (c ∷ s) = codes_start pat (c ∷ s) || codes_contain pat s

-- `text.to_ascii_lowercase().contains(pattern)`
unfoldable pub lower_contains : String → String → Bool
unfolding ascii_lower
lower_contains text pattern = codes_contain (codes pattern) (map ascii_lower (codes text))

-- The digits, most significant first, after those that are read; `none` on another character.
unfoldable pub parse_digits : ℕ → List ℕ → Option ℕ
parse_digits value [] = some value
parse_digits value (c ∷ s) =
    let rest = parse_digits (value * 10 + (c - b'0')) s in
    if leb b'0' c && leb c b'9' then rest else none

abbrev parse_nonempty : List ℕ → Option ℕ
parse_nonempty [] = none
parse_nonempty (c ∷ s) = parse_digits 0 (c ∷ s)

abbrev after_plus : List ℕ → List ℕ
after_plus [] = []
after_plus (c ∷ s) = if c == b'+' then s else c ∷ s

-- `text.parse::<uN>().ok()` with the number of values of the type: a leading plus is allowed.
unfoldable pub parse_below : ℕ → String → Option ℕ
unfolding parse_digits
parse_below limit text =
    and_then (parse_nonempty (after_plus (codes text))) (λ n. if ltb n limit then some n else none)

abbrev pub u64_limit : ℕ
u64_limit = 18446744073709551616

abbrev pub u128_limit : ℕ
u128_limit = 340282366920938463463374607431768211456

abbrev digit : ℕ → String
digit d =
    if d == 0
    then "0"
    else if d == 1
    then "1"
    else if d == 2
    then "2"
    else if d == 3
    then "3"
    else if d == 4
    then "4"
    else if d == 5
    then "5"
    else if d == 6
    then "6"
    else if d == 7
    then "7"
    else if d == 8
    then "8"
    else "9"

unfoldable pub show_digits : ℕ → ℕ → String
show_digits zero n = ""
show_digits (suc fuel) n = elim (ltb n 10) [
  | true ↦ digit n
  | false ↦ show_digits fuel (n / 10) ++ digit (n % 10)
]

-- `number.to_string()`; the fuel is more than the number of digits.
unfoldable pub show_number : ℕ → String
unfolding show_digits
show_number n = show_digits (suc n) n
