-- ===== src/Base/Decimal.antt =====
-- strconv: FormatInt and ParseInt, for values that are not negative (the minus sign is read, and
-- stands for 0), and the texts of a rate in thousandths (FormatFloat with 'f' and precision -1,
-- ParseFloat on such texts).
pub mod RoundTrip
use Prim.Native.Nat.{ℕ, zero, suc, ◌+◌, ◌-◌, ◌*◌, ◌/◌, ◌%◌, ◌^◌}
use mathlib.Core.Bool.{Bool, true, false, ◌&&◌}
use mathlib.Core.Option.{Option, none, some}
use mathlib.Core.List.{List, [], ◌∷◌, ◌++◌}
use flyc.Base.Tests.{ltb, leb, ◌==◌, if◌then◌else◌}
use flyc.Base.Text.{Str, cut}

-- The digits of n, with at least n rounds of fuel.
unfoldable pub format_fuel : ℕ → ℕ → Str
format_fuel zero n = (b'0' + n % 10) ∷ []
format_fuel (suc f) n =
    let front = format_fuel f (n / 10) in
    if ltb n 10 then (b'0' + n) ∷ [] else front ++ (b'0' + n % 10) ∷ []

unfoldable pub format_int : ℕ → Str
unfolding format_fuel
format_int n = format_fuel n n

abbrev pub is_digit : ℕ → Bool
is_digit c = leb b'0' c && leb c b'9'

-- The value of a run of digits, behind the value that stands before it.
unfoldable pub scan_digits : ℕ → Str → Option ℕ
scan_digits v [] = some v
scan_digits v (c ∷ s) = if is_digit c then scan_digits (v * 10 + (c - b'0')) s else none

abbrev pub max_int64 : ℕ
max_int64 = 2 ^ 63 - 1

-- ParseInt: the value, and whether there is no error. Out of range it is the greatest value.
abbrev pub in_range : Option ℕ → ℕ × Bool
in_range none = (0, false)
in_range (some v) = if leb v max_int64 then (v, true) else (max_int64, false)

-- A minus sign in front of digits: a value below 1, which stands as 0.
abbrev pub negated : Option ℕ → ℕ × Bool
negated none = (0, false)
negated (some v) = (0, leb v (max_int64 + 1))

unfoldable pub parse_int : Str → ℕ × Bool
unfolding scan_digits
parse_int [] = (0, false)
parse_int (c ∷ []) = in_range (scan_digits 0 (c ∷ []))
parse_int (c ∷ d ∷ s) =
    if c == b'-'
    then negated (scan_digits 0 (d ∷ s))
    else if c == b'+'
    then in_range (scan_digits 0 (d ∷ s))
    else in_range (scan_digits 0 (c ∷ d ∷ s))

-- A rate of r thousandths: its shortest decimal text.
unfoldable pub format_rate : ℕ → Str
unfolding format_int
format_rate r =
    if r % 1000 == 0
    then format_int (r / 1000)
    else if r % 100 == 0
    then format_int (r / 1000) ++ b'.' ∷ (b'0' + r / 100 % 10) ∷ []
    else if r % 10 == 0
    then format_int (r / 1000) ++ b'.' ∷ (b'0' + r / 100 % 10) ∷ (b'0' + r / 10 % 10) ∷ []
    else format_int (r / 1000)
      ++ b'.' ∷ (b'0' + r / 100 % 10) ∷ (b'0' + r / 10 % 10) ∷ (b'0' + r % 10) ∷ []

-- Digits behind the point; what lies below a thousandth is cut off.
abbrev pub scan_fraction : Str → Option ℕ
scan_fraction [] = some 0
scan_fraction (a ∷ []) = if is_digit a then some ((a - b'0') * 100) else none
scan_fraction (a ∷ b ∷ []) =
    if is_digit a && is_digit b then some ((a - b'0') * 100 + (b - b'0') * 10) else none
scan_fraction (a ∷ b ∷ c ∷ s) =
    if is_digit a && is_digit b && is_digit c
    then some ((a - b'0') * 100 + (b - b'0') * 10 + (c - b'0'))
    else none

abbrev pub with_fraction : Option ℕ → Option ℕ → Option ℕ
with_fraction (some v) (some w) = some (v * 1000 + w)
with_fraction (some v) none = none
with_fraction none f = none

unfoldable pub parse_rate : Str → Option ℕ
unfolding scan_digits cut
parse_rate [] = none
parse_rate (c ∷ s) = elim (cut b'.' (c ∷ s)) [
  | none ↦ with_fraction (scan_digits 0 (c ∷ s)) (some 0)
  | some (a, b) ↦ with_fraction (scan_digits 0 a) (scan_fraction b)
]
