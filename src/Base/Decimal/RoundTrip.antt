-- ===== src/Base/Decimal/RoundTrip.antt =====
-- The decimal texts of strconv, written and read.
use Prim.Native.Nat.{ℕ, zero, suc, ◌+◌, ◌-◌, ◌*◌, ◌/◌, ◌%◌, ◌<◌, ◌≤◌}
use mathlib.Core.Path.{◌≡◌, refl, ap, ◌∙◌}
use mathlib.Core.Bool.{true}
use mathlib.Core.Logic.{◌≢◌, inl, inr}
use mathlib.Core.Option.{none, some}
use mathlib.Core.List.{[], ◌∷◌, ◌++◌}
use native.Mathlib.Omega.{arith}
use flyc.Base.Tests.{ltb, Bool-cases}
use flyc.Base.Lists.{All, All-append}
use flyc.Base.Text.{Str, cut}
use flyc.Base.TextLaws.{Avoids, cut_at_separator, cut_without}
use flyc.Base.Decimal.{
  format_fuel, format_int, is_digit, scan_digits, max_int64, parse_int, format_rate, parse_rate,
  scan_fraction, with_fraction,
}

scan-snoc :
    (v : ℕ) (s : Str) (d w : ℕ)
    → d < 10
    → scan_digits v s ≡ some w
    → scan_digits v (s ++ (b'0' + d) ∷ []) ≡ some (w * 10 + d)
unfolding scan_digits
scan-snoc v [] d w h e = ground arith
scan-snoc v (c ∷ s) d w h e = ground (arith, scan-snoc (v * 10 + (c - b'0')) s d w)

scan-format_fuel : (f n : ℕ) → n ≤ f → scan_digits 0 (format_fuel f n) ≡ some n
unfolding format_fuel
scan-format_fuel zero n h =
    scan-snoc 0 [] (n % 10) 0 (omega arith) (unfold scan_digits in refl) ∙ ap some (omega arith)
scan-format_fuel (suc f) n h = elim (Bool-cases (ltb n 10)) [
  | inl small ↦
      rw small
        (scan-snoc 0 [] n 0 (ground arith) (unfold scan_digits in refl) ∙ ap some (omega arith))
  | inr big ↦ rw big (
      scan-snoc 0 (format_fuel f (n / 10)) (n % 10) (n / 10) (omega arith)
        (scan-format_fuel f (n / 10) (ground arith))
      ∙ ap some (omega arith))
]

abbrev pub IsDigit : ℕ → Type 0
IsDigit c = is_digit c ≡ true

IsDigit-byte : (d : ℕ) → d < 10 → IsDigit (b'0' + d)
IsDigit-byte d h = ground arith

format_fuel-digits : (f n : ℕ) → All IsDigit (format_fuel f n)
unfolding format_fuel
format_fuel-digits zero n = (IsDigit-byte (n % 10) (omega arith), tt)
format_fuel-digits (suc f) n = elim (Bool-cases (ltb n 10)) [
  | inl small ↦ rw small (IsDigit-byte n (ground arith), tt)
  | inr big ↦ rw big (
      All-append IsDigit (format_fuel f (n / 10)) _ (format_fuel-digits f (n / 10))
        (IsDigit-byte (n % 10) (omega arith), tt))
]

append-one : (s : Str) (c : ℕ) → s ++ c ∷ [] ≢ []
append-one [] c = λ e. cc
append-one (x ∷ s) c = λ e. cc

format_fuel-ne-nil : (f n : ℕ) → format_fuel f n ≢ []
unfolding format_fuel
format_fuel-ne-nil zero n = λ e. cc
format_fuel-ne-nil (suc f) n =
    λ e. ground (arith, append-one (format_fuel f (n / 10)) (b'0' + n % 10))

-- A text of digits reads as its digits.
parse_int-digits :
    (s : Str) (n : ℕ)
    → All IsDigit s
    → scan_digits 0 s ≡ some n
    → s ≢ []
    → n ≤ max_int64
    → parse_int s ≡ (n, true)
unfolding parse_int
parse_int-digits [] n d e h k = absurd (h refl)
parse_int-digits (c ∷ []) n d e h k = rw e (ground arith)
parse_int-digits (c ∷ x ∷ s) n d e h k = ground arith

pub format_int-ne-nil : (n : ℕ) → format_int n ≢ []
unfolding format_int
format_int-ne-nil n = format_fuel-ne-nil n n

-- What FormatInt writes, ParseInt reads, for every value of an int64 that is not negative.
pub parse-format_int : (n : ℕ) → n ≤ max_int64 → parse_int (format_int n) ≡ (n, true)
unfolding format_int
parse-format_int n h =
    parse_int-digits (format_int n) n (format_fuel-digits n n) (scan-format_fuel n n (omega arith))
      (format_int-ne-nil n) h

digits-Avoids : (s : Str) → All IsDigit s → Avoids b'.' s
digits-Avoids [] h = tt
digits-Avoids (c ∷ s) h = (ground arith, digits-Avoids s h.1)

append-Digits : (n : ℕ) → Avoids b'.' (format_int n)
unfolding format_int
append-Digits n = digits-Avoids (format_int n) (format_fuel-digits n n)

scan-format_int : (n : ℕ) → scan_digits 0 (format_int n) ≡ some n
unfolding format_int
scan-format_int n = scan-format_fuel n n (omega arith)

parse_rate-none :
    (s : Str) → s ≢ [] → cut b'.' s ≡ none → parse_rate s ≡ with_fraction (scan_digits 0 s) (some 0)
unfolding parse_rate
parse_rate-none [] h e = absurd (h refl)
parse_rate-none (c ∷ s) h e = ground arith

parse_rate-some :
    (s a b : Str)
    → s ≢ []
    → cut b'.' s ≡ some (a, b)
    → parse_rate s ≡ with_fraction (scan_digits 0 a) (scan_fraction b)
unfolding parse_rate
parse_rate-some [] a b h e = absurd (h refl)
parse_rate-some (c ∷ s) a b h e = ground arith

parse_rate_whole : (n : ℕ) → parse_rate (format_int n) ≡ some (n * 1000)
parse_rate_whole n =
    parse_rate-none (format_int n) (format_int-ne-nil n) (cut_without b'.' _ (append-Digits n))
    ∙ rw (scan-format_int n) (ap some (omega arith))

point-ne-nil : (s t : Str) → s ++ b'.' ∷ t ≢ []
point-ne-nil [] t = λ e. cc
point-ne-nil (c ∷ s) t = λ e. cc

parse_rate_point :
    (n : ℕ) (t : Str) (w : ℕ)
    → scan_fraction t ≡ some w
    → parse_rate (format_int n ++ b'.' ∷ t) ≡ some (n * 1000 + w)
parse_rate_point n t w h =
    parse_rate-some (format_int n ++ b'.' ∷ t) (format_int n) t (point-ne-nil (format_int n) t)
      (cut_at_separator b'.' (format_int n) t (append-Digits n))
    ∙ rw (scan-format_int n, h) refl

-- A rate in thousandths is read back as it was.
pub parse-format_rate : (r : ℕ) → parse_rate (format_rate r) ≡ some r
unfolding format_rate
parse-format_rate r = ground (
  arith,
  parse_rate_whole (r / 1000),
  parse_rate_point (r / 1000) ((b'0' + r / 100 % 10) ∷ []) (r / 100 % 10 * 100),
  parse_rate_point (r / 1000) ((b'0' + r / 100 % 10) ∷ (b'0' + r / 10 % 10) ∷ [])
      (r / 100 % 10 * 100 + r / 10 % 10 * 10),
  parse_rate_point (r / 1000) ((b'0' + r / 100 % 10) ∷ (b'0' + r / 10 % 10) ∷ (b'0' + r % 10) ∷ [])
      (r / 100 % 10 * 100 + r / 10 % 10 * 10 + r % 10),
)
