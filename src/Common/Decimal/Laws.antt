-- ===== src/Common/Decimal/Laws.antt =====
-- Printing a u64 and parsing it again.
use Prim.Native.Nat.{ℕ, zero, suc, ◌+◌, ◌*◌, ◌/◌, ◌%◌, ◌-◌, ◌≤◌, ◌<◌, ◌^◌}
use mathlib.Core.Path.{◌≡◌, refl, ap}
use mathlib.Core.Logic.{◌≢◌}
use mathlib.Core.Bool.{true}
use mathlib.Core.Option.{some}
use mathlib.Core.List.{List, [], ◌∷◌}
use native.Mathlib.Omega.{arith}
use cachic.Common.Lists.{all, All}
use cachic.Common.Words.{IsU64}
use cachic.Common.Text.{is_ascii_digit}
use cachic.Common.Decimal.{digits_value, parse_u64, print_from, print_u64}

abbrev pub IsDigit : ℕ → Type 0
IsDigit c = (48 ≤ c) × (c ≤ 57)

all-is_ascii_digit : (s : List ℕ) → All IsDigit s → all is_ascii_digit s ≡ true
unfolding is_ascii_digit
all-is_ascii_digit [] h = refl
all-is_ascii_digit (c ∷ s) (hc, hs) = ground (arith, all-is_ascii_digit s hs)

print_from-IsDigit :
    (k n : ℕ) (rest : List ℕ) → All IsDigit rest → All IsDigit (print_from k n rest)
unfolding print_from
print_from-IsDigit zero n rest h = h
print_from-IsDigit (suc k) n rest h =
    ground
      (arith, print_from-IsDigit k (n / 10) ((48 + n % 10) ∷ rest) ((omega arith, omega arith), h))

pub print_u64-IsDigit : (n : ℕ) → All IsDigit (print_u64 n)
unfolding print_u64
print_u64-IsDigit n = print_from-IsDigit 20 n [] tt

-- What is printed in front of `rest` reads as the number itself.
digits_value-print_from :
    (k n : ℕ) (rest : List ℕ)
    → n < 10 ^ k
    → digits_value 0 (print_from k n rest) ≡ digits_value n rest
unfolding digits_value print_from
digits_value-print_from zero n rest h = ap (λ m. digits_value m rest) (omega arith)
digits_value-print_from (suc k) n rest h =
    ground (arith, digits_value-print_from k (n / 10) ((48 + n % 10) ∷ rest) (omega arith), step)
  where
    step : digits_value (n / 10 * 10 + (48 + n % 10 - 48)) rest ≡ digits_value n rest
    step = ap (λ m. digits_value m rest) (omega arith)

print_from-ne-nil : (k n c : ℕ) (rest : List ℕ) → print_from k n (c ∷ rest) ≢ []
unfolding print_from
print_from-ne-nil zero n c rest = λ e. cc
print_from-ne-nil (suc k) n c rest =
    ground (arith, print_from-ne-nil k (n / 10) (48 + n % 10) (c ∷ rest))

pub print_u64-ne-nil : (n : ℕ) → print_u64 n ≢ []
unfolding print_u64 print_from
print_u64-ne-nil n =
    unfold print_from in ground (arith, print_from-ne-nil 19 (n / 10) (48 + n % 10) [])

-- A number in range is parsed from any digits that write it.
pub parse_u64_digits :
    (s : List ℕ) {n : ℕ}
    → s ≢ []
    → All IsDigit s
    → digits_value 0 s ≡ n
    → IsU64 n
    → parse_u64 s ≡ some n
unfolding parse_u64
parse_u64_digits [] e h v r = absurd (e refl)
parse_u64_digits (c ∷ s) {n} e h v r = ground (arith, all-is_ascii_digit (c ∷ s) h)

pub digits_value-print_u64 : (n : ℕ) → IsU64 n → digits_value 0 (print_u64 n) ≡ n
unfolding print_u64 digits_value
digits_value-print_u64 n h = digits_value-print_from 20 n [] (omega arith)

pub parse_u64-print_u64 : (n : ℕ) → IsU64 n → parse_u64 (print_u64 n) ≡ some n
parse_u64-print_u64 n h =
    parse_u64_digits (print_u64 n) (print_u64-ne-nil n) (print_u64-IsDigit n)
      (digits_value-print_u64 n h) h
