-- ===== src/Common/Decimal.antt =====
-- Decimal numbers: `str::parse::<u64>` and the `Display` of a u64.
pub mod Laws
use Prim.Native.Nat.{ℕ, zero, suc, ◌+◌, ◌*◌, ◌/◌, ◌%◌, ◌-◌}
use mathlib.Core.Bool.{Bool, true, false}
use mathlib.Core.Option.{Option, none, some}
use mathlib.Core.List.{List, [], ◌∷◌, ◌++◌}
use cachic.Common.Tests.{ltb, leb, ◌==◌, if◌then◌else◌}
use cachic.Common.Lists.{all}
use cachic.Common.Words.{u64_max}
use cachic.Common.Text.{is_ascii_digit}

-- The number that digits write, with `acc` read before them.
unfoldable pub digits_value : ℕ → List ℕ → ℕ
digits_value acc [] = acc
digits_value acc (c ∷ s) = digits_value (acc * 10 + (c - 48)) s

-- Digits only, at least one, and the value in range.
parse_digits : List ℕ → Option ℕ
unfolding is_ascii_digit
parse_digits [] = none
parse_digits (c ∷ s) =
    if all is_ascii_digit (c ∷ s)
    then (if leb (digits_value 0 (c ∷ s)) u64_max then some (digits_value 0 (c ∷ s)) else none)
    else none

-- Rust accepts one leading plus sign.
unfoldable pub parse_u64 : List ℕ → Option ℕ
unfolding parse_digits
parse_u64 [] = none
parse_u64 (c ∷ s) = if c == 43 then parse_digits s else parse_digits (c ∷ s)

print_from : ℕ → ℕ → List ℕ → List ℕ
print_from zero n rest = rest
print_from (suc k) n rest =
    let more = print_from k (n / 10) ((48 + n % 10) ∷ rest) in
    if ltb n 10 then (48 + n) ∷ rest else more

-- A u64 has 20 digits at most.
unfoldable pub print_u64 : ℕ → List ℕ
unfolding print_from
print_u64 n = print_from 20 n []
