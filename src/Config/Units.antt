-- ===== src/Config/Units.antt =====
-- crates/cachic/src/config/units.rs: sizes and durations as operators write them. A `Duration` is its seconds.
pub mod Print
pub mod Sizes
pub mod Examples
use cachic.Common.{
  ℕ, ◌*◌, ◌/◌, ◌%◌, ◌^◌, ◌&&◌, ◌==◌, Bool, true, false, Option, none, some, List, [], ◌∷◌, ◌++◌,
  ◌||◌, leb, if◌then◌else◌, Result, ok, err, ◌>>=◌, ok_or,
}
use cachic.Common.Words.{u64_max}
use cachic.Common.Text.{codes, text_eq, is_empty, is_ascii_digit, trim, to_ascii_lowercase}
use cachic.Common.Decimal.{parse_u64, print_u64}

pub data ParseError : Type 0 where
  empty : ParseError
  malformed : List ℕ → ParseError
  unknown_unit : List ℕ → List ℕ → ParseError
  overflow : List ℕ → ParseError

-- A text at its first byte that is not a digit: `trimmed[..digits]` and `trimmed[digits..]`.
unfoldable pub cons_digit : ℕ → List ℕ × List ℕ → List ℕ × List ℕ
cons_digit c (digits, rest) = (c ∷ digits, rest)

unfoldable pub span_digits : List ℕ → List ℕ × List ℕ
unfolding cons_digit
span_digits [] = ([], [])
span_digits (c ∷ s) =
    let more = span_digits s in if is_ascii_digit c then cons_digit c more else ([], c ∷ s)

-- `split` of the trimmed text, by its digits and what follows them.
unfoldable pub split_parts : List ℕ → List ℕ × List ℕ → Result (ℕ × List ℕ) ParseError
split_parts trimmed (digits, rest) =
    if is_empty digits
    then err (malformed trimmed)
    else (ok_or (parse_u64 digits) (overflow trimmed) >>= λ value. ok (value, trim rest))

unfoldable pub split : List ℕ → Result (ℕ × List ℕ) ParseError
unfolding split_parts span_digits
split input =
    let trimmed = trim input in
    if is_empty trimmed then err empty else split_parts trimmed (span_digits trimmed)

-- The multiplier of a unit in lower case.
unfoldable pub size_unit : List ℕ → Option ℕ
size_unit u =
    if text_eq u [] || text_eq u (codes "b")
    then some 1
    else if text_eq u (codes "k") || text_eq u (codes "kib")
    then some (2 ^ 10)
    else if text_eq u (codes "m") || text_eq u (codes "mib")
    then some (2 ^ 20)
    else if text_eq u (codes "g") || text_eq u (codes "gib")
    then some (2 ^ 30)
    else if text_eq u (codes "t") || text_eq u (codes "tib")
    then some (2 ^ 40)
    else if text_eq u (codes "kb")
    then some 1000
    else if text_eq u (codes "mb")
    then some 1000000
    else if text_eq u (codes "gb")
    then some 1000000000
    else if text_eq u (codes "tb")
    then some 1000000000000
    else none

unfoldable pub duration_unit : List ℕ → Option ℕ
duration_unit u =
    if text_eq u []
      || (text_eq u (codes "s") || (text_eq u (codes "sec") || text_eq u (codes "secs")))
    then some 1
    else if text_eq u (codes "m") || (text_eq u (codes "min") || text_eq u (codes "mins"))
    then some 60
    else if text_eq u (codes "h") || (text_eq u (codes "hr") || text_eq u (codes "hrs"))
    then some 3600
    else if text_eq u (codes "d") || (text_eq u (codes "day") || text_eq u (codes "days"))
    then some 86400
    else if text_eq u (codes "w") || (text_eq u (codes "week") || text_eq u (codes "weeks"))
    then some 604800
    else none

-- `value.checked_mul(multiplier)`, or the overflow of the trimmed input.
unfoldable pub checked_mul : List ℕ → ℕ → ℕ → Result ℕ ParseError
checked_mul trimmed value multiplier =
    if leb (value * multiplier) u64_max then ok (value * multiplier) else err (overflow trimmed)

-- What both parsers do, over their tables of units.
unfoldable pub parse_with : (List ℕ → Option ℕ) → List ℕ → Result ℕ ParseError
unfolding split checked_mul
parse_with units input = split input >>= λ (value, unit).
    ok_or (units (to_ascii_lowercase unit)) (unknown_unit (trim input) (to_ascii_lowercase unit))
    >>= λ multiplier. checked_mul (trim input) value multiplier

unfoldable pub parse_size : List ℕ → Result ℕ ParseError
unfolding parse_with size_unit
parse_size input = parse_with size_unit input

unfoldable pub parse_duration : List ℕ → Result ℕ ParseError
unfolding parse_with duration_unit
parse_duration input = parse_with duration_unit input

-- The loop of `format_size` over its units.
unfoldable pub format_with : List (List ℕ × ℕ) → ℕ → List ℕ
format_with [] bytes = print_u64 bytes ++ codes " B"
format_with ((name, mult) ∷ rest) bytes =
    let smaller = format_with rest bytes in
    if leb mult bytes && bytes % mult == 0 then print_u64 (bytes / mult) ++ 32 ∷ name else smaller

-- The `UNITS` of `format_size`.
abbrev pub format_units : List (List ℕ × ℕ)
format_units =
    (codes "TiB", 1099511627776)
    ∷ (codes "GiB", 1073741824)
    ∷ (codes "MiB", 1048576)
    ∷ (codes "KiB", 1024)
    ∷ []

unfoldable pub format_size : ℕ → List ℕ
unfolding format_with
format_size bytes = format_with format_units bytes
