-- ===== src/Config/Units/Print.antt =====
-- A number written in front of a unit is read as the product, or as an overflow.
use cachic.Common.{
  ℕ, ◌≡◌, ◌≢◌, refl, true, false, Option, some, List, [], ◌∷◌, ◌++◌, ok, All, All-append, arith,
}
use cachic.Common.Words.{IsU64}
use cachic.Common.Text.{is_empty, is_ascii_digit, to_ascii_lowercase, trim}
use cachic.Common.Text.Laws.{IsGraphic, trim_graphic}
use cachic.Common.Decimal.{print_u64}
use cachic.Common.Decimal.Laws.{IsDigit, print_u64-IsDigit, print_u64-ne-nil, parse_u64-print_u64}
use cachic.Config.Units.{
  cons_digit, span_digits, split_parts, split, size_unit, duration_unit, checked_mul, parse_with,
  parse_size, parse_duration,
}

-- Graphic characters, none of which is a digit at the start.
pub record IsUnit (u : List ℕ) : Type 0 where
  pub graphic : All IsGraphic u
  pub letter : span_digits u ≡ ([], u)

pub digits-IsGraphic : (s : List ℕ) → All IsDigit s → All IsGraphic s
digits-IsGraphic [] h = tt
digits-IsGraphic (c ∷ s) h = ((omega (arith, h.0), omega (arith, h.0)), digits-IsGraphic s h.1)

pub span_digits-append :
    (d u : List ℕ) → All IsDigit d → span_digits u ≡ ([], u) → span_digits (d ++ u) ≡ (d, u)
unfolding span_digits
span_digits-append [] u h k = k
span_digits-append (c ∷ d) u (h, hs) k =
    rw (digit, span_digits-append d u hs k) (unfold cons_digit in refl)
  where
    digit : is_ascii_digit c ≡ true
    digit = unfold is_ascii_digit in ground (arith, h)

pub is_empty-ne : (d : List ℕ) → d ≢ [] → is_empty d ≡ false
unfolding is_empty
is_empty-ne [] h = absurd (h refl)
is_empty-ne (c ∷ d) h = refl

pub is_empty-append : (d u : List ℕ) → d ≢ [] → is_empty (d ++ u) ≡ false
unfolding is_empty
is_empty-append [] u h = absurd (h refl)
is_empty-append (c ∷ d) u h = refl

module _ (n : ℕ) (u : List ℕ) (n_u64 : IsU64 n) (h : IsUnit u) where
  trim-print : trim (print_u64 n ++ u) ≡ print_u64 n ++ u
  trim-print = trim_graphic (print_u64 n ++ u) (
      All-append IsGraphic (print_u64 n) u (digits-IsGraphic (print_u64 n) (print_u64-IsDigit n))
        h.graphic)

  split-print : split (print_u64 n ++ u) ≡ ok (n, u)
  unfolding split split_parts
  split-print =
      rw
        (
          trim-print,
          is_empty-append (print_u64 n) u (print_u64-ne-nil n),
          span_digits-append (print_u64 n) u (print_u64-IsDigit n) h.letter,
          is_empty-ne (print_u64 n) (print_u64-ne-nil n),
          parse_u64-print_u64 n n_u64,
          trim_graphic u h.graphic,
        )
        refl

  parse_with-print :
      (units : List ℕ → Option ℕ) (m : ℕ)
      → units (to_ascii_lowercase u) ≡ some m
      → parse_with units (print_u64 n ++ u) ≡ checked_mul (print_u64 n ++ u) n m
  unfolding parse_with
  parse_with-print units m e = rw (split-print, e, trim-print) refl

-- A u64 written in decimal, directly in front of a unit that the table of sizes gives as `m`, is read by
-- `parse_size` as `n * m` if that fits u64, and refused as an overflow otherwise; the same holds of
-- `parse_duration` with the table of durations.
pub parse-print :
    (n k : ℕ) (u v : List ℕ) (m s : ℕ)
    → IsU64 n
    → IsU64 k
    → IsUnit u
    → IsUnit v
    → size_unit (to_ascii_lowercase u) ≡ some m
    → duration_unit (to_ascii_lowercase v) ≡ some s
    → (parse_size (print_u64 n ++ u) ≡ checked_mul (print_u64 n ++ u) n m)
      × (parse_duration (print_u64 k ++ v) ≡ checked_mul (print_u64 k ++ v) k s)
unfolding parse_size parse_duration
parse-print n k u v m s hn hk hu hv hm hs =
    (parse_with-print n u hn hu size_unit m hm, parse_with-print k v hk hv duration_unit s hs)
