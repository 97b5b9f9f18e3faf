-- ===== src/Config/Units/Sizes.antt =====
-- `format_size` against `parse_size`.
use cachic.Common.{
  ℕ, ◌*◌, ◌/◌, ◌%◌, ◌≤◌, ◌≡◌, ◌≢◌, refl, sym, ap, ◌∙◌, subst, true, Bool-cases, inl, inr, ◌&&◌,
  some, List, [], ◌∷◌, ◌++◌, leb, ◌==◌, ok, All, arith,
}
use cachic.Common.Words.{IsU64}
use cachic.Common.Text.{codes, text_eq, is_ascii_digit, to_ascii_lowercase, trim, trim_end}
use cachic.Common.Text.Laws.{
  IsGraphic, trim_graphic, trim_start_graphic, trim_end-append, trim-space,
}
use cachic.Common.Decimal.{print_u64}
use cachic.Common.Decimal.Laws.{IsDigit, print_u64-IsDigit, print_u64-ne-nil, parse_u64-print_u64}
use cachic.Config.Units.{
  span_digits, split_parts, split, size_unit, checked_mul, parse_with, parse_size, format_with,
  format_units, format_size,
}
use cachic.Config.Units.Print.{digits-IsGraphic, span_digits-append, is_empty-ne, is_empty-append}

trim-digits : (d t : List ℕ) → All IsDigit d → d ≢ [] → trim_end t ≡ t → trim (d ++ t) ≡ d ++ t
unfolding trim
trim-digits [] t h some_digit e = absurd (some_digit refl)
trim-digits (c ∷ d) t h some_digit e =
    let graphic = digits-IsGraphic (c ∷ d) h in
    ap trim_end (trim_start_graphic c (d ++ t) graphic.0)
    ∙ (trim_end-append (c ∷ d) t graphic ∙ ap (λ s. (c ∷ d) ++ s) e)

-- A unit after a space.
record IsSpaced (u : List ℕ) : Type 0 where
  graphic : All IsGraphic u
  kept : trim_end (32 ∷ u) ≡ 32 ∷ u
  apart : span_digits (32 ∷ u) ≡ ([], 32 ∷ u)

module _ (n : ℕ) (u : List ℕ) (n_u64 : IsU64 n) (h : IsSpaced u) where
  split-spaced : split (print_u64 n ++ 32 ∷ u) ≡ ok (n, u)
  unfolding split split_parts
  split-spaced =
      rw
        (
          trim-digits (print_u64 n) (32 ∷ u) (print_u64-IsDigit n) (print_u64-ne-nil n) h.kept,
          is_empty-append (print_u64 n) (32 ∷ u) (print_u64-ne-nil n),
          span_digits-append (print_u64 n) (32 ∷ u) (print_u64-IsDigit n) h.apart,
          is_empty-ne (print_u64 n) (print_u64-ne-nil n),
          parse_u64-print_u64 n n_u64,
          trim-space u,
          trim_graphic u h.graphic,
        )
        refl

  parse_size-spaced :
      (m : ℕ)
      → size_unit (to_ascii_lowercase u) ≡ some m
      → IsU64 (n * m)
      → parse_size (print_u64 n ++ 32 ∷ u) ≡ ok (n * m)
  unfolding parse_size parse_with checked_mul
  parse_size-spaced m e fits = rw (split-spaced, e) (rw at refl)
    where
      at : leb (n * m) 18446744073709551615 ≡ true
      at = ground arith

-- A unit of the table of sizes, and what division by it gives back.
record IsScale (name : List ℕ) (m : ℕ) : Type 0 where
  spaced : IsSpaced name
  unit : size_unit (to_ascii_lowercase name) ≡ some m
  exact : (n : ℕ) → n % m ≡ 0 → n / m * m ≡ n
  less : (n : ℕ) → n / m ≤ n

parse_size-format_with :
    (units : List (List ℕ × ℕ)) (n : ℕ)
    → IsU64 n
    → IsScale (codes "B") 1
    → All (λ u. IsScale u.0 u.1) units
    → parse_size (format_with units n) ≡ ok n
unfolding format_with
parse_size-format_with [] n fits b h =
    parse_size-spaced n (codes "B") fits b.spaced 1 b.unit (omega (arith, fits))
    ∙ ap ok (omega arith)
parse_size-format_with ((name, m) ∷ rest) n fits b (u, h) =
    elim (Bool-cases (leb m n && n % m == 0)) [
      | inl divides ↦ rw divides (whole (u.exact n (ground (arith, divides))))
      | inr other ↦ rw other (parse_size-format_with rest n fits b h)
    ]
  where
    whole : n / m * m ≡ n → parse_size (print_u64 (n / m) ++ 32 ∷ name) ≡ ok n
    whole same =
        parse_size-spaced (n / m) name (omega (arith, u.less n, fits)) u.spaced m u.unit
          (subst IsU64 (sym same) fits)
        ∙ ap ok same

byte-IsScale : IsScale (codes "B") 1
unfolding trim_end span_digits size_unit to_ascii_lowercase text_eq is_ascii_digit
byte-IsScale = record {
  spaced = record { graphic = (omega arith, omega arith); kept = refl; apart = refl };
  unit = refl;
  exact = λ n h. omega (arith, h);
  less = λ n. omega arith;
}

kib-IsScale : IsScale (codes "KiB") 1024
unfolding trim_end span_digits size_unit to_ascii_lowercase text_eq is_ascii_digit
kib-IsScale = record {
  spaced = record {
    graphic = (omega arith, (omega arith, (omega arith, omega arith)));
    kept = refl;
    apart = refl;
  };
  unit = refl;
  exact = λ n h. omega (arith, h);
  less = λ n. omega arith;
}

mib-IsScale : IsScale (codes "MiB") 1048576
unfolding trim_end span_digits size_unit to_ascii_lowercase text_eq is_ascii_digit
mib-IsScale = record {
  spaced = record {
    graphic = (omega arith, (omega arith, (omega arith, omega arith)));
    kept = refl;
    apart = refl;
  };
  unit = refl;
  exact = λ n h. omega (arith, h);
  less = λ n. omega arith;
}

gib-IsScale : IsScale (codes "GiB") 1073741824
unfolding trim_end span_digits size_unit to_ascii_lowercase text_eq is_ascii_digit
gib-IsScale = record {
  spaced = record {
    graphic = (omega arith, (omega arith, (omega arith, omega arith)));
    kept = refl;
    apart = refl;
  };
  unit = refl;
  exact = λ n h. omega (arith, h);
  less = λ n. omega arith;
}

tib-IsScale : IsScale (codes "TiB") 1099511627776
unfolding trim_end span_digits size_unit to_ascii_lowercase text_eq is_ascii_digit
tib-IsScale = record {
  spaced = record {
    graphic = (omega arith, (omega arith, (omega arith, omega arith)));
    kept = refl;
    apart = refl;
  };
  unit = refl;
  exact = λ n h. omega (arith, h);
  less = λ n. omega arith;
}

-- A size that fits u64, written by `format_size`, is read by `parse_size` as it was.
pub parse_size-format_size : (n : ℕ) → IsU64 n → parse_size (format_size n) ≡ ok n
unfolding format_size
parse_size-format_size n fits =
    parse_size-format_with format_units n fits byte-IsScale
      (tib-IsScale, (gib-IsScale, (mib-IsScale, (kib-IsScale, tt))))
