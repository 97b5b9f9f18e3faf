-- ===== src/Proxy/Range/Parse.antt =====
-- `parse_range`: what it accepts, and that every range that a client can print is read back.
use cachic.Common.{
  ℕ, ◌<◌, ◌≡◌, ◌≢◌, refl, sym, ap, ap₂, ◌∙◌, List, [], ◌∷◌, ◌++◌, All, All-append, ok, err, ok_or,
  ◌>>=◌, >>=-eq-ok, arith, true, false, ltb, if◌then◌else◌, Bool-cases, some, inl, inr,
}
use cachic.Common.Words.{IsU64}
use cachic.Common.Text.{codes, trim, strip_prefix, contains, split_once}
use cachic.Common.Text.Laws.{
  IsGraphic, trim_graphic, strip_prefix-append, contains-append, split_once-append,
}
use cachic.Common.Decimal.{parse_u64, print_u64}
use cachic.Common.Decimal.Laws.{IsDigit, print_u64-IsDigit, print_u64-ne-nil, parse_u64-print_u64}
use cachic.Proxy.Range.{
  RangeSpec, from_to, from, suffix, malformed, multiple, parse_range, parse_spec, parse_ends,
}
use cachic.Proxy.Range.Resolve.{IsOrdered}

-- The header value that a client writes for a specification.
abbrev pub print_spec : RangeSpec → List ℕ
print_spec (from_to a b) = codes "bytes=" ++ (print_u64 a ++ 45 ∷ print_u64 b)
print_spec (from a) = codes "bytes=" ++ (print_u64 a ++ 45 ∷ [])
print_spec (suffix n) = codes "bytes=" ++ ([] ++ 45 ∷ print_u64 n)

abbrev pub InU64 : RangeSpec → Type 0
InU64 (from_to a b) = IsU64 a × IsU64 b
InU64 (from a) = IsU64 a
InU64 (suffix n) = IsU64 n

parse_ends-IsOrdered : (l r : List ℕ) (spec : RangeSpec) → parse_ends l r ≡ ok spec → IsOrdered spec
unfolding parse_ends
parse_ends-IsOrdered l r (from a) h = tt
parse_ends-IsOrdered l r (suffix n) h = tt
parse_ends-IsOrdered [] [] (from_to a b) h = cc
parse_ends-IsOrdered [] (d ∷ r) (from_to a b) h = ground arith
parse_ends-IsOrdered (c ∷ l) [] (from_to a b) h = ground arith
parse_ends-IsOrdered (c ∷ l) (d ∷ r) (from_to a b) h = ground arith

parse_spec_many : (s : List ℕ) → contains 44 s ≡ true → parse_spec s ≡ err multiple
unfolding parse_spec
parse_spec_many s h = rw h

parse_spec_one :
    (s : List ℕ)
    → contains 44 s ≡ false
    → parse_spec s ≡ (ok_or (split_once 45 s) malformed >>= λ p. parse_ends (trim p.0) (trim p.1))
unfolding parse_spec
parse_spec_one s h = rw h

parse_spec-IsOrdered : (s : List ℕ) (spec : RangeSpec) → parse_spec s ≡ ok spec → IsOrdered spec
unfolding parse_spec
parse_spec-IsOrdered s spec h = elim (Bool-cases (contains 44 s)) [
  | inl many ↦ cc (sym h, parse_spec_many s many)
  | inr one ↦
      let (p, _, e) =
        >>=-eq-ok (ok_or (split_once 45 s) malformed) _ (sym (parse_spec_one s one) ∙ h) in
      parse_ends-IsOrdered (trim p.0) (trim p.1) spec e
]

-- If `parse_range` returns a specification, its ends are in order.
pub parse_range-IsOrdered :
    (value : List ℕ) {spec : RangeSpec} → parse_range value ≡ ok spec → IsOrdered spec
unfolding parse_range
parse_range-IsOrdered value {spec} h =
    let (s, _, e) =
      >>=-eq-ok (ok_or (strip_prefix (codes "bytes=") (trim value)) malformed) parse_spec h in
    parse_spec-IsOrdered s spec e

digit-IsGraphic : (s : List ℕ) → All IsDigit s → All IsGraphic s
digit-IsGraphic [] h = tt
digit-IsGraphic (c ∷ s) h = ((omega (arith, h.0), omega (arith, h.0)), digit-IsGraphic s h.1)

digit_no : (c : ℕ) (s : List ℕ) → c < 48 → All IsDigit s → contains c s ≡ false
unfolding contains
digit_no c [] lt h = refl
digit_no c (d ∷ s) lt h = ground (arith, digit_no c s lt h.1, h.0)

-- Two lists of digits round a dash are split at it.
parse_spec-digits :
    (l r : List ℕ) → All IsDigit l → All IsDigit r → parse_spec (l ++ 45 ∷ r) ≡ parse_ends l r
parse_spec-digits l r hl hr =
    parse_spec_one (l ++ 45 ∷ r) no_comma
    ∙ rw (split_once-append 45 l r (digit_no 45 l (omega arith) hl)) (
        ap₂ parse_ends (trim_graphic l (digit-IsGraphic l hl))
          (trim_graphic r (digit-IsGraphic r hr)))
  where
    no_comma : contains 44 (l ++ 45 ∷ r) ≡ false
    no_comma =
        contains-append 44 l (45 ∷ r)
        ∙ rw (digit_no 44 l (omega arith) hl) (unfold contains in digit_no 44 r (omega arith) hr)

parse_range-digits :
    (l r : List ℕ)
    → All IsDigit l
    → All IsDigit r
    → parse_range (codes "bytes=" ++ (l ++ 45 ∷ r)) ≡ parse_ends l r
parse_range-digits l r hl hr =
    unfold parse_range in
    rw (trim_graphic (codes "bytes=" ++ (l ++ 45 ∷ r)) graphic) (
      ap (λ o. ok_or o malformed >>= parse_spec)
        (strip_prefix-append (codes "bytes=") (l ++ 45 ∷ r))
      ∙ parse_spec-digits l r hl hr)
  where
    tail : All IsGraphic (l ++ 45 ∷ r)
    tail =
        All-append IsGraphic l (45 ∷ r) (digit-IsGraphic l hl)
          ((omega arith, omega arith), digit-IsGraphic r hr)

    graphic : All IsGraphic (codes "bytes=" ++ (l ++ 45 ∷ r))
    graphic = All-append IsGraphic (codes "bytes=") (l ++ 45 ∷ r) (omega arith) tail

parse_ends-print_lem :
    (a b : ℕ)
    → IsU64 a
    → IsU64 b
    → (parse_ends (print_u64 a) (print_u64 b)
        ≡ (if ltb b a then err malformed else ok (from_to a b)))
      × (parse_ends (print_u64 a) [] ≡ ok (from a))
      × (parse_ends [] (print_u64 b) ≡ ok (suffix b))
parse_ends-print_lem a b ha hb =
    go (print_u64 a) (print_u64 b) (print_u64-ne-nil a) (print_u64-ne-nil b)
      (parse_u64-print_u64 a ha) (parse_u64-print_u64 b hb)
  where
    go :
        (l r : List ℕ)
        → l ≢ []
        → r ≢ []
        → parse_u64 l ≡ some a
        → parse_u64 r ≡ some b
        → (parse_ends l r ≡ (if ltb b a then err malformed else ok (from_to a b)))
          × (parse_ends l [] ≡ ok (from a))
          × (parse_ends [] r ≡ ok (suffix b))
    go [] r nl nr el er = absurd (nl refl)
    go (c ∷ l) [] nl nr el er = absurd (nr refl)
    go (c ∷ l) (d ∷ r) nl nr el er = unfold parse_ends in (rw (el, er), rw el, rw er)

-- A specification with ends in order and numbers below 2 ^ 64, written as a client writes it, is what
-- `parse_range` returns.
pub parse_range-print_spec :
    (spec : RangeSpec) → IsOrdered spec → InU64 spec → parse_range (print_spec spec) ≡ ok spec
parse_range-print_spec (from_to a b) w h =
    parse_range-digits (print_u64 a) (print_u64 b) (print_u64-IsDigit a) (print_u64-IsDigit b)
    ∙ (parse_ends-print_lem a b h.0 h.1).0
    ∙ ground arith
parse_range-print_spec (from a) w h =
    parse_range-digits (print_u64 a) [] (print_u64-IsDigit a) tt ∙ (parse_ends-print_lem a a h h).1
parse_range-print_spec (suffix n) w h =
    parse_range-digits [] (print_u64 n) tt (print_u64-IsDigit n) ∙ (parse_ends-print_lem n n h h).2
