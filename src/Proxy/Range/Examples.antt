-- ===== src/Proxy/Range/Examples.antt =====
-- The theorems on ranges at concrete requests.
use cachic.Common.{ℕ, ◌≤◌, ◌<◌, ◌≡◌, refl, ◌↔◌, List, [], ◌∷◌, ok, arith}
use cachic.Proxy.Range.{
  from_to, from, ByteRange, SlicePlan, parse_range, resolve, plan, indices, max_addressable_len,
}
use cachic.Proxy.Range.Tiling.{assemble, bytes_of, assemble-plan}
use cachic.Proxy.Range.Resolve.{In, resolve-exact}
use cachic.Proxy.Range.Parse.{print_spec, parse_range-print_spec}

abbrev ten_bytes : List ℕ
ten_bytes = 10 ∷ 11 ∷ 12 ∷ 13 ∷ 14 ∷ 15 ∷ 16 ∷ 17 ∷ 18 ∷ 19 ∷ []

abbrev two_to_eight : ByteRange
two_to_eight = record { start = 2; end = 8 }

assemble-plan_example :
    assemble 4 two_to_eight (indices (plan two_to_eight 4)) ten_bytes
    ≡ bytes_of two_to_eight ten_bytes
assemble-plan_example =
    assemble-plan 4 two_to_eight ten_bytes (omega arith) (omega arith) (omega arith) (omega arith)
      (omega arith) (unfold max_addressable_len in omega arith)

resolve-exact_example :
    (5 ≤ 9) × (9 < 10) × (In 7 (record { start = 5; end = 9 }) ↔ (7 < 10 × 5 ≤ 7))
resolve-exact_example = resolve-exact (from 5) 10 7 tt (unfold resolve in refl)

parse_range-print_spec_example : parse_range (print_spec (from_to 5 12)) ≡ ok (from_to 5 12)
parse_range-print_spec_example =
    parse_range-print_spec (from_to 5 12) (omega arith) (omega arith, omega arith)

abbrev two_to_four : SlicePlan
two_to_four = record { first = 2; last = 4; slice_size = 4 }
