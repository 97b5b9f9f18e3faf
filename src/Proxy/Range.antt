-- ===== src/Proxy/Range.antt =====
-- crates/cachic/src/proxy/range.rs: range parsing and slice-plan arithmetic. A u64 wraps around
-- where the source subtracts, as it does in a release build.
pub mod Parse
pub mod Resolve
pub mod Plan
pub mod Tiling
pub mod Examples
use cachic.Common.{
  ℕ, zero, suc, ◌+◌, ◌-◌, ◌*◌, ◌/◌, ◌%◌, ◌^◌, min, max, Bool, true, false, Option, none, some, List,
  [], ◌∷◌, ltb, ◌==◌, if◌then◌else◌, Result, ok, err, ◌>>=◌, ok_or,
}
use cachic.Common.Words.{u32_max}
use cachic.Common.Text.{codes, trim, strip_prefix, contains, split_once}
use cachic.Common.Decimal.{parse_u64}

pub data RangeSpec : Type 0 where
  from_to : ℕ → ℕ → RangeSpec
  from : ℕ → RangeSpec
  suffix : ℕ → RangeSpec

-- Inclusive at both ends.
pub record ByteRange : Type 0 where
  pub start : ℕ
  pub end : ℕ

unfoldable pub len : ByteRange → ℕ
len r = (r.end + 2 ^ 64 - r.start + 1) % 2 ^ 64

pub data RangeError : Type 0 where
  malformed multiple unsatisfiable : RangeError

-- `str.parse().map_err(|_| RangeError::Malformed)`.
abbrev number : List ℕ → Result ℕ RangeError
number s = ok_or (parse_u64 s) malformed

-- The four arms of the match on the trimmed ends.
unfoldable pub parse_ends : List ℕ → List ℕ → Result RangeSpec RangeError
parse_ends [] [] = err malformed
parse_ends [] (c ∷ e) = number (c ∷ e) >>= λ n. ok (suffix n)
parse_ends (c ∷ s) [] = number (c ∷ s) >>= λ n. ok (from n)
parse_ends (c ∷ s) (d ∷ e) = number (c ∷ s) >>= λ a.
    number (d ∷ e) >>= λ b. if ltb b a then err malformed else ok (from_to a b)

-- What follows `bytes=`.
unfoldable pub parse_spec : List ℕ → Result RangeSpec RangeError
unfolding parse_ends
parse_spec spec =
    if contains 44 spec
    then err multiple
    else ok_or (split_once 45 spec) malformed >>= λ p. parse_ends (trim p.0) (trim p.1)

unfoldable pub parse_range : List ℕ → Result RangeSpec RangeError
unfolding parse_spec
parse_range value = ok_or (strip_prefix (codes "bytes=") (trim value)) malformed >>= parse_spec

unfoldable pub resolve : RangeSpec → ℕ → Result ByteRange RangeError
resolve (from_to a b) total =
    if total == 0
    then err unsatisfiable
    else if ltb (total - 1) a
    then err unsatisfiable
    else ok (record { start = a; end = min b (total - 1) })
resolve (from a) total =
    if total == 0
    then err unsatisfiable
    else if ltb (total - 1) a
    then err unsatisfiable
    else ok (record { start = a; end = total - 1 })
resolve (suffix n) total =
    if total == 0
    then err unsatisfiable
    else if n == 0
    then err unsatisfiable
    else ok (record { start = total - min n total; end = total - 1 })

unfoldable pub whole : ℕ → Option ByteRange
whole total = if ltb 0 total then some (record { start = 0; end = total - 1 }) else none

-- Inclusive at both ends.
pub record SlicePlan : Type 0 where
  pub first : ℕ
  pub last : ℕ
  pub slice_size : ℕ

unfoldable pub count : SlicePlan → ℕ
count p = (p.last + 2 ^ 32 - p.first + 1) % 2 ^ 32

-- `n` numbers from `i` on.
unfoldable pub up_from : ℕ → ℕ → List ℕ
up_from i zero = []
up_from i (suc n) = i ∷ up_from (i + 1) n

-- `first..=last`.
unfoldable pub indices : SlicePlan → List ℕ
unfolding up_from
indices p = up_from p.first (p.last + 1 - p.first)

unfoldable pub max_addressable_len : ℕ → ℕ
max_addressable_len slice_size = (u32_max + 1) * slice_size

-- The index of the slice that holds a byte, saturated at u32::MAX.
unfoldable pub to_index : ℕ → ℕ → ℕ
to_index s byte = min (byte / s) u32_max

unfoldable pub plan : ByteRange → ℕ → SlicePlan
unfolding to_index
plan range slice_size =
    let s = max slice_size 1 in
    let first = to_index s range.start in
    record { first = first; last = max (to_index s range.end) first; slice_size = slice_size }

unfoldable pub slice_extent : ℕ → ℕ → ℕ → ByteRange
slice_extent index slice_size total =
    let start = index * slice_size in
    record { start = start; end = min ((start + slice_size + 2 ^ 64 - 1) % 2 ^ 64) (total - 1) }

unfoldable pub payload_window : ℕ → ℕ → ByteRange → ℕ × ℕ
payload_window index slice_size wanted =
    let slice_start = index * slice_size in
    (wanted.start - slice_start, min ((wanted.end + 2 ^ 64 - slice_start + 1) % 2 ^ 64) slice_size)
