-- ===== src/Proxy/Range/Resolve.antt =====
-- `resolve` and `whole` against the bytes that a specification asks for.
use cachic.Common.{ℕ, ◌+◌, ◌≤◌, ◌<◌, ◌≡◌, ◌↔◌, Result, ok, err, ok_or, arith}
use cachic.Common.Words.{IsU64}
use cachic.Proxy.Range.{
  RangeSpec, from_to, from, suffix, ByteRange, RangeError, unsatisfiable, resolve, whole, len,
}

-- Whether a specification asks for byte `i` of an object of `total` bytes.
abbrev pub Asks : RangeSpec → ℕ → ℕ → Type 0
Asks (from_to a b) total i = (a ≤ i) × (i ≤ b)
Asks (from a) total i = a ≤ i
Asks (suffix n) total i = total ≤ i + n

-- `whole` as a result.
whole_or_refused : ℕ → Result ByteRange RangeError
unfolding whole
whole_or_refused total = ok_or (whole total) unsatisfiable

abbrev pub In : ℕ → ByteRange → Type 0
In i r = (r.start ≤ i) × (i ≤ r.end)

-- What `parse_range` ensures of a specification.
abbrev pub IsOrdered : RangeSpec → Type 0
IsOrdered (from_to a b) = a ≤ b
IsOrdered (from a) = Unit
IsOrdered (suffix n) = Unit

pub resolve_bounds :
    (spec : RangeSpec) (total : ℕ) {r : ByteRange}
    → IsOrdered spec
    → resolve spec total ≡ ok r
    → (r.start ≤ r.end) × (r.end < total)
unfolding resolve
resolve_bounds (from_to a b) total w h = (ground arith, ground arith)
resolve_bounds (from a) total w h = (ground arith, ground arith)
resolve_bounds (suffix n) total w h = (ground arith, ground arith)

-- If `resolve` returns a range for a specification whose ends are in order, then the range is not
-- empty and lies in the object, and a byte `i` is in the range exactly when it is a byte of the
-- object that the specification asks for.
pub resolve-exact :
    (spec : RangeSpec) (total i : ℕ) {r : ByteRange}
    → IsOrdered spec
    → resolve spec total ≡ ok r
    → (r.start ≤ r.end) × (r.end < total) × (In i r ↔ (i < total × Asks spec total i))
unfolding resolve
resolve-exact (from_to a b) total i w h =
    (ground arith, ground arith, (λ k. ground arith, λ k. ground arith))
resolve-exact (from a) total i w h =
    (ground arith, ground arith, (λ k. ground arith, λ k. ground arith))
resolve-exact (suffix n) total i w h =
    (ground arith, ground arith, (λ k. ground arith, λ k. ground arith))

-- If `resolve` refuses, then as unsatisfiable, and the specification asks for no byte `i` of the
-- object.
pub resolve-refuses :
    (spec : RangeSpec) (total i : ℕ) {e : RangeError}
    → resolve spec total ≡ err e
    → i < total
    → (e ≡ unsatisfiable) × ¬ (Asks spec total i)
unfolding resolve
resolve-refuses (from_to a b) total i h hi = (ground arith, λ k. ground arith)
resolve-refuses (from a) total i h hi = (ground arith, λ k. ground arith)
resolve-refuses (suffix n) total i h hi = (ground arith, λ k. ground arith)

-- The length of a resolved range does not wrap around.
pub len-resolve :
    (spec : RangeSpec) (total : ℕ) {r : ByteRange}
    → IsOrdered spec
    → IsU64 total
    → resolve spec total ≡ ok r
    → (len r + r.start ≡ r.end + 1) × (0 < len r) × (len r ≤ total)
unfolding len
len-resolve spec total w u h = omega (arith, resolve_bounds spec total w h)

-- The whole object is what `bytes=0-` asks for.
whole-eq-resolve : (total : ℕ) → resolve (from 0) total ≡ whole_or_refused total
unfolding resolve whole whole_or_refused
whole-eq-resolve total = ground arith
