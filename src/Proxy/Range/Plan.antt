-- ===== src/Proxy/Range/Plan.antt =====
-- Plans are well formed, and hold the slices that meet the range.
use cachic.Common.{
  ℕ, zero, suc, ◌+◌, ◌-◌, ◌*◌, ◌/◌, ◌≤◌, ◌<◌, min, max, ◌≡◌, refl, ap, arith, length,
}
use cachic.Common.Words.{IsU32, u32_max, u64_max}
use cachic.Proxy.Range.{
  ByteRange, SlicePlan, plan, count, to_index, indices, up_from, max_addressable_len, slice_extent,
  payload_window,
}

-- Whatever the range and the slice size, a plan is not inverted and its indices are u32.
pub plan_ordered :
    (r : ByteRange) (s : ℕ) → ((plan r s).first ≤ (plan r s).last) × IsU32 (plan r s).last
unfolding plan
plan_ordered r s = omega arith

length-up_from : (i n : ℕ) → length (up_from i n) ≡ n
unfolding up_from
length-up_from i zero = refl
length-up_from i (suc n) = ap suc (length-up_from (i + 1) n)

-- `count` agrees with the number of indices, unless the plan spans all of u32.
pub count-indices :
    (p : SlicePlan) → p.first ≤ p.last → p.last < p.first + u32_max → count p ≡ length (indices p)
unfolding count indices
count-indices p h k = omega (arith, length-up_from p.first (p.last + 1 - p.first))

-- A plan from the first index to the last one has no count in u32: it wraps around to 0.
pub count_wraps : (s : ℕ) → count (record { first = 0; last = u32_max; slice_size = s }) ≡ 0
unfolding count
count_wraps s = refl

div-mul-le : (a s : ℕ) → a / s * s ≤ a
div-mul-le a zero = grind arith
div-mul-le a (suc s) = grind arith

lt-div-mul : (a s : ℕ) → 0 < s → a < (a / s + 1) * s
lt-div-mul a s h = grind arith

div-lt : (a b s : ℕ) → 0 < s → a < b * s → a / s < b
div-lt a b s h k = grind (arith, div-mul-le a s)

div_mono : (a b s : ℕ) → 0 < s → a ≤ b → a / s ≤ b / s
div_mono a b s h k = grind (arith, div-mul-le a s, lt-div-mul b s h)

to_index-div :
    (s byte : ℕ) → 0 < s → byte < max_addressable_len s → to_index (max s 1) byte ≡ byte / s
unfolding to_index max_addressable_len
to_index-div s byte h m = rw one (omega (arith, div-lt byte (u32_max + 1) s h m))
  where
    one : max s 1 ≡ s
    one = omega arith

module _ (r : ByteRange) (s : ℕ) (h : 0 < s) (k : r.start ≤ r.end)
    (m : r.end < max_addressable_len s) where
  plan-first : (plan r s).first ≡ r.start / s
  unfolding plan
  plan-first = to_index-div s r.start h (omega arith)

  plan-last : (plan r s).last ≡ r.end / s
  unfolding plan
  plan-last =
      rw (to_index-div s r.end h m, to_index-div s r.start h (omega arith))
        (omega (arith, div_mono r.start r.end s h k))

  -- If the slice size is positive and can address the range's end, the plan runs from the slice that
  -- holds the first byte to the slice that holds the last one.
  pub plan_exact :
      ((plan r s).first * s ≤ r.start)
      × (r.start < ((plan r s).first + 1) * s)
      × ((plan r s).last * s ≤ r.end)
      × (r.end < ((plan r s).last + 1) * s)
  plan_exact =
      rw (plan-first, plan-last)
        (div-mul-le r.start s, lt-div-mul r.start s h, div-mul-le r.end s, lt-div-mul r.end s h)

-- An extent in u32 arithmetic: no sum wraps around.
pub slice_extent-end :
    (i s total : ℕ)
    → IsU32 i
    → 0 < s
    → IsU32 s
    → (slice_extent i s total).end ≡ min (i * s + s - 1) (total - 1)
unfolding slice_extent
slice_extent-end i s total hi h hs = omega (arith, bound)
  where
    bound : i * s ≤ 4294967295 * 4294967295
    bound = grind arith

-- A window in u64 arithmetic, for a slice that begins before the range's end.
pub payload_window_eq :
    (i s : ℕ) (r : ByteRange)
    → i * s ≤ r.end
    → r.end < u64_max
    → payload_window i s r ≡ (r.start - i * s, min (r.end + 1 - i * s) s)
unfolding payload_window
payload_window_eq i s r h k = ap (λ t. (r.start - i * s, min t s)) (omega arith)
