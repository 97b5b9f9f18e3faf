-- ===== src/Proxy/Range/Tiling.antt =====
-- The windows of a plan's slices, laid end to end, are the bytes that the range asks for.
use cachic.Common.{
  ℕ, zero, suc, ◌+◌, ◌-◌, ◌*◌, ◌≤◌, ◌<◌, min, max, ◌≡◌, sym, ap, ap₂, ◌∙◌, arith, List, [], ◌∷◌,
  ◌++◌, append-nil, take, drop, length, take-add, drop-drop, drop-take, take-take,
}
use cachic.Common.Words.{IsU32, u64_max}
use cachic.Proxy.Range.{
  ByteRange, plan, indices, up_from, max_addressable_len, slice_extent, payload_window,
}
use cachic.Proxy.Range.Plan.{plan_exact, plan_ordered, slice_extent-end, payload_window_eq}

module _ {ℓ} {A : Type ℓ} where
  -- The bytes of an object from `a` on and before `b`.
  abbrev pub segment : ℕ → ℕ → List A → List A
  segment a b xs = take (b - a) (drop a xs)

  -- The bytes of an inclusive range.
  abbrev pub bytes_of : ByteRange → List A → List A
  bytes_of r xs = segment r.start (r.end + 1) xs

  -- What a slice's window gives of its payload: `payload.slice(from..to)`.
  abbrev pub windowed : ℕ × ℕ → List A → List A
  windowed (lo, hi) payload = segment lo hi payload

  -- The payload of a slice, as its extent cuts it out of the object.
  abbrev pub payload_of : ℕ → ℕ → List A → List A
  payload_of index slice_size xs = bytes_of (slice_extent index slice_size (length xs)) xs

  -- The body of the response: the windows of the given slices in order.
  unfoldable pub assemble : ℕ → ByteRange → List ℕ → List A → List A
  assemble s wanted [] xs = []
  assemble s wanted (i ∷ is) xs =
      windowed (payload_window i s wanted) (payload_of i s xs) ++ assemble s wanted is xs

  segment-append :
      (a b c : ℕ) (xs : List A) → a ≤ b → b ≤ c → segment a b xs ++ segment b c xs ≡ segment a c xs
  segment-append a b c xs h k =
      ap (λ l. take (b - a) (drop a xs) ++ take (c - b) l) (sym shifted)
      ∙ sym (take-add (b - a) (c - b) (drop a xs))
      ∙ ap (λ n. take n (drop a xs)) total
    where
      shifted : drop (b - a) (drop a xs) ≡ drop b xs
      shifted = drop-drop (b - a) a xs ∙ ap (λ n. drop n xs) (omega arith)

      total : (b - a) + (c - b) ≡ c - a
      total = omega arith

  segment-segment :
      (a b lo hi : ℕ) (xs : List A)
      → segment lo hi (segment a b xs) ≡ segment (a + lo) (min (a + hi) b) xs
  segment-segment a b lo hi xs =
      ap (take (hi - lo)) (drop-take lo (b - a) (drop a xs))
      ∙ take-take (hi - lo) (b - a - lo) (drop lo (drop a xs))
      ∙ ap₂ take (omega arith) (drop-drop lo a xs)

module _ {ℓ} {A : Type ℓ} (s : ℕ) (wanted : ByteRange) (xs : List A) (s_pos : 0 < s)
    (s_u32 : IsU32 s) (inside : wanted.end < length xs) (u64 : length xs ≤ u64_max) where
  -- One slice's window is the part of the range that lies in the slice.
  windowed-payload :
      (i : ℕ)
      → IsU32 i
      → i * s ≤ wanted.end
      → windowed (payload_window i s wanted) (payload_of i s xs)
        ≡ segment (max wanted.start (i * s)) (min (wanted.end + 1) ((i + 1) * s)) xs
  unfolding slice_extent
  windowed-payload i hi h = rw (payload_window_eq i s wanted h (omega arith)) (
      segment-segment (i * s) ((slice_extent i s (length xs)).end + 1) _ _ xs
      ∙ ap₂ (λ a b. segment a b xs) (omega arith)
          (omega (arith, slice_extent-end i s (length xs) hi s_pos s_u32)))

  assemble-up_from :
      (n i : ℕ)
      → wanted.start < (i + 1) * s
      → (i + n) * s ≤ wanted.end
      → IsU32 (i + n)
      → assemble s wanted (up_from i (suc n)) xs
        ≡ segment (max wanted.start (i * s)) (min (wanted.end + 1) ((i + n + 1) * s)) xs
  unfolding assemble up_from
  assemble-up_from zero i a b c =
      append-nil _
      ∙ windowed-payload i (omega arith) (omega arith)
      ∙ ap (λ e. segment (max wanted.start (i * s)) (min (wanted.end + 1) (e * s)) xs) (omega arith)
  assemble-up_from (suc n) i a b c =
      ap₂ ◌++◌ (windowed-payload i (omega arith) (omega arith))
        (assemble-up_from n (i + 1) (omega arith) next (omega arith))
      ∙ ap₂
          (λ p q.
            segment (max wanted.start (i * s)) p xs
            ++ segment q (min (wanted.end + 1) ((i + 1 + n + 1) * s)) xs)
          full (omega arith)
      ∙ segment-append (max wanted.start (i * s)) ((i + 1) * s) _ xs (omega arith) (omega arith)
      ∙ ap (λ e. segment (max wanted.start (i * s)) (min (wanted.end + 1) (e * s)) xs) (omega arith)
    where
      next : (i + 1 + n) * s ≤ wanted.end
      next = omega arith

      full : min (wanted.end + 1) ((i + 1) * s) ≡ (i + 1) * s
      full = grind arith

  -- Take a positive u32 slice size and a non-empty range inside an object whose length fits u64 and
  -- that the slice size can address. Then the windows of the planned slices, applied to the payloads
  -- that the slice extents cut out of the object and joined in order, are exactly the bytes of the
  -- range.
  pub assemble-plan :
      wanted.start ≤ wanted.end
      → length xs ≤ max_addressable_len s
      → assemble s wanted (indices (plan wanted s)) xs ≡ bytes_of wanted xs
  unfolding indices
  assemble-plan h m =
      ap (λ k. assemble s wanted (up_from (plan wanted s).first k) xs) steps
      ∙ assemble-up_from n (plan wanted s).first (exact.1)
          (omega (arith, ap (λ (t : ℕ). t * s) same, exact.2))
          (omega (arith, same, (plan_ordered wanted s).1))
      ∙ ap₂ (λ a b. segment a b xs) (omega (arith, exact.0))
          (omega (arith, ap (λ (t : ℕ). t * s) same, exact.3))
    where
      exact :
          ((plan wanted s).first * s ≤ wanted.start)
          × (wanted.start < ((plan wanted s).first + 1) * s)
          × ((plan wanted s).last * s ≤ wanted.end)
          × (wanted.end < ((plan wanted s).last + 1) * s)
      exact = plan_exact wanted s s_pos h (omega arith)

      n : ℕ
      n = (plan wanted s).last - (plan wanted s).first

      same :
          (plan wanted s).first + ((plan wanted s).last - (plan wanted s).first)
          ≡ (plan wanted s).last
      same = omega (arith, (plan_ordered wanted s).0)

      steps : (plan wanted s).last + 1 - (plan wanted s).first ≡ suc n
      steps = omega (arith, (plan_ordered wanted s).0)
