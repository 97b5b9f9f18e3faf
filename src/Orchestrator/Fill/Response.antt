-- ===== src/Orchestrator/Fill/Response.antt =====
-- A response assembled from what a fill stored is the range of the body that was asked for. The body stream
-- of crates/cachic/src/proxy/server.rs awaits the planned slices in order and takes a window of each.
use cachic.Common.{
  ℕ, zero, suc, ◌+◌, ◌-◌, ◌*◌, ◌^◌, ◌≤◌, ◌<◌, min, ◌≡◌, refl, sym, ap, ◌∙◌, true, false, Option,
  none, some, List, [], ◌∷◌, ◌++◌, ◌==◌, if◌then◌else◌, Result, ok, err, ◌>>=◌, length, take, drop,
  map, arith, length-drop, length-take, take_all, take-take, drop-drop,
}
use cachic.Common.Words.{IsU32, u64_max}
use cachic.Proxy.Range
use cachic.Proxy.Range.{ByteRange, plan, indices, up_from, max_addressable_len, slice_extent}
use cachic.Proxy.Range.Plan.{plan_exact, plan_ordered, slice_extent-end, payload_window_eq}
use cachic.Proxy.Range.Tiling.{bytes_of, windowed, payload_of, assemble, assemble-plan}
use cachic.Orchestrator.Fill.{Event, insert, publish, run_fill, payload_window, WindowError}
use cachic.Orchestrator.Fill.Sliced.{
  slice_events, slice_events_step, IsCount, bytes_in, run_fill-slices,
}

-- The payload that the events stored for a slice.
unfoldable pub stored : ℕ → List Event → Option (List ℕ)
stored i [] = none
stored i (insert j payload ∷ rest) = if i == j then some payload else stored i rest
stored i (publish n ∷ rest) = stored i rest

pub data ResponseError : Type 0 where
  not_stored : ℕ → ResponseError
  window : WindowError → ResponseError

-- One slice of the response.
unfoldable pub part : ℕ → ByteRange → ℕ → Option (List ℕ) → Result (List ℕ) ResponseError
part s wanted i none = err (not_stored i)
part s wanted i (some payload) = elim (payload_window payload (Range.payload_window i s wanted)) [
  | ok b ↦ ok b
  | err e ↦ err (window e)
]

-- The body of the response over the given slices, in order.
unfoldable pub respond : ℕ → ByteRange → List Event → List ℕ → Result (List ℕ) ResponseError
respond s wanted events [] = ok []
respond s wanted events (i ∷ is) =
    part s wanted i (stored i events) >>= λ b. respond s wanted events is >>= λ rest. ok (b ++ rest)

stored_step :
    (i j m : ℕ) (p : List ℕ) (rest : List Event)
    → stored i (insert j p ∷ publish m ∷ rest) ≡ (if i == j then some p else stored i rest)
unfolding stored
stored_step i j m p rest = refl

stored-slice_events :
    (n s k j : ℕ) (body : List ℕ)
    → IsCount s (length body) n
    → j < n
    → stored (k + j) (slice_events n s k body) ≡ some (take s (drop (j * s) body))
stored-slice_events zero s k j body c lt = absurd (omega arith)
stored-slice_events (suc n) s k zero body c lt =
    ap (stored (k + 0)) (slice_events_step n s k body (omega (arith, c.needed)))
    ∙ stored_step (k + 0) k (k + 1) (take s body) (slice_events n s (k + 1) (drop s body))
    ∙ ap
        (λ b.
          if b then some (take s body) else stored (k + 0) (slice_events n s (k + 1) (drop s body)))
        same
    ∙ ap (λ m. some (take s (drop m body))) none_dropped
  where
    same : (k + 0 == k) ≡ true
    same = ground arith

    none_dropped : 0 ≡ 0 * s
    none_dropped = omega arith
stored-slice_events (suc n) s k (suc j) body c lt =
    ap (stored (k + suc j)) (slice_events_step n s k body (omega (arith, c.needed)))
    ∙ stored_step (k + suc j) k (k + 1) (take s body) (slice_events n s (k + 1) (drop s body))
    ∙ ap
        (λ b.
          if b
          then some (take s body)
          else stored (k + suc j) (slice_events n s (k + 1) (drop s body)))
        other
    ∙ ap (λ i. stored i (slice_events n s (k + 1) (drop s body))) moved
    ∙ stored-slice_events n s (k + 1) j (drop s body)
        (record {
          enough = omega (arith, c.enough, length-drop s body);
          needed = omega (arith, c.needed, length-drop s body);
        })
        (omega arith)
    ∙ ap (λ l. some (take s l)) (drop-drop (j * s) s body ∙ ap (λ m. drop m body) further)
  where
    other : (k + suc j == k) ≡ false
    other = ground arith

    moved : k + suc j ≡ k + 1 + j
    moved = omega arith

    further : s + j * s ≡ suc j * s
    further = omega arith

-- The slice of a body is what its extent cuts out.
take-payload_of :
    (i s : ℕ) (body : List ℕ)
    → IsU32 i
    → 0 < s
    → IsU32 s
    → i * s < length body
    → take s (drop (i * s) body) ≡ payload_of i s body
take-payload_of i s body iu s_pos su inside =
    ap (take s) (
      sym (
        take_all (length body - i * s) (drop (i * s) body)
          (omega (arith, length-drop (i * s) body))))
    ∙ take-take s (length body - i * s) (drop (i * s) body)
    ∙ unfold slice_extent in ap (λ k. take k (drop (i * s) body)) size
  where
    size : min s (length body - i * s) ≡ (slice_extent i s (length body)).end + 1 - i * s
    size = omega (arith, slice_extent-end i s (length body) iu s_pos su)

payload_window_ok :
    (payload : List ℕ) (lo hi : ℕ)
    → lo ≤ hi
    → hi ≤ length payload
    → payload_window payload (lo, hi) ≡ ok (windowed (lo, hi) payload)
unfolding payload_window
payload_window_ok payload lo hi a b = ground arith

module _ (s n : ℕ) (wanted : ByteRange) (body : List ℕ) (s_pos : 0 < s) (s_u32 : IsU32 s)
    (fits : n < 2 ^ 32) (c : IsCount s (length body) n) (inside : wanted.end < length body)
    (u64 : length body ≤ u64_max) where
  part-stored :
      (i : ℕ)
      → i < n
      → wanted.start < (i + 1) * s
      → i * s ≤ wanted.end
      → wanted.start ≤ wanted.end
      → part s wanted i (stored i (slice_events n s 0 body))
        ≡ ok (windowed (Range.payload_window i s wanted) (payload_of i s body))
  part-stored i lt a b w =
      ap (part s wanted i) found
      ∙ unfold part in
        ap part_of (
          ap (payload_window (payload_of i s body)) eq
          ∙ payload_window_ok (payload_of i s body) (wanted.start - i * s)
              (min (wanted.end + 1 - i * s) s) (omega arith) long)
        ∙ ap (λ p. ok (windowed p (payload_of i s body))) (sym eq)
    where
      part_of : Result (List ℕ) WindowError → Result (List ℕ) ResponseError
      part_of r = elim r [ ok b ↦ ok b | err e ↦ err (window e) ]

      eq : Range.payload_window i s wanted ≡ (wanted.start - i * s, min (wanted.end + 1 - i * s) s)
      eq = payload_window_eq i s wanted b (omega arith)

      cut_out : take s (drop (i * s) body) ≡ payload_of i s body
      cut_out = take-payload_of i s body (omega arith) s_pos s_u32 (omega arith)

      found : stored i (slice_events n s 0 body) ≡ some (payload_of i s body)
      found =
          ap (λ k. stored k (slice_events n s 0 body)) (omega arith)
          ∙ stored-slice_events n s 0 i body c lt
          ∙ ap some cut_out

      long : min (wanted.end + 1 - i * s) s ≤ length (payload_of i s body)
      long =
          rw (← cut_out)
            (omega (arith, length-take s (drop (i * s) body), length-drop (i * s) body))

  respond-assemble :
      (m k : ℕ)
      → k + m ≤ n
      → wanted.start < (k + 1) * s
      → (k + m) * s ≤ wanted.end + s
      → wanted.start ≤ wanted.end
      → respond s wanted (slice_events n s 0 body) (up_from k m)
        ≡ ok (assemble s wanted (up_from k m) body)
  unfolding respond assemble up_from
  respond-assemble zero k le a b w = refl
  respond-assemble (suc m) k le a b w =
      ap
        (λ (r : Result (List ℕ) ResponseError). r >>= λ x.
          respond s wanted (slice_events n s 0 body) (up_from (k + 1) m) >>= λ rest. ok (x ++ rest))
        (part-stored k (omega arith) a (omega arith) w)
      ∙ ap
          (λ (r : Result (List ℕ) ResponseError). r >>= λ rest.
            ok (windowed (Range.payload_window k s wanted) (payload_of k s body) ++ rest))
          (respond-assemble m (k + 1) (omega arith) (omega arith) (omega arith) w)

-- Take a positive u32 slice size that can address the body, whose length fits u64, and a range inside the
-- body. When an origin that ignores ranges has sent the whole body, in any chunks, the response that is
-- assembled from the slices that `run_fill` stored is exactly the bytes of the range.
pub respond-run_fill {ℓ} :
    (E : Type ℓ) (s n : ℕ) (wanted : ByteRange) (chunks : List (List ℕ))
    → 0 < s
    → IsU32 s
    → n < 2 ^ 32
    → IsCount s (length (bytes_in chunks)) n
    → length (bytes_in chunks) ≤ u64_max
    → wanted.start ≤ wanted.end
    → wanted.end < length (bytes_in chunks)
    → respond s wanted (run_fill {E = E} s (map ok chunks)).0 (indices (plan wanted s))
      ≡ ok (bytes_of wanted (bytes_in chunks))
respond-run_fill E s n wanted chunks s_pos su fits c u64 w inside =
    ap (λ (r : List Event × Result ℕ E). respond s wanted r.0 (indices (plan wanted s)))
      (run_fill-slices E s n chunks s_pos c fits)
    ∙ unfold indices in
      respond-assemble s n wanted (bytes_in chunks) s_pos su fits c inside u64
        ((plan wanted s).last + 1 - (plan wanted s).first) (plan wanted s).first
        (omega (arith, span, few)) (exact.1) (omega (arith, ap (λ (t : ℕ). t * s) span, exact.2)) w
      ∙ ap ok (assemble-plan s wanted (bytes_in chunks) s_pos su inside u64 w addressable)
  where
    addressable : length (bytes_in chunks) ≤ max_addressable_len s
    addressable = unfold max_addressable_len in grind (arith, c.enough)

    exact :
        ((plan wanted s).first * s ≤ wanted.start)
        × (wanted.start < ((plan wanted s).first + 1) * s)
        × ((plan wanted s).last * s ≤ wanted.end)
        × (wanted.end < ((plan wanted s).last + 1) * s)
    exact = plan_exact wanted s s_pos w (omega (arith, addressable))

    ordered : (plan wanted s).first ≤ (plan wanted s).last
    ordered = (plan_ordered wanted s).0

    span :
        (plan wanted s).first + ((plan wanted s).last + 1 - (plan wanted s).first)
        ≡ (plan wanted s).last + 1
    span = omega (arith, ordered)

    few : (plan wanted s).last < n
    few = grind (arith, exact.2, c.enough)
