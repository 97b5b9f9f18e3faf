-- ===== src/Orchestrator/Fill/Sliced.antt =====
-- However a body is cut into chunks, `run_fill` stores its slices, each once and in order.
use cachic.Common.{
  ℕ, zero, suc, ◌+◌, ◌*◌, ◌^◌, ◌≤◌, ◌<◌, ◌≡◌, refl, sym, ap, ap₂, ◌∙◌, false, Bool-cases, inl, inr,
  List, [], ◌∷◌, ◌++◌, append_assoc, append-nil, le→leb, leb→le, leb, Result, ok, length, take,
  drop, map, subst, arith, length-append, length-drop, take_all,
}
use cachic.Orchestrator.Fill.{Event, insert, publish, next, Cut, cut, finish, fill_chunks, run_fill}

-- The slices of a body in order, each stored and then announced. `n` bounds their number.
unfoldable pub slice_events : ℕ → ℕ → ℕ → List ℕ → List Event
slice_events zero s i body = []
slice_events (suc n) s i [] = []
slice_events (suc n) s i (c ∷ body) =
    insert i (take s (c ∷ body)) ∷ publish (i + 1) ∷ slice_events n s (i + 1) (drop s (c ∷ body))

take-append-le : (s : ℕ) (a b : List ℕ) → s ≤ length a → take s (a ++ b) ≡ take s a
take-append-le zero a b h = refl
take-append-le (suc s) [] b h = absurd (omega arith)
take-append-le (suc s) (c ∷ a) b h = ap (λ l. c ∷ l) (take-append-le s a b (omega arith))

drop-append-le : (s : ℕ) (a b : List ℕ) → s ≤ length a → drop s (a ++ b) ≡ drop s a ++ b
drop-append-le zero a b h = refl
drop-append-le (suc s) [] b h = absurd (omega arith)
drop-append-le (suc s) (c ∷ a) b h = drop-append-le s a b (omega arith)

-- One slice, where the body is not empty.
pub slice_events_step :
    (n s i : ℕ) (body : List ℕ)
    → 0 < length body
    → slice_events (suc n) s i body
      ≡ insert i (take s body) ∷ publish (i + 1) ∷ slice_events n s (i + 1) (drop s body)
unfolding slice_events
slice_events_step n s i [] h = absurd (omega arith)
slice_events_step n s i (c ∷ body) h = refl

cut_step :
    (rounds s : ℕ) (buffer : List ℕ) (i : ℕ)
    → s ≤ length buffer
    → cut (suc rounds) s buffer i ≡ record (cut rounds s (drop s buffer) (next i)) {
      events =
          insert i (take s buffer)
          ∷ publish (next i)
          ∷ (cut rounds s (drop s buffer) (next i)).events;
    }
unfolding cut
cut_step rounds s buffer i h = rw (le→leb s (length buffer) h)

cut_stop :
    (rounds s : ℕ) (buffer : List ℕ) (i : ℕ)
    → length buffer < s
    → cut rounds s buffer i ≡ record { events = []; buffer = buffer; index = i }
unfolding cut
cut_stop zero s buffer i h = refl
cut_stop (suc rounds) s buffer i h = let e : leb s (length buffer) ≡ false = ground arith in rw e

-- The bytes of chunks, one chunk after the other.
abbrev pub bytes_in : List (List ℕ) → List ℕ
bytes_in [] = []
bytes_in (c ∷ chunks) = c ++ bytes_in chunks

-- `n` slices of `s` bytes are just enough for `size` bytes.
pub record IsCount (s size n : ℕ) : Type 0 where
  pub enough : size ≤ n * s
  pub needed : n * s < size + s

module _ (s : ℕ) (s_pos : 0 < s) where
  -- What a cut leaves is less than a slice, and the events of the whole are those of the cut and those of
  -- what is left with the bytes that follow.
  abbrev Leaves : ℕ → ℕ → List ℕ → List ℕ → Cut → Type 0
  Leaves i n buffer rest c =
      (m : ℕ) × (length c.buffer < s)
      × (c.index + m ≡ i + n)
      × IsCount s (length (c.buffer ++ rest)) m
      × (slice_events n s i (buffer ++ rest)
          ≡ c.events ++ slice_events m s c.index (c.buffer ++ rest))

  cut-Leaves_step :
      (rounds n : ℕ) (buffer rest : List ℕ) (i : ℕ)
      → i + suc n < 2 ^ 32
      → s ≤ length buffer
      → Leaves (i + 1) n (drop s buffer) rest (cut rounds s (drop s buffer) (i + 1))
      → Leaves i (suc n) buffer rest (cut (suc rounds) s buffer i)
  cut-Leaves_step rounds n buffer rest i b full (m, p1, p2, p3, p4) =
      let bump : next i ≡ i + 1 = omega arith in
      rw (cut_step rounds s buffer i full, bump)
        (
          m,
          p1,
          omega (arith, p2),
          p3,
          slice_events_step n s i (buffer ++ rest) (omega (arith, length-append buffer rest))
              ∙ ap₂ (λ p q. insert i p ∷ publish (i + 1) ∷ slice_events n s (i + 1) q)
                  (take-append-le s buffer rest full) (drop-append-le s buffer rest full)
              ∙ ap (λ l. insert i (take s buffer) ∷ publish (i + 1) ∷ l) p4,
        )

  cut-Leaves_stop :
      (rounds n : ℕ) (buffer rest : List ℕ) (i : ℕ)
      → IsCount s (length (buffer ++ rest)) n
      → length buffer < s
      → Leaves i n buffer rest (cut rounds s buffer i)
  cut-Leaves_stop rounds n buffer rest i k less =
      rw (cut_stop rounds s buffer i less) (n, less, refl, k, refl)

  cut-Leaves :
      (rounds : ℕ) (buffer rest : List ℕ) (i n : ℕ)
      → length buffer ≤ rounds
      → IsCount s (length (buffer ++ rest)) n
      → i + n < 2 ^ 32
      → Leaves i n buffer rest (cut rounds s buffer i)
  cut-Leaves zero buffer rest i n h k b = cut-Leaves_stop zero n buffer rest i k (omega arith)
  cut-Leaves (suc rounds) buffer rest i zero h k b =
      cut-Leaves_stop (suc rounds) zero buffer rest i k
        (omega (arith, k.enough, length-append buffer rest))
  cut-Leaves (suc rounds) buffer rest i (suc n) h k b = elim (Bool-cases (leb s (length buffer))) [
    | inl full ↦
        let full' = leb→le s (length buffer) full in
        cut-Leaves_step rounds n buffer rest i b full' (
          cut-Leaves rounds (drop s buffer) rest (i + 1) n (omega (arith, length-drop s buffer))
            (omega (
              arith,
              k.enough,
              k.needed,
              length-append buffer rest,
              length-append (drop s buffer) rest,
              length-drop s buffer,
            ))
            (omega arith))
    | inr less ↦ cut-Leaves_stop (suc rounds) (suc n) buffer rest i k (ground arith)
  ]

  finish-slice_events :
      (n : ℕ) (buffer : List ℕ) (i : ℕ)
      → length buffer < s
      → IsCount s (length buffer) n
      → i + n < 2 ^ 32
      → finish buffer i ≡ (slice_events n s i buffer, i + n)
  finish-slice_events zero [] i h k b =
      unfold finish slice_events in ap (λ m. ([], m)) (omega arith)
  finish-slice_events (suc n) [] i h k b = absurd (omega (arith, k.needed))
  finish-slice_events zero (c ∷ buffer) i h k b = absurd (omega (arith, k.enough))
  finish-slice_events (suc (suc n)) (c ∷ buffer) i h k b = absurd (omega (arith, k.needed))
  finish-slice_events (suc zero) (c ∷ buffer) i h k b =
      unfold finish slice_events in
      ap₂ (λ p m. (insert i p ∷ publish m ∷ [], m)) (sym (take_all s (c ∷ buffer) (omega arith)))
        (omega arith)

  fill_chunks-slice_events {ℓ} :
      (E : Type ℓ) (chunks : List (List ℕ)) (buffer : List ℕ) (i n : ℕ)
      → length buffer < s
      → IsCount s (length (buffer ++ bytes_in chunks)) n
      → i + n < 2 ^ 32
      → fill_chunks {E = E} s (map ok chunks) buffer i
        ≡ (slice_events n s i (buffer ++ bytes_in chunks), ok (i + n))
  unfolding fill_chunks
  fill_chunks-slice_events E [] buffer i n h k b =
      ap (λ (f : List Event × ℕ). (f.0, ok f.1))
        (finish-slice_events n buffer i h
          (subst (λ l. IsCount s (length l) n) (append-nil buffer) k) b)
      ∙ ap (λ l. (slice_events n s i l, ok (i + n))) (sym (append-nil buffer))
  fill_chunks-slice_events E (chunk ∷ chunks) buffer i n h k b =
      let (m, p1, p2, p3, p4) =
        cut-Leaves (length (buffer ++ chunk)) (buffer ++ chunk) (bytes_in chunks) i n (omega arith)
          (subst (λ l. IsCount s (length l) n) (sym (append_assoc buffer chunk (bytes_in chunks)))
            k)
          b in
      ap
        (λ (r : List Event × Result ℕ E).
          ((cut (length (buffer ++ chunk)) s (buffer ++ chunk) i).events ++ r.0, r.1))
        (fill_chunks-slice_events E chunks _ _ m p1 p3 (omega (arith, p2)))
      ∙ ap₂ (λ l k. (l, ok k))
          (sym p4 ∙ ap (slice_events n s i) (append_assoc buffer chunk (bytes_in chunks))) p2

-- Take a positive slice size and a body that needs `n` slices, `n` below 2 ^ 32. However the body arrives
-- in chunks, `run_fill` stores exactly its `n` slices in order, from index 0 on, and announces each after it
-- is stored; it returns `n`.
pub run_fill-slices {ℓ} :
    (E : Type ℓ) (s n : ℕ) (chunks : List (List ℕ))
    → 0 < s
    → IsCount s (length (bytes_in chunks)) n
    → n < 2 ^ 32
    → run_fill {E = E} s (map ok chunks) ≡ (slice_events n s 0 (bytes_in chunks), ok n)
run_fill-slices E s n chunks s_pos k b =
    unfold run_fill in
    fill_chunks-slice_events s s_pos E chunks [] 0 n s_pos k (omega arith)
    ∙ ap (λ m. (slice_events n s 0 (bytes_in chunks), ok m)) (omega arith)
