-- ===== src/Services/Key/Path.antt =====
-- What `normalise_path` answers: a canonical path, which it leaves as it is.
use cachic.Common.{
  ℕ, ◌≡◌, refl, ap, ◌∙◌, Bool, true, false, List, [], ◌∷◌, ◌++◌, append_assoc, append-nil,
  if◌then◌else◌, All, arith,
}
use cachic.Common.Text.{contains, is_empty}
use cachic.Services.Key.{
  split, cons_first, step, resolve_segments, join, ends_with, normalise_decoded, normalise_path,
  percent_decode,
}
use cachic.Services.Key.Segments.{
  IsSegment, split-append, split-join, split-join_slash, step-nil, resolve_segments-IsSegment,
  resolve_segments-slash, resolve_segments-keeps, split-whole_pieces,
}

-- The root, or segments each behind a slash, with or without a slash at the end.
pub data IsCanonical : List ℕ → Type 0 where
  root : IsCanonical (47 ∷ [])
  segments :
      (x : List ℕ) (segs : List (List ℕ))
      → IsSegment x
      → All IsSegment segs
      → IsCanonical (join (x ∷ segs))
  slashed :
      (x : List ℕ) (segs : List (List ℕ))
      → IsSegment x
      → All IsSegment segs
      → IsCanonical (join (x ∷ segs) ++ 47 ∷ [])

ends_with-slash : (s : List ℕ) → ends_with 47 (s ++ 47 ∷ []) ≡ true
unfolding ends_with
ends_with-slash [] = refl
ends_with-slash (c ∷ []) = refl
ends_with-slash (c ∷ a ∷ s) = ends_with-slash (a ∷ s)

ends_with-whole : (s : List ℕ) → contains 47 s ≡ false → ends_with 47 s ≡ false
unfolding ends_with contains
ends_with-whole [] h = refl
ends_with-whole (c ∷ []) h = ground arith
ends_with-whole (c ∷ a ∷ s) h = ends_with-whole (a ∷ s) (ground arith)

ends_with-append :
    (a : List ℕ) (c : ℕ) (b : List ℕ) → ends_with 47 (a ++ c ∷ b) ≡ ends_with 47 (c ∷ b)
unfolding ends_with
ends_with-append [] c b = refl
ends_with-append (x ∷ []) c b = refl
ends_with-append (x ∷ y ∷ a) c b = ends_with-append (y ∷ a) c b

ends_with-segment : (c : ℕ) (x : List ℕ) → IsSegment x → ends_with 47 (c ∷ x) ≡ false
unfolding ends_with is_empty
ends_with-segment c [] h = absurd (ground (arith, h.named))
ends_with-segment c (a ∷ x) h = ends_with-whole (a ∷ x) h.whole

ends_with-join :
    (c : ℕ) (x : List ℕ) (segs : List (List ℕ))
    → IsSegment x
    → All IsSegment segs
    → ends_with 47 (c ∷ (x ++ join segs)) ≡ false
unfolding join
ends_with-join c x [] h hs = ap (λ l. ends_with 47 (c ∷ l)) (append-nil x) ∙ ends_with-segment c x h
ends_with-join c x (y ∷ segs) h (k, ks) =
    ends_with-append (c ∷ x) 47 (y ++ join segs) ∙ ends_with-join 47 y segs k ks

resolve_segments-root :
    (pieces : List (List ℕ)) → resolve_segments [] ([] ∷ pieces) ≡ resolve_segments [] pieces
unfolding resolve_segments
resolve_segments-root pieces = ap (λ l. resolve_segments l pieces) (step-nil [])

resolved :
    (rest : List ℕ) (pieces : List (List ℕ))
    → split 47 rest ≡ pieces
    → resolve_segments [] (split 47 (47 ∷ rest)) ≡ resolve_segments [] pieces
resolved rest pieces h =
    ap (resolve_segments []) (split-append [] rest (unfold contains in refl))
    ∙ resolve_segments-root (split 47 rest)
    ∙ ap (resolve_segments []) h

normalise_decoded-canonical : (q : List ℕ) → IsCanonical q → normalise_decoded q ≡ q
unfolding normalise_decoded join
normalise_decoded-canonical q root = unfold split cons_first resolve_segments step is_empty in refl
normalise_decoded-canonical q (segments x segs h hs) =
    rw
      (
        resolved (x ++ join segs) (x ∷ segs) (split-join x segs h.whole hs),
        resolve_segments-IsSegment [] (x ∷ segs) (h, hs),
        ends_with-join 47 x segs h hs,
      )
      (unfold is_empty in refl)
normalise_decoded-canonical q (slashed x segs h hs) =
    rw
      (
        resolved (x ++ join segs ++ 47 ∷ []) (x ∷ (segs ++ [] ∷ [])) (pieces x segs h hs),
        resolve_segments-slash [] (x ∷ segs) (h, hs),
        ends_with-slash (47 ∷ (x ++ join segs)),
      )
      (unfold is_empty in refl)
  where
    pieces :
        (x : List ℕ) (segs : List (List ℕ))
        → IsSegment x
        → All IsSegment segs
        → split 47 (x ++ join segs ++ 47 ∷ []) ≡ x ∷ (segs ++ [] ∷ [])
    pieces x segs h hs =
        ap (split 47) (append_assoc x (join segs) (47 ∷ [])) ∙ split-join_slash x segs h.whole hs

answer-IsCanonical :
    (segs : List (List ℕ)) (b : Bool)
    → All IsSegment segs
    → IsCanonical
        (let out = join segs in if is_empty out then 47 ∷ [] else if b then out ++ 47 ∷ [] else out)
unfolding join is_empty
answer-IsCanonical [] b h = root
answer-IsCanonical (x ∷ segs) true (h, hs) = slashed x segs h hs
answer-IsCanonical (x ∷ segs) false (h, hs) = segments x segs h hs

normalise_decoded-IsCanonical : (d : List ℕ) → IsCanonical (normalise_decoded d)
unfolding normalise_decoded
normalise_decoded-IsCanonical d =
    answer-IsCanonical (resolve_segments [] (split 47 d)) (ends_with 47 d)
      (resolve_segments-keeps [] (split 47 d) Prim.tt (split-whole_pieces d))

-- Whatever path it is given, `normalise_path` answers the root, or segments behind one slash each, with or
-- without a slash at the end; no segment is empty, `.` or `..`, and none has a slash in it.
pub normalise_path-IsCanonical : (path : List ℕ) → IsCanonical (normalise_path path)
unfolding normalise_path
normalise_path-IsCanonical path = normalise_decoded-IsCanonical (percent_decode path)

-- A canonical path without a `%` is its own normal form, so every canonical path has a request that is
-- keyed by it.
pub normalise_path-canonical :
    (path : List ℕ) → IsCanonical path → contains 37 path ≡ false → normalise_path path ≡ path
unfolding normalise_path percent_decode
normalise_path-canonical path h plain = rw plain (normalise_decoded-canonical path h)
