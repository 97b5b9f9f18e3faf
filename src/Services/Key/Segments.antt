-- ===== src/Services/Key/Segments.antt =====
-- The pieces of a path between its slashes, and the segments that are left of them.
use cachic.Common.{
  ℕ, ◌≡◌, refl, sym, ap, ◌∙◌, subst, false, Bool-cases, inl, inr, ◌||◌, List, [], ◌∷◌, ◌++◌,
  reverse, append_assoc, append-nil, ◌==◌, All, arith,
}
use mathlib.Core.List.{reverse_aux-eq}
use cachic.Common.Text.{text_eq, contains, is_empty}
use cachic.Services.Key.{split, cons_first, step, pop, resolve_segments, join}

-- Without a slash, not empty, not `.` and not `..`.
pub record IsSegment (s : List ℕ) : Type 0 where
  pub whole : contains 47 s ≡ false
  pub named : (is_empty s || text_eq s (46 ∷ [])) ≡ false
  pub no_parent : text_eq s (46 ∷ 46 ∷ []) ≡ false

pub split-append :
    (seg s : List ℕ) → contains 47 seg ≡ false → split 47 (seg ++ 47 ∷ s) ≡ seg ∷ split 47 s
unfolding split cons_first contains
split-append [] s h = refl
split-append (c ∷ seg) s h = elim (Bool-cases (c == 47)) [
  | inl slash ↦ absurd (ground (arith, slash))
  | inr other ↦ rw (other, split-append seg s (ground (arith, other))) refl
]

pub split-whole : (seg : List ℕ) → contains 47 seg ≡ false → split 47 seg ≡ seg ∷ []
unfolding split cons_first contains
split-whole [] h = refl
split-whole (c ∷ seg) h = elim (Bool-cases (c == 47)) [
  | inl slash ↦ absurd (ground (arith, slash))
  | inr other ↦ rw (other, split-whole seg (ground (arith, other))) refl
]

pub split-join :
    (seg : List ℕ) (segs : List (List ℕ))
    → contains 47 seg ≡ false
    → All IsSegment segs
    → split 47 (seg ++ join segs) ≡ seg ∷ segs
unfolding join
split-join seg [] h k = ap (split 47) (append-nil seg) ∙ split-whole seg h
split-join seg (x ∷ segs) h (k, ks) =
    split-append seg (x ++ join segs) h ∙ ap (λ l. seg ∷ l) (split-join x segs k.whole ks)

pub split-nil : split 47 [] ≡ [] ∷ []
unfolding split
split-nil = refl

-- The same with a slash behind it.
pub split-join_slash :
    (seg : List ℕ) (segs : List (List ℕ))
    → contains 47 seg ≡ false
    → All IsSegment segs
    → split 47 (seg ++ (join segs ++ 47 ∷ [])) ≡ seg ∷ (segs ++ [] ∷ [])
unfolding join
split-join_slash seg [] h k = split-append seg [] h ∙ ap (λ l. seg ∷ l) split-nil
split-join_slash seg (x ∷ segs) h (k, ks) =
    ap (λ l. split 47 (seg ++ 47 ∷ l)) (append_assoc x (join segs) (47 ∷ []))
    ∙ split-append seg (x ++ (join segs ++ 47 ∷ [])) h
    ∙ ap (λ l. seg ∷ l) (split-join_slash x segs k.whole ks)

pub step-IsSegment : (x : List ℕ) (done : List (List ℕ)) → IsSegment x → step x done ≡ x ∷ done
unfolding step
step-IsSegment x done h = rw (h.named, h.no_parent) refl

pub step-nil : (done : List (List ℕ)) → step [] done ≡ done
unfolding step is_empty
step-nil done = refl

pub reverse-cons :
    (x : List ℕ) (done segs : List (List ℕ)) → reverse (x ∷ done) ++ segs ≡ reverse done ++ x ∷ segs
reverse-cons x done segs =
    ap (λ l. l ++ segs) (reverse_aux-eq done (x ∷ [])) ∙ append_assoc (reverse done) (x ∷ []) segs

pub resolve_segments-IsSegment :
    (done segs : List (List ℕ))
    → All IsSegment segs
    → resolve_segments done segs ≡ reverse done ++ segs
unfolding resolve_segments
resolve_segments-IsSegment done [] h = sym (append-nil (reverse done))
resolve_segments-IsSegment done (x ∷ segs) (h, hs) =
    ap (λ l. resolve_segments l segs) (step-IsSegment x done h)
    ∙ resolve_segments-IsSegment (x ∷ done) segs hs
    ∙ reverse-cons x done segs

pub resolve_segments-slash :
    (done segs : List (List ℕ))
    → All IsSegment segs
    → resolve_segments done (segs ++ [] ∷ []) ≡ reverse done ++ segs
unfolding resolve_segments
resolve_segments-slash done [] h = ap reverse (step-nil done) ∙ sym (append-nil (reverse done))
resolve_segments-slash done (x ∷ segs) (h, hs) =
    ap (λ l. resolve_segments l (segs ++ [] ∷ [])) (step-IsSegment x done h)
    ∙ resolve_segments-slash (x ∷ done) segs hs
    ∙ reverse-cons x done segs

pub cons_first-whole :
    (c : ℕ) (pieces : List (List ℕ))
    → (c == 47) ≡ false
    → All (λ p. contains 47 p ≡ false) pieces
    → All (λ p. contains 47 p ≡ false) (cons_first c pieces)
unfolding cons_first contains
cons_first-whole c [] h hs = (rw h refl, Prim.tt)
cons_first-whole c (p ∷ pieces) h (k, ks) = (rw h k, ks)

pub split-whole_pieces : (s : List ℕ) → All (λ p. contains 47 p ≡ false) (split 47 s)
unfolding split contains
split-whole_pieces [] = (refl, Prim.tt)
split-whole_pieces (c ∷ s) = elim (Bool-cases (c == 47)) [
  | inl slash ↦ rw slash (refl, split-whole_pieces s)
  | inr other ↦ rw other (cons_first-whole c (split 47 s) other (split-whole_pieces s))
]

pub pop-IsSegment : (done : List (List ℕ)) → All IsSegment done → All IsSegment (pop done)
unfolding pop
pop-IsSegment [] h = h
pop-IsSegment (x ∷ done) (h, hs) = hs

pub step-keeps :
    (p : List ℕ) (done : List (List ℕ))
    → contains 47 p ≡ false
    → All IsSegment done
    → All IsSegment (step p done)
unfolding step
step-keeps p done h hs = elim (Bool-cases (is_empty p || text_eq p (46 ∷ []))) [
  | inl skipped ↦ rw skipped hs
  | inr named ↦ elim (Bool-cases (text_eq p (46 ∷ 46 ∷ []))) [
    | inl parent ↦ rw (named, parent) (pop-IsSegment done hs)
    | inr other ↦ rw (named, other) (record { whole = h; named = named; no_parent = other }, hs)
  ]
]

pub All-append :
    {A : Type 0} (P : A → Type 0) (xs ys : List A) → All P xs → All P ys → All P (xs ++ ys)
All-append P [] ys h k = k
All-append P (x ∷ xs) ys (h, hs) k = (h, All-append P xs ys hs k)

pub All-reverse : (xs : List (List ℕ)) → All IsSegment xs → All IsSegment (reverse xs)
All-reverse [] h = h
All-reverse (x ∷ xs) (h, hs) =
    subst (All IsSegment) (sym (reverse_aux-eq xs (x ∷ [])))
      (All-append IsSegment (reverse xs) (x ∷ []) (All-reverse xs hs) (h, Prim.tt))

pub resolve_segments-keeps :
    (done pieces : List (List ℕ))
    → All IsSegment done
    → All (λ p. contains 47 p ≡ false) pieces
    → All IsSegment (resolve_segments done pieces)
unfolding resolve_segments
resolve_segments-keeps done [] h k = All-reverse done h
resolve_segments-keeps done (p ∷ pieces) h (k, ks) =
    resolve_segments-keeps (step p done) pieces (step-keeps p done k h) ks
