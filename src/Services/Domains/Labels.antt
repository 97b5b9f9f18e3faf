-- ===== src/Services/Domains/Labels.antt =====
-- The labels of a domain: what `is_public_suffix` counts.
use cachic.Common.{
  ℕ, ◌+◌, ◌≤◌, ◌≡◌, ◌≢◌, refl, sym, ap, Bool, false, Bool-cases, inl, inr, List, [], ◌∷◌, ◌++◌,
  ◌==◌, ==_iff, all, All, arith,
}
use cachic.Common.Text.{is_empty}
use cachic.Common.Text.Laws.{text_eq_iff}
use cachic.Services.Key.{split, cons_first}
use cachic.Services.Domains.{public_suffixes, contains_name, count_labels, is_public_suffix}

-- A text of dots alone has no label.
abbrev only_dots : List ℕ → Bool
only_dots s = all (λ c. c == 46) s

-- Two labels at least: something that is no dot on either side of a dot.
pub record HasTwoLabels (s : List ℕ) : Type 0 where
  pub left : List ℕ
  pub right : List ℕ
  pub parted : s ≡ left ++ 46 ∷ right
  pub left_label : all (λ c. c == 46) left ≡ false
  pub right_label : all (λ c. c == 46) right ≡ false

behind_first : List (List ℕ) → List (List ℕ)
behind_first [] = []
behind_first (first ∷ rest) = rest

behind_first-cons_first :
    (c : ℕ) (l : List (List ℕ)) → behind_first (cons_first c l) ≡ behind_first l
unfolding behind_first cons_first
behind_first-cons_first c [] = refl
behind_first-cons_first c (first ∷ rest) = refl

count_labels-cons_first :
    (c : ℕ) (l : List (List ℕ)) → count_labels (cons_first c l) ≡ count_labels (behind_first l) + 1
unfolding count_labels behind_first cons_first is_empty
count_labels-cons_first c [] = refl
count_labels-cons_first c (first ∷ rest) = refl

label_left : (s : List ℕ) → 1 ≤ count_labels (split 46 s) → only_dots s ≡ false
unfolding count_labels split is_empty
label_left [] h = absurd (omega arith)
label_left (c ∷ s) h = elim (Bool-cases (c == 46)) [
  | inl dot ↦ rw dot (label_left s (rw dot at h))
  | inr other ↦ rw other refl
]

-- A label behind the first one stands behind a dot.
label_behind :
    (s : List ℕ)
    → 1 ≤ count_labels (behind_first (split 46 s))
    → (left : List ℕ) × (right : List ℕ) × (s ≡ left ++ 46 ∷ right) × (only_dots right ≡ false)
unfolding split behind_first
label_behind [] h = absurd (unfold count_labels in omega arith)
label_behind (c ∷ s) h = elim (Bool-cases (c == 46)) [
  | inl dot ↦ ([], s, ap (λ d. d ∷ s) ((==_iff c 46).0 dot), label_left s (rw dot at h))
  | inr other ↦
      let (left, right, parted, label) =
        label_behind s (rw (behind_first-cons_first c (split 46 s)) at (rw other at h)) in
      (c ∷ left, right, ap (λ t. c ∷ t) parted, label)
]

after_dot : (l : List (List ℕ)) → 2 ≤ count_labels ([] ∷ l) → 2 ≤ count_labels l
unfolding count_labels is_empty
after_dot l h = h

two_labels : (s : List ℕ) → 2 ≤ count_labels (split 46 s) → HasTwoLabels s
unfolding split
two_labels [] h = absurd (unfold count_labels is_empty in omega arith)
two_labels (c ∷ s) h = elim (Bool-cases (c == 46)) [
  | inl dot ↦
      let r = two_labels s (after_dot (split 46 s) (rw dot at h)) in
      record {
        left = c ∷ r.left;
        right = r.right;
        parted = ap (λ t. c ∷ t) r.parted;
        left_label = rw dot r.left_label;
        right_label = r.right_label;
      }
  | inr other ↦
      let counted : 2 ≤ count_labels (cons_first c (split 46 s)) = rw other at h in
      let (left, right, parted, label) =
        label_behind s (omega (arith, counted, count_labels-cons_first c (split 46 s))) in
      record {
        left = c ∷ left;
        right = right;
        parted = ap (λ t. c ∷ t) parted;
        left_label = rw other refl;
        right_label = label;
      }
]

not_listed :
    (names : List (List ℕ)) (s : List ℕ) → contains_name names s ≡ false → All (λ n. s ≢ n) names
unfolding contains_name
not_listed [] s h = tt
not_listed (n ∷ names) s h =
    ((λ same. ground (arith, (text_eq_iff n s).1 (sym same))), not_listed names s (ground arith))

pub not_public_suffix :
    (s : List ℕ) → is_public_suffix s ≡ false → HasTwoLabels s × All (λ n. s ≢ n) public_suffixes
unfolding is_public_suffix
not_public_suffix s h = (two_labels s (ground arith), not_listed public_suffixes s (ground arith))
