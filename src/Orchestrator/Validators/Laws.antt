-- ===== src/Orchestrator/Validators/Laws.antt =====
-- `matches` and `if_range_matches` against what it means that two responses are of one entity.
use cachic.Common.{
  ℕ, ◌≡◌, ◌↔◌, refl, sym, ap, ◌∙◌, ◌⊎◌, inl, inr, Bool, true, false, Option, none, some, List,
  if◌then◌else◌, arith,
}
use cachic.Common.Text.{text_eq, trim}
use cachic.Common.Text.Laws.{text_eq→eq, text_eq_refl}
use cachic.Orchestrator.Validators.{
  Validators, is_weak, strong_eq, matches_modified, matches_etag, matches, if_range_matches, passes,
}

-- Both have one strong tag, or neither has a tag and the dates agree, present or absent.
abbrev pub SameEntity : Validators → Validators → Type 0
SameEntity v w =
    ((e : List ℕ) × (v.etag ≡ some e) × (w.etag ≡ some e) × (is_weak e ≡ false))
    ⊎ ((v.etag ≡ none) × (w.etag ≡ none) × (v.last_modified ≡ w.last_modified))

strong_eq_iff : (a b : List ℕ) → (strong_eq a b ≡ true) ↔ ((a ≡ b) × (is_weak a ≡ false))
strong_eq_iff a b = (fwd, bwd)
  where
    fwd : strong_eq a b ≡ true → (a ≡ b) × (is_weak a ≡ false)
    fwd h = (text_eq→eq a b (unfold strong_eq in ground arith), unfold strong_eq in ground arith)

    bwd : (a ≡ b) × (is_weak a ≡ false) → strong_eq a b ≡ true
    bwd (e, s) = rw (← e) (unfold strong_eq in rw (s, text_eq_refl a))

modified_iff : (c d : Option (List ℕ)) → (matches_modified c d ≡ true) ↔ (c ≡ d)
unfolding matches_modified
modified_iff none none = (λ h. refl, λ e. refl)
modified_iff none (some d) = (λ h. cc, λ e. cc)
modified_iff (some c) none = (λ h. cc, λ e. cc)
modified_iff (some c) (some d) =
    (λ h. ap some (text_eq→eq c d h), λ e. let f : c ≡ d = cc in rw f (text_eq_refl d))

-- Validators match exactly when both have the same strong tag, or neither has a tag and both have the
-- same date or none.
pub matches-exact : (v w : Validators) → (matches v w ≡ true) ↔ SameEntity v w
unfolding matches
matches-exact v w = go v.etag w.etag v.last_modified w.last_modified
  where
    go :
        (a b c d : Option (List ℕ))
        → (matches_etag a b (matches_modified c d) ≡ true) ↔ (
            ((e : List ℕ) × (a ≡ some e) × (b ≡ some e) × (is_weak e ≡ false))
            ⊎ ((a ≡ none) × (b ≡ none) × (c ≡ d)))
    go none none c d = (
      λ h. inr (refl, refl, (modified_iff c d).0 h),
      elim [ inl (e, p, _, _) ↦ cc p | inr (_, _, e) ↦ (modified_iff c d).1 e ],
    )
    go none (some b) c d = (λ h. cc, elim [ inl (e, p, _, _) ↦ cc p | inr (_, p, _) ↦ cc p ])
    go (some a) none c d = (λ h. cc, elim [ inl (e, _, p, _) ↦ cc p | inr (p, _, _) ↦ cc p ])
    go (some a) (some b) c d = (
      λ h. let (e, s) = (strong_eq_iff a b).0 h in inl (a, refl, ap some (sym e), s),
      elim [
        | inl (e, p, q, s) ↦
            let ae : a ≡ e = cc p in
            let be : b ≡ e = cc q in (strong_eq_iff a b).1 (ae ∙ sym be, rw ae s)
        | inr (p, _, _) ↦ cc p
      ],
    )

-- Matching is symmetric and transitive, so slices that match one set of validators match each other.
pub matches_transitive :
    (u v w : Validators)
    → matches u v ≡ true
    → matches v w ≡ true
    → (matches v u ≡ true) × (matches u w ≡ true)
matches_transitive u v w h k = (
  (matches-exact v u).1 (flip ((matches-exact u v).0 h)),
  (matches-exact u w).1 (join ((matches-exact u v).0 h) ((matches-exact v w).0 k)),
)
  where
    flip : SameEntity u v → SameEntity v u
    flip (inl (e, p, q, s)) = inl (e, q, p, s)
    flip (inr (p, q, r)) = inr (q, p, sym r)

    join : SameEntity u v → SameEntity v w → SameEntity u w
    join (inl (e, p, q, s)) (inl (f, p', q', s')) = inl (e, p, q' ∙ (sym p' ∙ q), s)
    join (inl (e, p, q, s)) (inr (p', q', r')) = absurd (cc (q, p'))
    join (inr (p, q, r)) (inl (f, p', q', s')) = absurd (cc (q, p'))
    join (inr (p, q, r)) (inr (p', q', r')) = inr (p, q', r ∙ r')

pick :
    (a b x y : Bool) → (if a then false else (if b then x else y)) ≡ true → (x ≡ true) ⊎ (y ≡ true)
pick true b x y h = cc
pick false true x y h = inl h
pick false false x y h = inr h

passes-some :
    (test : List ℕ → Bool) (o : Option (List ℕ))
    → passes test o ≡ true
    → (v : List ℕ) × (o ≡ some v) × (test v ≡ true)
passes-some test none h = cc
passes-some test (some v) h = (v, refl, h)

-- If `if_range_matches` permits a partial response, then the trimmed header is the object's tag, which
-- is strong, or its date.
pub if_range_matches_sound :
    (header : List ℕ) (current : Validators)
    → if_range_matches header current ≡ true
    → ((current.etag ≡ some (trim header)) × (is_weak (trim header) ≡ false))
      ⊎ (current.last_modified ≡ some (trim header))
unfolding if_range_matches
if_range_matches_sound header current h = elim (pick _ _ _ _ h) [
  | inl tag ↦
      let (e, p, s) = passes-some (strong_eq (trim header)) current.etag tag in
      let (same, strong) = (strong_eq_iff (trim header) e).0 s in
      inl (p ∙ ap some (sym same), strong)
  | inr date ↦
      let (d, p, s) =
        passes-some (λ modified. text_eq modified (trim header)) current.last_modified date in
      inr (p ∙ ap some (text_eq→eq d (trim header) s))
]
