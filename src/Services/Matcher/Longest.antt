-- ===== src/Services/Matcher/Longest.antt =====
-- The walk up the parents of a host.
use cachic.Common.{
  ℕ, ◌≤◌, ◌<◌, ◌≡◌, refl, sym, ap, ◌∙◌, subst, false, ◌⊎◌, inl, inr, if-elim, Option, none, some,
  List, [], ◌∷◌, ◌==◌, ==_iff, if◌then◌else◌, length, arith,
}
use cachic.Common.Text.{is_empty}
use cachic.Services.Domains.{Pattern, exact, suffix}
use cachic.Services.Matcher.{HashMap, Matcher, get, found_or, walk, index_for}

-- The text after a dot of the host.
pub data Parent : List ℕ → List ℕ → Type 0 where
  here : (parent : List ℕ) → Parent (46 ∷ parent) parent
  further : (c : ℕ) (s parent : List ℕ) → Parent s parent → Parent (c ∷ s) parent

-- A wildcard matches the hosts below its parent, and not its parent.
abbrev pub Matches : Pattern → List ℕ → Type 0
Matches (exact text) host = text ≡ host
Matches (suffix parent) host = Parent host parent × (is_empty parent ≡ false)

abbrev pub text_of : Pattern → List ℕ
text_of (exact text) = text
text_of (suffix text) = text

abbrev pub lookup : Pattern → Matcher → Option ℕ
lookup (exact text) m = get text m.exact_hosts
lookup (suffix text) m = get text m.suffixes

Parent-cases : {c : ℕ} {s q : List ℕ} → Parent (c ∷ s) q → ((c ≡ 46) × (s ≡ q)) ⊎ Parent s q
Parent-cases (here parent) = inl (refl, refl)
Parent-cases (further c s parent p) = inr p

Parent-length : {h q : List ℕ} → Parent h q → length q < length h
Parent-length (here parent) = omega arith
Parent-length (further c s parent p) = omega (arith, Parent-length p)

Parent-full : {h q : List ℕ} → Parent h q → is_empty h ≡ false
unfolding is_empty
Parent-full (here parent) = refl
Parent-full (further c s parent p) = refl

found_or-cases :
    (a b : Option ℕ) (i : ℕ) → found_or a b ≡ some i → (a ≡ some i) ⊎ ((a ≡ none) × (b ≡ some i))
unfolding found_or
found_or-cases (some v) b i h = inl h
found_or-cases none b i h = inr (refl, h)

found_or-none : (a b : Option ℕ) → found_or a b ≡ none → (a ≡ none) × (b ≡ none)
unfolding found_or
found_or-none (some v) b h = cc
found_or-none none b h = (refl, h)

-- The longest parent that the map has.
abbrev Longest : HashMap → List ℕ → ℕ → Type 0
Longest m h i =
    (parent : List ℕ) × Matches (suffix parent) h
    × (get parent m ≡ some i)
    × ((q : List ℕ) (j : ℕ) → Matches (suffix q) h → get q m ≡ some j → length q ≤ length parent)

module _ (m : HashMap) where
  Longest-here : (s : List ℕ) (i : ℕ) → is_empty s ≡ false → get s m ≡ some i → Longest m (46 ∷ s) i
  Longest-here s i full found = (s, (here s, full), found, bound)
    where
      bound :
          (q : List ℕ) (j : ℕ)
          → Matches (suffix q) (46 ∷ s)
          → get q m ≡ some j
          → length q ≤ length s
      bound q j (p, x) k = elim (Parent-cases p) [
        | inl (dot, same) ↦ omega (arith, ap length same)
        | inr deeper ↦ omega (arith, Parent-length deeper)
      ]

  Longest-further :
      (c : ℕ) (s : List ℕ) (i : ℕ)
      → (c ≡ 46 → is_empty s ≡ false → get s m ≡ none)
      → Longest m s i
      → Longest m (c ∷ s) i
  Longest-further c s i missing (parent, (p, full), found, most) =
      (parent, (further c s parent p, full), found, bound)
    where
      bound :
          (q : List ℕ) (j : ℕ)
          → Matches (suffix q) (c ∷ s)
          → get q m ≡ some j
          → length q ≤ length parent
      bound q j (p, x) k = elim (Parent-cases p) [
        | inl (dot, same) ↦
            absurd (cc (sym (missing dot (ap is_empty same ∙ x)) ∙ (ap (λ z. get z m) same ∙ k)))
        | inr deeper ↦ most q j (deeper, x) k
      ]

  walk-Longest : (h : List ℕ) (i : ℕ) → walk m h ≡ some i → Longest m h i
  unfolding walk
  walk-Longest [] i e = cc
  walk-Longest (c ∷ s) i e =
      if-elim (c == 46) (if is_empty s then none else found_or (get s m) (walk m s)) (walk m s) e
        (λ dot e1.
          if-elim (is_empty s) none (found_or (get s m) (walk m s)) e1 (λ x y. cc)
            (λ full e2. elim (found_or-cases (get s m) (walk m s) i e2) [
              | inl now ↦
                  subst (λ d. Longest m (d ∷ s) i) (sym ((==_iff c 46).0 dot))
                    (Longest-here s i full now)
              | inr (absent, later) ↦ Longest-further c s i (λ x y. absent) (walk-Longest s i later)
            ]))
        (λ other e1.
          Longest-further c s i (λ dot y. absurd (cc (sym other ∙ (==_iff c 46).1 dot)))
            (walk-Longest s i e1))

  walk-none : (h : List ℕ) → walk m h ≡ none → (q : List ℕ) → Matches (suffix q) h → get q m ≡ none
  unfolding walk
  walk-none [] e q (p, full) = absurd (omega (arith, Parent-length p))
  walk-none (c ∷ s) e q (p, full) =
      if-elim (c == 46) (if is_empty s then none else found_or (get s m) (walk m s)) (walk m s) e
        (λ dot e1.
          if-elim (is_empty s) none (found_or (get s m) (walk m s)) e1
            (λ over y. elim (Parent-cases p) [
              | inl (x, same) ↦ absurd (cc (sym over ∙ (ap is_empty same ∙ full)))
              | inr deeper ↦ absurd (cc (sym over ∙ Parent-full deeper))
            ])
            (λ more e2. elim (Parent-cases p) [
              | inl (x, same) ↦ ap (λ z. get z m) (sym same) ∙ (found_or-none _ _ e2).0
              | inr deeper ↦ walk-none s (found_or-none _ _ e2).1 q (deeper, full)
            ]))
        (λ other e1. elim (Parent-cases p) [
          | inl (x, same) ↦ absurd (cc (sym other ∙ (==_iff c 46).1 x))
          | inr deeper ↦ walk-none s e1 q (deeper, full)
        ])

-- The pattern that decides is the longest of those that match.
pub index_for-some :
    (m : Matcher) (h : List ℕ) (i : ℕ)
    → index_for m h ≡ some i
    → (p : Pattern) × Matches p h
      × (lookup p m ≡ some i)
      × ((q : Pattern) (j : ℕ)
          → Matches q h
          → lookup q m ≡ some j
          → length (text_of q) ≤ length (text_of p))
unfolding index_for
index_for-some m h i e =
    if-elim (is_empty h) none (found_or (get h m.exact_hosts) (walk m.suffixes h)) e (λ x y. cc)
      (λ full e1. elim (found_or-cases (get h m.exact_hosts) (walk m.suffixes h) i e1) [
        | inl now ↦ (exact h, refl, now, whole)
        | inr (absent, later) ↦
            (let (parent, fits, found, most) = walk-Longest m.suffixes h i later in
              (suffix parent, fits, found, below absent parent most))
      ])
  where
    whole :
        (q : Pattern) (j : ℕ) → Matches q h → lookup q m ≡ some j → length (text_of q) ≤ length h
    whole (exact t) j same k = omega (arith, ap length same)
    whole (suffix t) j (p, x) k = omega (arith, Parent-length p)

    below :
        get h m.exact_hosts ≡ none
        → (parent : List ℕ)
        → ((q : List ℕ) (j : ℕ)
            → Matches (suffix q) h
            → get q m.suffixes ≡ some j
            → length q ≤ length parent)
        → (q : Pattern) (j : ℕ) → Matches q h
        → lookup q m ≡ some j
        → length (text_of q) ≤ length parent
    below absent parent most (exact t) j same k =
        absurd (cc (sym absent ∙ (ap (λ z. get z m.exact_hosts) (sym same) ∙ k)))
    below absent parent most (suffix t) j fits k = most t j fits k

pub index_for-none :
    (m : Matcher) (h : List ℕ)
    → is_empty h ≡ false
    → index_for m h ≡ none
    → (q : Pattern) → Matches q h
    → lookup q m ≡ none
unfolding index_for
index_for-none m h full e =
    if-elim (is_empty h) none (found_or (get h m.exact_hosts) (walk m.suffixes h)) e
      (λ x y. absurd (cc (sym x ∙ full))) (λ x e1. nothing e1)
  where
    nothing :
        found_or (get h m.exact_hosts) (walk m.suffixes h) ≡ none
        → (q : Pattern) → Matches q h
        → lookup q m ≡ none
    nothing e1 (exact t) same = ap (λ z. get z m.exact_hosts) same ∙ (found_or-none _ _ e1).0
    nothing e1 (suffix t) fits = walk-none m.suffixes h (found_or-none _ _ e1).1 t fits
