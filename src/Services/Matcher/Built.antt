-- ===== src/Services/Matcher/Built.antt =====
-- The matcher of a domain list.
use cachic.Common.{
  ℕ, ◌+◌, ◌≡◌, refl, ap, subst, Bool-cases, ◌⊎◌, inl, inr, if-elim, some, some-injective, List, [],
  ◌∷◌,
}
use cachic.Common.Text.{text_eq}
use cachic.Common.Text.Laws.{text_eq→eq, text_eq_refl}
use cachic.Services.Domains.{Pattern, exact, suffix, Service}
use cachic.Services.Matcher.{HashMap, Matcher, get, insert_pattern, insert_patterns}
use cachic.Services.Matcher.Longest.{lookup}

pub data Member : Pattern → List Pattern → Type 0 where
  first : (p : Pattern) (ps : List Pattern) → Member p (p ∷ ps)
  rest : (p q : Pattern) (ps : List Pattern) → Member p ps → Member p (q ∷ ps)

-- The service at an index, counted from `base`, with its name and one of its patterns.
pub data Offers : ℕ → List Service → ℕ → List ℕ → Pattern → Type 0 where
  this :
      (base : ℕ) (s : Service) (ss : List Service) (p : Pattern)
      → Member p s.patterns
      → Offers base (s ∷ ss) base s.name p
  that :
      (base : ℕ) (s : Service) (ss : List Service) (i : ℕ) (n : List ℕ) (p : Pattern)
      → Offers (base + 1) ss i n p
      → Offers base (s ∷ ss) i n p

get-cons :
    (k j : List ℕ) (v i : ℕ) (m : HashMap)
    → get k ((j, v) ∷ m) ≡ some i
    → ((j ≡ k) × (v ≡ i)) ⊎ (get k m ≡ some i)
unfolding get
get-cons k j v i m e =
    if-elim (text_eq j k) (some v) (get k m) e
      (λ same x. inl (text_eq→eq j k same, some-injective x)) (λ other x. inr x)

insert_pattern-lookup :
    (index : ℕ) (p q : Pattern) (m : Matcher) (i : ℕ)
    → lookup q (insert_pattern index p m) ≡ some i
    → ((p ≡ q) × (index ≡ i)) ⊎ (lookup q m ≡ some i)
unfolding insert_pattern
insert_pattern-lookup index (exact a) (exact b) m i e =
    elim (get-cons b a index i m.exact_hosts e) [
      | inl (same, at) ↦ inl (ap exact same, at)
      | inr old ↦ inr old
    ]
insert_pattern-lookup index (exact a) (suffix b) m i e = inr e
insert_pattern-lookup index (suffix a) (exact b) m i e = inr e
insert_pattern-lookup index (suffix a) (suffix b) m i e = elim (get-cons b a index i m.suffixes e) [
  | inl (same, at) ↦ inl (ap suffix same, at)
  | inr old ↦ inr old
]

abbrev pub Has : Pattern → Matcher → Type 0
Has q m = (i : ℕ) × (lookup q m ≡ some i)

get-kept :
    (k j : List ℕ) (v i : ℕ) (m : HashMap)
    → get k m ≡ some i
    → (x : ℕ) × (get k ((j, v) ∷ m) ≡ some x)
unfolding get
get-kept k j v i m e = elim (Bool-cases (text_eq j k)) [
  | inl same ↦ (v, rw same refl)
  | inr other ↦ (i, rw other e)
]

get-new : (k : List ℕ) (v : ℕ) (m : HashMap) → get k ((k, v) ∷ m) ≡ some v
unfolding get
get-new k v m = rw (text_eq_refl k) refl

insert_pattern-kept :
    (index : ℕ) (p q : Pattern) (m : Matcher) → Has q m → Has q (insert_pattern index p m)
unfolding insert_pattern
insert_pattern-kept index (exact a) (exact b) m (i, e) = get-kept b a index i m.exact_hosts e
insert_pattern-kept index (exact a) (suffix b) m h = h
insert_pattern-kept index (suffix a) (exact b) m h = h
insert_pattern-kept index (suffix a) (suffix b) m (i, e) = get-kept b a index i m.suffixes e

insert_pattern-new : (index : ℕ) (p : Pattern) (m : Matcher) → Has p (insert_pattern index p m)
unfolding insert_pattern
insert_pattern-new index (exact a) m = (index, get-new a index m.exact_hosts)
insert_pattern-new index (suffix a) m = (index, get-new a index m.suffixes)

pub insert_patterns-lookup :
    (index : ℕ) (ps : List Pattern) (q : Pattern) (m : Matcher) (i : ℕ)
    → lookup q (insert_patterns index ps m) ≡ some i
    → (Member q ps × (index ≡ i)) ⊎ (lookup q m ≡ some i)
unfolding insert_patterns
insert_patterns-lookup index [] q m i e = inr e
insert_patterns-lookup index (p ∷ ps) q m i e =
    elim (insert_patterns-lookup index ps q (insert_pattern index p m) i e) [
      | inl (member, at) ↦ inl (rest q p ps member, at)
      | inr before ↦ elim (insert_pattern-lookup index p q m i before) [
        | inl (same, at) ↦ inl (subst (λ x. Member x (p ∷ ps)) same (first p ps), at)
        | inr old ↦ inr old
      ]
    ]

pub insert_patterns-kept :
    (index : ℕ) (ps : List Pattern) (q : Pattern) (m : Matcher)
    → Has q m
    → Has q (insert_patterns index ps m)
unfolding insert_patterns
insert_patterns-kept index [] q m h = h
insert_patterns-kept index (p ∷ ps) q m h =
    insert_patterns-kept index ps q (insert_pattern index p m) (insert_pattern-kept index p q m h)

pub insert_patterns-new :
    (index : ℕ) (ps : List Pattern) (q : Pattern) (m : Matcher)
    → Member q ps
    → Has q (insert_patterns index ps m)
unfolding insert_patterns
insert_patterns-new index _ q m (first _ ps) =
    insert_patterns-kept index ps q (insert_pattern index q m) (insert_pattern-new index q m)
insert_patterns-new index _ q m (rest _ p ps member) =
    insert_patterns-new index ps q (insert_pattern index p m) member

pub insert_patterns-names :
    (index : ℕ) (ps : List Pattern) (m : Matcher) → (insert_patterns index ps m).names ≡ m.names
unfolding insert_patterns insert_pattern
insert_patterns-names index [] m = refl
insert_patterns-names index (exact a ∷ ps) m =
    insert_patterns-names index ps (insert_pattern index (exact a) m)
insert_patterns-names index (suffix a ∷ ps) m =
    insert_patterns-names index ps (insert_pattern index (suffix a) m)
