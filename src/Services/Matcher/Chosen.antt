-- ===== src/Services/Matcher/Chosen.antt =====
-- The service of a host.
use cachic.Common.{
  ℕ, suc, ◌+◌, ◌≤◌, ◌≡◌, refl, sym, ◌∙◌, subst, false, ◌⊎◌, inl, inr, Option, none, some, List, [],
  ◌∷◌, ◌++◌, map, append-nil, append_assoc, some-injective, length, arith,
}
use cachic.Common.Text.{is_empty}
use cachic.Services.Key.{normalise_host}
use cachic.Services.Domains.{Pattern, Service, DomainList}
use cachic.Services.Matcher.{
  get, Matcher, insert_patterns, build_from, build, name_at, index_for, named, service_for,
}
use cachic.Services.Matcher.Longest.{Matches, text_of, lookup, index_for-some, index_for-none}
use cachic.Services.Matcher.Built.{
  Offers, this, that, Has, insert_patterns-lookup, insert_patterns-kept, insert_patterns-new,
  insert_patterns-names,
}

abbrev with_name : Service → Matcher → Matcher
with_name s m = record m { names = m.names ++ s.name ∷ [] }

with_name-lookup : (s : Service) (m : Matcher) (q : Pattern) → lookup q (with_name s m) ≡ lookup q m
with_name-lookup s m (Pattern.exact a) = refl
with_name-lookup s m (Pattern.suffix a) = refl

build_from-lookup :
    (base : ℕ) (ss : List Service) (q : Pattern) (m : Matcher) (i : ℕ)
    → lookup q (build_from base ss m) ≡ some i
    → ((n : List ℕ) × Offers base ss i n q) ⊎ (lookup q m ≡ some i)
unfolding build_from
build_from-lookup base [] q m i e = inr e
build_from-lookup base (s ∷ ss) q m i e =
    elim (build_from-lookup (base + 1) ss q (insert_patterns base s.patterns (with_name s m)) i e) [
      | inl (n, later) ↦ inl (n, that base s ss i n q later)
      | inr before ↦ elim (insert_patterns-lookup base s.patterns q (with_name s m) i before) [
        | inl (member, at) ↦
            inl (s.name, subst (λ x. Offers base (s ∷ ss) x s.name q) at (this base s ss q member))
        | inr old ↦ inr (sym (with_name-lookup s m q) ∙ old)
      ]
    ]

build_from-kept :
    (base : ℕ) (ss : List Service) (q : Pattern) (m : Matcher)
    → Has q m
    → Has q (build_from base ss m)
unfolding build_from
build_from-kept base [] q m h = h
build_from-kept base (s ∷ ss) q m (i, e) =
    build_from-kept (base + 1) ss q (insert_patterns base s.patterns (with_name s m))
      (insert_patterns-kept base s.patterns q (with_name s m) (i, with_name-lookup s m q ∙ e))

build_from-new :
    {base : ℕ} {ss : List Service} {i : ℕ} {n : List ℕ} {q : Pattern} (m : Matcher)
    → Offers base ss i n q
    → Has q (build_from base ss m)
unfolding build_from
build_from-new m (this base s ss q member) =
    build_from-kept (base + 1) ss q (insert_patterns base s.patterns (with_name s m))
      (insert_patterns-new base s.patterns q (with_name s m) member)
build_from-new m (that base s ss i n q later) =
    build_from-new (insert_patterns base s.patterns (with_name s m)) later

build_from-names :
    (base : ℕ) (ss : List Service) (m : Matcher)
    → (build_from base ss m).names ≡ m.names ++ map (λ s. s.name) ss
unfolding build_from
build_from-names base [] m = sym (append-nil m.names)
build_from-names base (s ∷ ss) m =
    build_from-names (base + 1) ss (insert_patterns base s.patterns (with_name s m))
    ∙ rw (insert_patterns-names base s.patterns (with_name s m))
        (append_assoc m.names (s.name ∷ []) (map (λ s. s.name) ss))

Offers-name :
    {base : ℕ} {ss : List Service} {i : ℕ} {n : List ℕ} {q : Pattern}
    → Offers base ss i n q
    → (k : ℕ) × (i ≡ base + k) × (name_at k (map (λ s. s.name) ss) ≡ some n)
unfolding name_at
Offers-name (this base s ss q member) = (0, omega arith, refl)
Offers-name (that base s ss i n q later) =
    let (k, at, e) = Offers-name later in (suc k, omega (arith, at), e)

abbrev empty_matcher : Matcher
empty_matcher = record { exact_hosts = []; suffixes = []; names = [] }

Offers-named :
    (list : DomainList) {i : ℕ} {n : List ℕ} {q : Pattern}
    → Offers 0 list.services i n q
    → name_at i (build list).names ≡ some n
unfolding build
Offers-named list {i} {n} o =
    let (k, at, e) = Offers-name o in
    let same : k ≡ i = omega (arith, at) in
    subst (λ x. name_at x (build_from 0 list.services empty_matcher).names ≡ some n) same
      (rw (build_from-names 0 list.services empty_matcher) e)

build-lookup :
    (list : DomainList) (q : Pattern) (i : ℕ)
    → lookup q (build list) ≡ some i
    → (n : List ℕ) × Offers 0 list.services i n q
unfolding build get
build-lookup list q i e = elim (build_from-lookup 0 list.services q empty_matcher i e) [
  | inl found ↦ found
  | inr old ↦ absurd (nothing q old)
]
  where
    nothing : (q : Pattern) → lookup q empty_matcher ≡ some i → Prim.⊥
    nothing (Pattern.exact a) x = cc
    nothing (Pattern.suffix a) x = cc

Offers-Has :
    (list : DomainList) {i : ℕ} {n : List ℕ} {q : Pattern}
    → Offers 0 list.services i n q
    → Has q (build list)
unfolding build
Offers-Has list o = build_from-new empty_matcher o

named-some :
    (m : Matcher) (o : Option ℕ) {name : List ℕ}
    → named m o ≡ some name
    → (i : ℕ) × (o ≡ some i) × (name_at i m.names ≡ some name)
unfolding named
named-some m none e = cc
named-some m (some i) e = (i, refl, e)

named-none :
    (m : Matcher) (o : Option ℕ)
    → named m o ≡ none
    → (i : ℕ) → o ≡ some i
    → name_at i m.names ≡ none
unfolding named
named-none m none e i x = cc
named-none m (some j) e i x = subst (λ y. name_at y m.names ≡ none) (some-injective x) e

-- If the matcher of a list gives a host a service, then that service has a pattern that matches the host, and no
-- matching pattern of any service is longer: an exact host comes before all wildcards, a longer wildcard before a
-- shorter one.
pub service_for-longest :
    (list : DomainList) (host : List ℕ) {name : List ℕ}
    → service_for (build list) host ≡ some name
    → (i : ℕ) × (p : Pattern) × Offers 0 list.services i name p
      × Matches p (normalise_host host)
      × ((j : ℕ) (n : List ℕ) (q : Pattern)
          → Offers 0 list.services j n q
          → Matches q (normalise_host host)
          → length (text_of q) ≤ length (text_of p))
unfolding service_for
service_for-longest list host {name} e =
    let (i, decided, named_so) =
      named-some (build list) (index_for (build list) (normalise_host host)) e in
    let (p, fits, found, most) = index_for-some (build list) (normalise_host host) i decided in
    let (n, offered) = build-lookup list p i found in
    let same : n ≡ name = some-injective (sym (Offers-named list offered) ∙ named_so) in
    (
      i,
      p,
      subst (λ x. Offers 0 list.services i x p) same offered,
      fits,
      λ j m q o x. let (k, held) = Offers-Has list o in most q k x held,
    )

-- If the matcher of a list gives a host that is not empty no service, then no pattern of the list matches the host.
pub service_for-none :
    (list : DomainList) (host : List ℕ)
    → is_empty (normalise_host host) ≡ false
    → service_for (build list) host ≡ none
    → (j : ℕ) (n : List ℕ) (q : Pattern) → Offers 0 list.services j n q
    → ¬ Matches q (normalise_host host)
unfolding service_for
service_for-none list host full e j n q o x = go (index_for (build list) (normalise_host host)) refl
  where
    go : (r : Option ℕ) → index_for (build list) (normalise_host host) ≡ r → Prim.⊥
    go none r =
        let (k, held) = Offers-Has list o in
        absurd (cc (sym held ∙ index_for-none (build list) _ full r q x))
    go (some i) r =
        let (p, fits, found, most) = index_for-some (build list) (normalise_host host) i r in
        let (m, offered) = build-lookup list p i found in
        absurd (cc (sym (Offers-named list offered) ∙ named-none (build list) _ e i r))
