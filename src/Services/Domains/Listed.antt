-- ===== src/Services/Domains/Listed.antt =====
-- What an accepted domain list is like.
use cachic.Common.{
  ℕ, ◌+◌, ◌≡◌, ◌≢◌, refl, sym, ◌∙◌, subst, false, Bool-cases, inl, inr, if-elim, ◌||◌, Option, none,
  some, List, [], ◌∷◌, ◌++◌, ◌==◌, Result, ok, >>=-eq-ok, ok_or, ok-injective, some-injective, All,
  ==_iff, arith,
}
use cachic.Common.Text.{
  to_ascii_lowercase, trim_end_matches, codes, starts_with, trim, strip_prefix, is_empty,
}
use cachic.Services.Domains.Labels.{HasTwoLabels, not_public_suffix}
use cachic.Services.Domains.{
  Pattern, exact, suffix, DomainsError, missing_file, Service, DomainList, RawService, Files,
  public_suffixes, is_public_suffix, parse_host, parse_pattern, has_space, pattern_or, parse_lines,
  file_named, lines, parse_files, pattern_leb, insert_sorted, sort, pattern_eq, before, dedup,
  parse_services, pattern_count, parse,
}

-- The parent of a wildcard has two labels or more and is no listed suffix; a host is not empty and begins with no
-- wildcard.
abbrev pub IsSafe : Pattern → Type 0
IsSafe (exact host) = (c : ℕ) × (rest : List ℕ) × (host ≡ c ∷ rest) × (c ≢ 42)
IsSafe (suffix parent) = HasTwoLabels parent × All (λ s. parent ≢ s) public_suffixes

exact-IsSafe :
    (host : List ℕ)
    → is_empty host ≡ false
    → starts_with (codes "*") host ≡ false
    → IsSafe (exact host)
unfolding is_empty starts_with
exact-IsSafe [] full plain = cc
exact-IsSafe (c ∷ rest) full plain = (c, rest, refl, (λ star. ground arith))

parse_host-IsSafe :
    (host : List ℕ) (stripped : Option (List ℕ)) {p : Pattern}
    → is_empty host ≡ false
    → parse_host host stripped ≡ some p
    → IsSafe p
unfolding parse_host is_empty
parse_host-IsSafe host (some (c ∷ rest)) full h =
    if-elim (is_public_suffix (c ∷ rest)) none (some (suffix (c ∷ rest))) h (λ x e. cc)
      (λ safe e. subst IsSafe (some-injective e) (not_public_suffix (c ∷ rest) safe))
parse_host-IsSafe host (some []) full h =
    if-elim (starts_with (codes "*") host) none (some (exact host)) h (λ x e. cc)
      (λ safe e. subst IsSafe (some-injective e) (exact-IsSafe host full safe))
parse_host-IsSafe host none full h =
    if-elim (starts_with (codes "*") host) none (some (exact host)) h (λ x e. cc)
      (λ safe e. subst IsSafe (some-injective e) (exact-IsSafe host full safe))

parse_pattern-IsSafe : (raw : List ℕ) {p : Pattern} → parse_pattern raw ≡ some p → IsSafe p
unfolding parse_pattern
parse_pattern-IsSafe raw h =
    let host = to_ascii_lowercase (trim_end_matches 46 (trim raw)) in
    if-elim (is_empty host) none (parse_host host (strip_prefix (codes "*.") host)) h (λ x e. cc)
      (λ full e. parse_host-IsSafe host (strip_prefix (codes "*.") host) full e)

pattern_or-IsSafe :
    (file : List ℕ) (n : ℕ) (o : Option Pattern) (more : Result (List Pattern) DomainsError)
    {ps : List Pattern}
    → ((p : Pattern) → o ≡ some p → IsSafe p)
    → ((qs : List Pattern) → more ≡ ok qs → All IsSafe qs)
    → pattern_or file n o more ≡ ok ps
    → All IsSafe ps
unfolding pattern_or
pattern_or-IsSafe file n none more f g h = cc
pattern_or-IsSafe file n (some p) more f g h =
    let (qs, rest, made) = >>=-eq-ok more _ h in
    subst (All IsSafe) (ok-injective made) (f p refl, g qs rest)

parse_lines-IsSafe :
    (file : List ℕ) (n : ℕ) (ls : List (List ℕ)) {ps : List Pattern}
    → parse_lines file n ls ≡ ok ps
    → All IsSafe ps
unfolding parse_lines
parse_lines-IsSafe file n [] h = subst (All IsSafe) (ok-injective h) tt
parse_lines-IsSafe file n (l ∷ rest) h =
    if-elim (is_empty (trim l) || starts_with (codes "#") (trim l)) _ _ h
      (λ skipped e. parse_lines-IsSafe file (n + 1) rest e)
      (λ used e.
        if-elim (has_space (trim l)) _ _ e (λ x y. cc)
          (λ one e1.
            pattern_or-IsSafe file n _ _ (λ p q. parse_pattern-IsSafe (trim l) q)
              (λ qs q. parse_lines-IsSafe file (n + 1) rest q) e1))

All-append : (P : Pattern → Type 0) (ps qs : List Pattern) → All P ps → All P qs → All P (ps ++ qs)
All-append P [] qs h k = k
All-append P (p ∷ ps) qs (x, h) k = (x, All-append P ps qs h k)

parse_files-IsSafe :
    (files : Files) (service : List ℕ) (names : List (List ℕ)) {ps : List Pattern}
    → parse_files files service names ≡ ok ps
    → All IsSafe ps
unfolding parse_files
parse_files-IsSafe files service [] h = subst (All IsSafe) (ok-injective h) tt
parse_files-IsSafe files service (file ∷ rest) h =
    let (body, read, h1) =
      >>=-eq-ok (ok_or (file_named file files) (missing_file service file)) _ h in
    let (ps, parsed, h2) = >>=-eq-ok (parse_lines file 1 (lines body)) _ h1 in
    let (qs, others, made) = >>=-eq-ok (parse_files files service rest) _ h2 in
    subst (All IsSafe) (ok-injective made) (
      All-append IsSafe ps qs (parse_lines-IsSafe file 1 (lines body) parsed)
        (parse_files-IsSafe files service rest others))

All-insert_sorted :
    (P : Pattern → Type 0) (p : Pattern) (ps : List Pattern)
    → P p
    → All P ps
    → All P (insert_sorted p ps)
unfolding insert_sorted
All-insert_sorted P p [] x h = (x, tt)
All-insert_sorted P p (q ∷ qs) x (y, h) = elim (Bool-cases (pattern_leb p q)) [
  | inl first ↦ rw first (x, (y, h))
  | inr later ↦ rw later (y, All-insert_sorted P p qs x h)
]

All-sort : (P : Pattern → Type 0) (ps : List Pattern) → All P ps → All P (sort ps)
unfolding sort
All-sort P [] h = tt
All-sort P (p ∷ ps) (x, h) = All-insert_sorted P p (sort ps) x (All-sort P ps h)

All-before :
    (P : Pattern → Type 0) (p : Pattern) (ps : List Pattern) → P p → All P ps → All P (before p ps)
unfolding before
All-before P p [] x h = (x, tt)
All-before P p (q ∷ qs) x h = elim (Bool-cases (pattern_eq p q)) [
  | inl same ↦ rw same h
  | inr other ↦ rw other (x, h)
]

All-dedup : (P : Pattern → Type 0) (ps : List Pattern) → All P ps → All P (dedup ps)
unfolding dedup
All-dedup P [] h = tt
All-dedup P (p ∷ ps) (x, h) = All-before P p (dedup ps) x (All-dedup P ps h)

parse_services-IsSafe :
    (files : Files) (raws : List RawService) {services : List Service}
    → parse_services files raws ≡ ok services
    → All (λ s. All IsSafe s.patterns) services
unfolding parse_services
parse_services-IsSafe files [] h = subst (All (λ s. All IsSafe s.patterns)) (ok-injective h) tt
parse_services-IsSafe files (raw ∷ rest) h =
    let (ps, parsed, h1) = >>=-eq-ok (parse_files files raw.name raw.domain_files) _ h in
    let (ss, others, made) = >>=-eq-ok (parse_services files rest) _ h1 in
    subst (All (λ s. All IsSafe s.patterns)) (ok-injective made) (
      All-dedup IsSafe (sort ps)
          (All-sort IsSafe ps (parse_files-IsSafe files raw.name raw.domain_files parsed)),
      parse_services-IsSafe files rest others,
    )

-- An accepted domain list has at least one pattern; what follows the `*.` of each of its wildcards has a dot with
-- something that is no dot on either side of it, and is not equal to a listed public suffix; and each of its hosts is
-- not empty and does not begin with `*`.
pub parse-IsSafe :
    (files : Files) (index : Result (List RawService) DomainsError) {list : DomainList}
    → parse files index ≡ ok list
    → (pattern_count list.services ≢ 0) × All (λ s. All IsSafe s.patterns) list.services
unfolding parse
parse-IsSafe files index h =
    let (raw, read, h0) = >>=-eq-ok index _ h in
    let (services, parsed, h1) = >>=-eq-ok (parse_services files raw) _ h0 in
    if-elim (pattern_count services == 0) _ _ h1 (λ x e. cc)
      (λ some_left e.
        subst (λ l. (pattern_count l.services ≢ 0) × All (λ s. All IsSafe s.patterns) l.services)
          (ok-injective e)
          (
            (λ zero_left. cc (sym ((==_iff (pattern_count services) 0).1 zero_left) ∙ some_left)),
            parse_services-IsSafe files raw parsed,
          ))
