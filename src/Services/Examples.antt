-- ===== src/Services/Examples.antt =====
-- The theorems on domain lists and hosts at concrete ones.
use cachic.Common.{
  ℕ, ◌+◌, ◌≤◌, ◌≡◌, ◌≢◌, refl, true, false, Option, none, some, List, [], ◌∷◌, ◌++◌, Result, ok,
  err, All, length, arith,
}
use cachic.Common.Text.{codes, text_eq, is_empty}
use cachic.Services.Key.{normalise_host}
use cachic.Services.Domains.{
  DomainsError, Pattern, suffix, Files, RawService, DomainList, parse, pattern_count,
}
use cachic.Services.Domains.Listed.{IsSafe, parse-IsSafe}
use cachic.Services.Matcher.{build, service_for}
use cachic.Services.Matcher.Longest.{Matches, text_of}
use cachic.Services.Matcher.Built.{Offers, this, first}
use cachic.Services.Matcher.Chosen.{service_for-longest, service_for-none}

abbrev files : Files
files = (codes "b.txt", codes "# b" ++ 10 ∷ codes "*.b.com" ++ 10 ∷ []) ∷ []

abbrev index : Result (List RawService) DomainsError
index = ok (record { name = codes "b"; description = []; domain_files = codes "b.txt" ∷ [] } ∷ [])

abbrev parsed : DomainList
parsed = record {
  services =
      record { name = codes "b"; description = []; patterns = suffix (codes "b.com") ∷ [] } ∷ [];
}

parse_files : parse files index ≡ ok parsed
unfolding parse text_eq cachic.Services.Key.split is_empty cachic.Common.Text.trim
    cachic.Common.Text.starts_with cachic.Common.Text.to_ascii_lowercase
    cachic.Common.Text.trim_end_matches cachic.Common.Text.strip_prefix
parse_files = refl

parse-IsSafe_example :
    (pattern_count parsed.services ≢ 0) × All (λ s. All IsSafe s.patterns) parsed.services
parse-IsSafe_example = parse-IsSafe files index parse_files

-- A service with all of b.com, and one with a part of it.
abbrev two : DomainList
two = record {
  services =
      record { name = codes "b"; description = []; patterns = suffix (codes "b.com") ∷ [] }
      ∷ record { name = codes "c"; description = []; patterns = suffix (codes "c.b.com") ∷ [] }
      ∷ [];
}

service_part : service_for (build two) (codes "X.c.b.com:80") ≡ some (codes "c")
unfolding service_for build text_eq normalise_host cachic.Common.Text.trim
    cachic.Common.Text.to_ascii_lowercase cachic.Common.Text.trim_end_matches
    cachic.Common.Text.rsplit_once cachic.Common.Text.is_ascii_digit cachic.Common.Text.strip_prefix
    cachic.Common.Text.split_once is_empty
service_part = refl

service_for-longest_example :
    (i : ℕ) × (p : Pattern) × Offers 0 two.services i (codes "c") p
    × Matches p (normalise_host (codes "X.c.b.com:80"))
    × ((j : ℕ) (n : List ℕ) (q : Pattern)
        → Offers 0 two.services j n q
        → Matches q (normalise_host (codes "X.c.b.com:80"))
        → length (text_of q) ≤ length (text_of p))
service_for-longest_example = service_for-longest two (codes "X.c.b.com:80") service_part

unlisted : service_for (build two) (codes "b.com") ≡ none
unfolding service_for build text_eq normalise_host cachic.Common.Text.trim
    cachic.Common.Text.to_ascii_lowercase cachic.Common.Text.trim_end_matches
    cachic.Common.Text.rsplit_once cachic.Common.Text.is_ascii_digit cachic.Common.Text.strip_prefix
    cachic.Common.Text.split_once is_empty
unlisted = refl

full : is_empty (normalise_host (codes "b.com")) ≡ false
unfolding normalise_host cachic.Common.Text.trim cachic.Common.Text.to_ascii_lowercase
    cachic.Common.Text.trim_end_matches cachic.Common.Text.rsplit_once
    cachic.Common.Text.is_ascii_digit cachic.Common.Text.strip_prefix cachic.Common.Text.split_once
    is_empty
full = refl

service_for-none_example : ¬ Matches (suffix (codes "b.com")) (normalise_host (codes "b.com"))
service_for-none_example =
    service_for-none two (codes "b.com") full unlisted 0 (codes "b") (suffix (codes "b.com"))
      (this 0 _ _ (suffix (codes "b.com")) (first _ _))
