-- ===== src/Services/Matcher.antt =====
-- crates/cachic/src/services/matcher.rs: which service a host belongs to. A hash map is a list in which the newest
-- entry of a key stands first; `normalise_host` stands in Services/Key.
pub mod Longest
pub mod Built
pub mod Chosen
use cachic.Common.{
  ℕ, zero, suc, ◌+◌, Bool, true, false, Option, none, some, List, [], ◌∷◌, ◌++◌, ◌==◌,
  if◌then◌else◌,
}
use cachic.Common.Text.{text_eq, is_empty}
use cachic.Services.Key.{normalise_host}
use cachic.Services.Domains.{Pattern, exact, suffix, Service, DomainList}

abbrev pub HashMap : Type 0
HashMap = List (List ℕ × ℕ)

unfoldable pub get : List ℕ → HashMap → Option ℕ
get k [] = none
get k ((j, v) ∷ rest) = if text_eq j k then some v else get k rest

-- The fields `exact`, `suffix` and `names`.
pub record Matcher : Type 0 where
  pub exact_hosts : HashMap
  pub suffixes : HashMap
  pub names : List (List ℕ)

unfoldable pub insert_pattern : ℕ → Pattern → Matcher → Matcher
insert_pattern index (exact host) m = record m { exact_hosts = (host, index) ∷ m.exact_hosts }
insert_pattern index (suffix parent) m = record m { suffixes = (parent, index) ∷ m.suffixes }

unfoldable pub insert_patterns : ℕ → List Pattern → Matcher → Matcher
unfolding insert_pattern
insert_patterns index [] m = m
insert_patterns index (p ∷ ps) m = insert_patterns index ps (insert_pattern index p m)

unfoldable pub build_from : ℕ → List Service → Matcher → Matcher
unfolding insert_patterns
build_from index [] m = m
build_from index (s ∷ rest) m =
    build_from (index + 1) rest
      (insert_patterns index s.patterns (record m { names = m.names ++ s.name ∷ [] }))

unfoldable pub build : DomainList → Matcher
unfolding build_from
build list = build_from 0 list.services (record { exact_hosts = []; suffixes = []; names = [] })

unfoldable pub name_at : ℕ → List (List ℕ) → Option (List ℕ)
name_at n [] = none
name_at zero (x ∷ xs) = some x
name_at (suc n) (x ∷ xs) = name_at n xs

unfoldable pub found_or : Option ℕ → Option ℕ → Option ℕ
found_or (some v) later = some v
found_or none later = later

-- The walk up the parents, byte by byte: `split_once('.')` finds the next dot, and the text after it is looked up.
unfoldable pub walk : HashMap → List ℕ → Option ℕ
unfolding get found_or
walk suffixes [] = none
walk suffixes (c ∷ parent) =
    let later = walk suffixes parent in
    if c == 46
    then (if is_empty parent then none else found_or (get parent suffixes) later)
    else later

unfoldable pub index_for : Matcher → List ℕ → Option ℕ
unfolding walk found_or
index_for m host =
    if is_empty host then none else found_or (get host m.exact_hosts) (walk m.suffixes host)

unfoldable pub named : Matcher → Option ℕ → Option (List ℕ)
unfolding name_at
named m none = none
named m (some index) = name_at index m.names

unfoldable pub service_for : Matcher → List ℕ → Option (List ℕ)
unfolding index_for named
service_for m host = named m (index_for m (normalise_host host))
