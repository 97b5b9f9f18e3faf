-- ===== src/Services/Key/Collapse.antt =====
-- Which requests share a key.
use cachic.Common.{
  ℕ, ◌≡◌, ◌↔◌, refl, ap, false, Option, none, some, List, [], ◌∷◌, ◌++◌, append-nil, arith,
}
use cachic.Common.Text.{contains, split_once}
use cachic.Common.Text.Laws.{split_once-append}
use cachic.Services.Key.{
  CacheKey, CompiledRule, split_target, parts_or_whole, normalise_path, normalise,
}

split_target-query :
    (path query : List ℕ)
    → contains 63 path ≡ false
    → split_target (path ++ 63 ∷ query) ≡ (path, some query)
unfolding split_target parts_or_whole
split_target-query path query h =
    ap (parts_or_whole (path ++ 63 ∷ query)) (split_once-append 63 path query h)

split_once_absent : (c : ℕ) (s : List ℕ) → contains c s ≡ false → split_once c s ≡ none
unfolding split_once contains
split_once_absent c [] h = refl
split_once_absent c (b ∷ s) h = ground (arith, split_once_absent c s)

split_target-whole : (path : List ℕ) → contains 63 path ≡ false → split_target path ≡ (path, none)
unfolding split_target
split_target-whole path h = rw (split_once_absent 63 path h) (unfold parts_or_whole in refl)

-- A request's target: its path, and a query if there is one.
abbrev pub target_of : List ℕ → Option (List ℕ) → List ℕ
target_of path none = path
target_of path (some query) = path ++ 63 ∷ query

split_target-target_of :
    (path : List ℕ) (query : Option (List ℕ))
    → contains 63 path ≡ false
    → split_target (target_of path query) ≡ (path, query)
split_target-target_of path none h = split_target-whole path h
split_target-target_of path (some query) h = split_target-query path query h

normalise-target_of :
    (service host path : List ℕ) (query : Option (List ℕ)) (rule : CompiledRule)
    → rule.keep_query ≡ false
    → rule.include_host ≡ false
    → contains 63 path ≡ false
    → normalise service host (target_of path query) rule
      ≡ record { key = normalise_path path; service = service }
unfolding normalise
normalise-target_of service host path query rule h k j =
    rw (split_target-target_of path query j, h, k, append-nil (normalise_path path)) refl

abbrev key_at : List ℕ → List ℕ → CacheKey
key_at service key = record { key = key; service = service }

-- Under a rule that keeps neither the query nor the host, two requests of a service, on any hosts and each with or
-- without a query, have the same key exactly if their paths, which have no `?`, are the same once normalised.
pub normalise_collapses :
    (service host host' path path' : List ℕ) (query query' : Option (List ℕ)) (rule : CompiledRule)
    → rule.keep_query ≡ false
    → rule.include_host ≡ false
    → contains 63 path ≡ false
    → contains 63 path' ≡ false
    → (normalise service host (target_of path query) rule
        ≡ normalise service host' (target_of path' query') rule)
      ↔ (normalise_path path ≡ normalise_path path')
normalise_collapses service host host' path path' query query' rule h k j j' =
    rw
      (
        normalise-target_of service host path query rule h k j,
        normalise-target_of service host' path' query' rule h k j',
      )
      ((λ same. ap (λ c. c.key) same), (λ same. ap (key_at service) same))
