-- ===== src/Services/Key/Examples.antt =====
-- The theorems on cache keys at concrete requests.
use cachic.Common.{◌≡◌, ◌↔◌, refl, false, none, some, ◌∷◌, ◌++◌}
use cachic.Common.Text.{codes, contains, is_empty, text_eq}
use cachic.Services.Key.{CacheKey, CompiledRule, normalise_path, normalise}
use cachic.Services.Key.Segments.{IsSegment}
use cachic.Services.Key.Path.{IsCanonical, normalise_path-IsCanonical}
use cachic.Services.Key.Preimage.{preimage-injective}
use cachic.Services.Key.Collapse.{normalise_collapses}

normalise_path-IsCanonical_example : IsCanonical (normalise_path (codes "/a//../b%41/"))
normalise_path-IsCanonical_example = normalise_path-IsCanonical (codes "/a//../b%41/")

depot_IsSegment : IsSegment (codes "depot")
unfolding contains is_empty text_eq
depot_IsSegment = record { whole = refl; named = refl; no_parent = refl }

abbrev steam_key : CacheKey
steam_key = record { key = codes "/depot"; service = codes "steam" }

preimage-injective_example : steam_key ≡ steam_key
preimage-injective_example =
    preimage-injective steam_key steam_key (unfold contains in refl) (unfold contains in refl) refl

abbrev plain_rule : CompiledRule
plain_rule = record {
  keep_query = false;
  include_host = false;
  upstream_https = false;
  include = none;
  exclude = none;
}

normalise_collapses_example :
    (normalise (codes "steam") (codes "cdn1.example.com") (codes "/depot/a") plain_rule
      ≡ normalise
          (codes "steam")
          (codes "cdn2.example.com")
          (codes "/depot/./a" ++ 63 ∷ codes "token=a")
          plain_rule)
    ↔ (normalise_path (codes "/depot/a") ≡ normalise_path (codes "/depot/./a"))
normalise_collapses_example =
    normalise_collapses (codes "steam") (codes "cdn1.example.com") (codes "cdn2.example.com")
      (codes "/depot/a") (codes "/depot/./a") none (some (codes "token=a")) plain_rule refl refl
      (unfold contains in refl) (unfold contains in refl)
