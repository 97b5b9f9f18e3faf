-- ===== src/Proxy/Headers.antt =====
-- crates/cachic/src/proxy/headers.rs: the headers that pass through the cache. `HeaderName` of the `http` crate is
-- in lower case. `CacheStatus` stands in Orchestrator/Core.
pub mod Withheld
pub mod Forwarded
pub mod Preserved
pub mod Examples
use cachic.Common.{
  ℕ, Bool, true, false, not, ◌&&◌, ◌||◌, Option, none, some, List, [], ◌∷◌, ◌++◌, map,
  if◌then◌else◌,
}
use cachic.Common.Text.{codes, text_eq, trim, to_ascii_lowercase, is_empty}
use cachic.Common.Headers.{HeaderMap, header_values, to_str}
use cachic.Services.Key.{split}

abbrev pub hop_by_hop : List (List ℕ)
hop_by_hop =
    codes "connection"
    ∷ codes "keep-alive"
    ∷ codes "proxy-authenticate"
    ∷ codes "proxy-authorization"
    ∷ codes "te"
    ∷ codes "trailer"
    ∷ codes "transfer-encoding"
    ∷ codes "upgrade"
    ∷ []

abbrev pub preserved_entity : List (List ℕ)
preserved_entity =
    codes "content-type"
    ∷ codes "etag"
    ∷ codes "last-modified"
    ∷ codes "cache-control"
    ∷ codes "content-encoding"
    ∷ codes "content-language"
    ∷ codes "expires"
    ∷ []

abbrev pub credential_headers : List (List ℕ)
credential_headers = codes "authorization" ∷ codes "cookie" ∷ []

-- `names.contains(name)`.
unfoldable pub listed : List (List ℕ) → List ℕ → Bool
listed [] name = false
listed (n ∷ names) name = text_eq n name || listed names name

unfoldable pub nonempty : List (List ℕ) → List (List ℕ)
nonempty [] = []
nonempty (s ∷ rest) = let more = nonempty rest in if is_empty s then more else s ∷ more

unfoldable pub named_in : Option (List ℕ) → List (List ℕ)
unfolding nonempty
named_in none = []
named_in (some v) = nonempty (map (λ s. to_ascii_lowercase (trim s)) (split 44 v))

unfoldable pub named_in_all : List (List ℕ) → List (List ℕ)
unfolding named_in
named_in_all [] = []
named_in_all (v ∷ rest) = named_in (to_str v) ++ named_in_all rest

unfoldable pub connection_named : HeaderMap → List (List ℕ)
unfolding named_in_all
connection_named headers = named_in_all (header_values (codes "connection") headers)

unfoldable pub is_hop_by_hop : List ℕ → List (List ℕ) → Bool
unfolding listed
is_hop_by_hop name named =
    listed hop_by_hop (to_ascii_lowercase name) || listed named (to_ascii_lowercase name)

unfoldable pub eq_ignore_ascii_case : List ℕ → List ℕ → Bool
eq_ignore_ascii_case a b = text_eq (to_ascii_lowercase a) (to_ascii_lowercase b)

unfoldable pub is_credential : List (List ℕ) → List ℕ → Bool
unfolding eq_ignore_ascii_case
is_credential [] name = false
is_credential (h ∷ rest) name = eq_ignore_ascii_case name h || is_credential rest name

-- The loop of `forwarded_request_headers`, with the headers that `Connection` names.
unfoldable pub forward : List (List ℕ) → HeaderMap → HeaderMap
unfolding is_hop_by_hop is_credential
forward named [] = []
forward named ((name, value) ∷ rest) =
    let more = forward named rest in
    if is_hop_by_hop name named
    then more
    else if eq_ignore_ascii_case name (codes "host")
    then more
    else if eq_ignore_ascii_case name (codes "range")
    then more
    else if is_credential credential_headers name
    then more
    else (name, value) ∷ more

unfoldable pub forwarded_request_headers : HeaderMap → HeaderMap
unfolding forward connection_named
forwarded_request_headers client = forward (connection_named client) client

unfoldable pub append_all : List ℕ → List (List ℕ) → HeaderMap → HeaderMap
append_all name [] out = out
append_all name (v ∷ vs) out = (name, v) ∷ append_all name vs out

unfoldable pub preserve : List (List ℕ) → HeaderMap → HeaderMap
unfolding append_all
preserve [] upstream = []
preserve (name ∷ names) upstream =
    append_all name (header_values name upstream) (preserve names upstream)

unfoldable pub preserved_response_headers : HeaderMap → HeaderMap
unfolding preserve
preserved_response_headers upstream = preserve preserved_entity upstream
