-- ===== src/Services/Key.antt =====
-- crates/cachic/src/services/key.rs: the cache key of a request, with `normalise_host` of
-- services/matcher.rs. A compiled `RegexSet` is the function
-- `is_match` of it.
pub mod Segments
pub mod Path
pub mod Preimage
pub mod Collapse
pub mod Examples
use cachic.Common.{
  ℕ, zero, suc, ◌+◌, ◌-◌, ◌*◌, Bool, true, false, not, ◌||◌, Option, none, some, List, [], ◌∷◌,
  ◌++◌, reverse, leb, ◌==◌, ◌&&◌, if◌then◌else◌, take, all,
}
use cachic.Common.Text.{
  text_eq, contains, split_once, is_empty, utf8, strip_prefix, rsplit_once, trim, trim_end_matches,
  to_ascii_lowercase, is_ascii_digit,
}

-- The `hex` of `percent_decode`.
unfoldable pub hex : ℕ → Option ℕ
hex b =
    if leb 48 b && leb b 57
    then some (b - 48)
    else if leb 97 b && leb b 102
    then some (b - 97 + 10)
    else if leb 65 b && leb b 70
    then some (b - 65 + 10)
    else none

-- What is pushed for a `%`: the byte of two hexadecimal digits and what follows them, or the `%` itself and
-- what follows it.
unfoldable pub escaped : Option ℕ → Option ℕ → List ℕ → List ℕ → List ℕ
escaped (some hi) (some lo) skipped kept = (hi * 16 + lo) ∷ skipped
escaped (some hi) none skipped kept = 37 ∷ kept
escaped none lo skipped kept = 37 ∷ kept

-- The loop of `percent_decode`, from position `i` on.
unfoldable pub decode_from : List ℕ → List ℕ
unfolding hex escaped
decode_from [] = []
decode_from (c ∷ []) = c ∷ []
decode_from (c ∷ a ∷ []) = c ∷ a ∷ []
decode_from (c ∷ a ∷ b ∷ s) =
    let skipped = decode_from s in
    let kept = decode_from (a ∷ b ∷ s) in
    if c == 37 then escaped (hex a) (hex b) skipped kept else c ∷ kept

unfoldable pub percent_decode : List ℕ → List ℕ
unfolding decode_from
percent_decode input =
    if contains 37 input
    then (let out = decode_from input in if utf8 out then out else input)
    else input

unfoldable pub cons_first : ℕ → List (List ℕ) → List (List ℕ)
cons_first c [] = (c ∷ []) ∷ []
cons_first c (first ∷ rest) = (c ∷ first) ∷ rest

-- `split(sep)`: the pieces between the separators, at least one.
unfoldable pub split : ℕ → List ℕ → List (List ℕ)
unfolding cons_first
split sep [] = [] ∷ []
split sep (c ∷ s) = let rest = split sep s in if c == sep then [] ∷ rest else cons_first c rest

unfoldable pub pop : List (List ℕ) → List (List ℕ)
pop [] = []
pop (last ∷ segments) = segments

-- One segment of the loop of `normalise_path`; the vector of segments, its last one first.
unfoldable pub step : List ℕ → List (List ℕ) → List (List ℕ)
unfolding pop
step segment segments =
    if is_empty segment || text_eq segment (46 ∷ [])
    then segments
    else if text_eq segment (46 ∷ 46 ∷ [])
    then pop segments
    else segment ∷ segments

unfoldable pub resolve_segments : List (List ℕ) → List (List ℕ) → List (List ℕ)
unfolding step
resolve_segments segments [] = reverse segments
resolve_segments segments (segment ∷ rest) = resolve_segments (step segment segments) rest

unfoldable pub join : List (List ℕ) → List ℕ
join [] = []
join (segment ∷ segments) = 47 ∷ segment ++ join segments

unfoldable pub ends_with : ℕ → List ℕ → Bool
ends_with c [] = false
ends_with c (a ∷ []) = a == c
ends_with c (a ∷ b ∷ s) = ends_with c (b ∷ s)

-- `normalise_path` of the decoded path.
unfoldable pub normalise_decoded : List ℕ → List ℕ
unfolding split resolve_segments join ends_with
normalise_decoded decoded =
    let out = join (resolve_segments [] (split 47 decoded)) in
    if is_empty out then 47 ∷ [] else if ends_with 47 decoded then out ++ 47 ∷ [] else out

unfoldable pub normalise_path : List ℕ → List ℕ
unfolding percent_decode normalise_decoded
normalise_path path = normalise_decoded (percent_decode path)

unfoldable pub parts_or_whole : List ℕ → Option (List ℕ × List ℕ) → List ℕ × Option (List ℕ)
parts_or_whole target none = (target, none)
parts_or_whole target (some (path, query)) = (path, some query)

unfoldable pub split_target : List ℕ → List ℕ × Option (List ℕ)
unfolding parts_or_whole
split_target target = parts_or_whole target (split_once 63 target)

-- What is left of a host in front of its port.
unfoldable pub without_port : List ℕ → List ℕ
without_port host = elim (strip_prefix (91 ∷ []) host) [
  | some rest ↦ (elim (split_once 93 rest) [ some (inner, after) ↦ inner | none ↦ rest ])
  | none ↦ (elim (rsplit_once 58 host) [
    | some (before, after) ↦ if all is_ascii_digit after then before else host
    | none ↦ host
  ])
]

-- `Matcher::normalise_host`.
unfoldable pub normalise_host : List ℕ → List ℕ
unfolding without_port
normalise_host host = to_ascii_lowercase (trim_end_matches 46 (without_port (trim host)))

pub record CompiledRule : Type 0 where
  pub keep_query : Bool
  pub include_host : Bool
  pub upstream_https : Bool
  pub include : Option (List ℕ → Bool)
  pub exclude : Option (List ℕ → Bool)

unfoldable pub excluded : Option (List ℕ → Bool) → List ℕ → Bool
excluded none path = false
excluded (some is_match) path = is_match path

unfoldable pub included : Option (List ℕ → Bool) → List ℕ → Bool
included none path = true
included (some is_match) path = is_match path

unfoldable pub is_cacheable : CompiledRule → List ℕ → Bool
unfolding excluded included
is_cacheable rule path = if excluded rule.exclude path then false else included rule.include path

-- The query as it is appended to a key.
unfoldable pub kept_query : Option (List ℕ) → List ℕ
kept_query none = []
kept_query (some query) = 63 ∷ query

pub record CacheKey : Type 0 where
  pub key : List ℕ
  pub service : List ℕ

-- The bytes that `object_id` hashes.
unfoldable pub preimage : CacheKey → List ℕ
preimage k = k.service ++ 0 ∷ k.key

-- `blake3` is the hash of the bytes that the hasher has been given.
unfoldable pub object_id : (List ℕ → List ℕ) → CacheKey → List ℕ
unfolding preimage
object_id blake3 k = take 16 (blake3 (preimage k))

unfoldable pub normalise : List ℕ → List ℕ → List ℕ → CompiledRule → CacheKey
unfolding split_target normalise_host normalise_path kept_query
normalise service host target rule =
    let (path, query) = split_target target in
    record {
      key =
          ((if rule.include_host then normalise_host host else []) ++ normalise_path path)
          ++ (if rule.keep_query then kept_query query else []);
      service = service;
    }
