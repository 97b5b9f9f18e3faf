-- ===== src/Orchestrator/Core.antt =====
-- crates/cachic/src/orchestrator/mod.rs: from a request to a plan, and from a plan to a slice. The state is that of
-- `Orchestrator`: the index, the store, the metadata cells and the fills. An uninitialised cell is as a missing one.
-- Each definition is what one task does while no other intervenes; metrics and logging are left out. The
-- database, the cache, the text of a store error and the hash are arguments.
pub mod Operations
pub mod Slicing
pub mod Fills
pub mod Versions
pub mod Planned
pub mod Memory
pub mod Examples
use cachic.Common.{
  ℕ, ◌+◌, ◌-◌, ◌*◌, ◌/◌, ◌%◌, ◌^◌, Bool, true, false, not, ◌&&◌, ◌||◌, Option, none, some, List, [],
  ◌∷◌, ltb, leb, ◌==◌, if◌then◌else◌, Result, ok, err, ◌>>=◌, ok_or, length,
}
use cachic.Common.Text.{codes, text_eq, starts_with}
use cachic.Proxy.Range
use cachic.Proxy.Range.{
  RangeSpec, from_to, from, suffix, ByteRange, RangeError, SlicePlan, parse_range, resolve, len,
  slice_extent, indices, count,
}
use cachic.Services.Key.{CacheKey, object_id}
use cachic.Store.Slice.{ObjectId, SliceKey, SliceHeader, SliceValue}
use cachic.Store.Index.{ObjectMeta, IndexError}
use cachic.Store.Index.Table.{Redb}
use cachic.Store.Index.Table
use cachic.Store.Hybrid.{Foyer}
use cachic.Upstream.Client.{
  UpstreamError, UpstreamResponse, SendError, header, content_length, content_range_total,
  is_server_error, partial_content, body_too_large, request, redirect,
}
use cachic.Upstream.Client
use cachic.Orchestrator.Validators.{Validators, matches}

-- `CacheStatus` of proxy/headers.rs, and `classify`.
pub data CacheStatus : Type 0 where
  hit miss partly bypass : CacheStatus

unfoldable pub classify : ℕ → ℕ → CacheStatus
classify resident total =
    if (total == 0) || (resident == total) then hit else if resident == 0 then miss else partly

pub record Plan : Type 0 where
  pub service : List ℕ
  pub status : ℕ
  pub wanted : ByteRange
  pub total_len : ℕ
  pub cache_status : CacheStatus
  pub meta : ObjectMeta
  pub object : ObjectId
  pub partial : Bool

-- What the closure of `slice` fails with, before foyer wraps it.
pub data FetchError : Type 0 where
  upstream_failed : UpstreamError → FetchError
  validators_changed : FetchError
  wrong_length : ℕ → ℕ → FetchError

pub data OrchestratorError : Type 0 where
  unsatisfiable : ℕ → OrchestratorError
  upstream : UpstreamError → OrchestratorError
  store : List ℕ → OrchestratorError
  no_length : OrchestratorError
  short_slice : ℕ → ℕ → ℕ → OrchestratorError
  validator_changed : Option (List ℕ) → Option (List ℕ) → OrchestratorError
  fill : OrchestratorError

unfoldable pub is_transient : UpstreamError → Bool
is_transient (body_too_large limit) = false
is_transient Client.build = false
is_transient Client.resolve = false
is_transient (request source) = source.is_timeout || (source.is_connect || source.is_request)
is_transient (Client.status s) = is_server_error s
is_transient (redirect location) = false

-- `text.contains(part)`.
unfoldable pub contains_text : List ℕ → List ℕ → Bool
contains_text part [] = starts_with part []
contains_text part (c ∷ s) = starts_with part (c ∷ s) || contains_text part s

unfoldable pub is_transient_orchestrator_error : OrchestratorError → Bool
unfolding is_transient contains_text
is_transient_orchestrator_error (unsatisfiable total) = false
is_transient_orchestrator_error (upstream e) = is_transient e
is_transient_orchestrator_error (store text) =
    contains_text (codes "timed out") text
    || (contains_text (codes "503") text || contains_text (codes "502") text)
is_transient_orchestrator_error no_length = false
is_transient_orchestrator_error (short_slice index expected actual) = false
is_transient_orchestrator_error (validator_changed had now) = false
is_transient_orchestrator_error fill = false

unfoldable pub header_for : ObjectMeta → ℕ → SliceHeader
header_for meta slice_size = record {
  slice_size = slice_size;
  total_len = meta.total_len;
  generation = meta.generation;
  etag = meta.etag;
  last_modified = meta.last_modified;
  content_type = meta.content_type;
}

unfoldable pub slice_key : Plan → ℕ → SliceKey
slice_key plan index = record {
  object = plan.object;
  generation = plan.meta.generation;
  index = index;
}

unfoldable pub validators_of : UpstreamResponse → Validators
validators_of r = record {
  etag = header r (codes "etag");
  last_modified = header r (codes "last-modified");
}

-- The header that a parsed range is; a header that does not parse asks for the whole object.
unfoldable pub parsed_spec : Result RangeSpec RangeError → Option RangeSpec
parsed_spec (ok spec) = some spec
parsed_spec (err e) = none

unfoldable pub spec_of : Option (List ℕ) → Option RangeSpec
unfolding parsed_spec
spec_of none = none
spec_of (some raw) = parsed_spec (parse_range raw)

-- `as u32` keeps the low 32 bits.
unfoldable pub probe_index : ℕ → Option RangeSpec → ℕ
probe_index slice_size none = 0
probe_index slice_size (some (suffix n)) = 0
probe_index slice_size (some (from_to start end)) = start / slice_size % 2 ^ 32
probe_index slice_size (some (from start)) = start / slice_size % 2 ^ 32

unfoldable pub whole_or_nothing : Option ByteRange → ByteRange
whole_or_nothing none = record { start = 0; end = 0 }
whole_or_nothing (some r) = r

-- The range of the object that a request wants.
unfoldable pub resolved : ℕ → Result ByteRange RangeError → Result ByteRange OrchestratorError
resolved total (ok r) = ok r
resolved total (err e) = err (unsatisfiable total)

unfoldable pub wanted_of : ℕ → Option RangeSpec → Result ByteRange OrchestratorError
unfolding whole_or_nothing resolved
wanted_of total none = ok (whole_or_nothing (Range.whole total))
wanted_of total (some spec) = resolved total (resolve spec total)

unfoldable pub total_of : UpstreamResponse → Result (ℕ × Bool) OrchestratorError
total_of r =
    if r.status == partial_content
    then (ok_or (content_range_total r) no_length >>= λ total. ok (total, false))
    else (ok_or (content_length r) no_length >>= λ total. ok (total, true))

-- The entry that a probe makes of a response.
unfoldable pub probed_meta : CacheKey → ℕ → ℕ → UpstreamResponse → ℕ × Bool → ObjectMeta
unfolding validators_of
probed_meta key now generation r (total, no_ranges) = record {
  key = key.key;
  total_len = total;
  generation = generation;
  etag = header r (codes "etag");
  last_modified = header r (codes "last-modified");
  content_type = header r (codes "content-type");
  no_ranges = no_ranges;
  created = now;
  last_seen = now;
  stale = false;
}
