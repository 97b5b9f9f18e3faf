-- ===== src/Orchestrator/Core/Examples.antt =====
-- The theorems on the orchestrator's state at concrete inputs, over a store that is a list.
use cachic.Common.{
  ℕ, ◌+◌, ◌*◌, ◌≤◌, ◌≡◌, refl, sym, ap, ◌∙◌, subst, Bool, true, false, if-elim, ◌&&◌, ◌||◌, ◌==◌,
  ==_iff, ◌⊎◌, inl, inr, Option, none, some, List, [], ◌∷◌, ◌++◌, take, if◌then◌else◌, Result, ok,
  err, ok-injective, arith,
}
use cachic.Common.Text.{codes, text_eq}
use cachic.Services.Key.{CacheKey}
use cachic.Common.Words.{IsU32}
use cachic.Orchestrator.Filler.{Reason, abandoned}
use cachic.Store.Slice.{SliceValue}
use cachic.Store.Index.{ObjectMeta}
use cachic.Store.Index.Encoding.{IsMeta}
use cachic.Store.Index.Examples.{table}
use cachic.Store.Index.Table
use cachic.Upstream.Client.{UpstreamError, UpstreamResponse}
use cachic.Orchestrator.Core.{miss, total_of, probed_meta, FetchError, Plan, header_for}
use cachic.Store.Index.Table.Laws.{get-put_self}
use cachic.Orchestrator.Validators.{matches}
use cachic.Orchestrator.Core.{slice_key, validators_of, validator_changed}
use cachic.Orchestrator.Core.Slicing.{slice_ranged}
use cachic.Orchestrator.Core.Slicing.Changed.{
  checked-changed, discovered, Invalidated, Unchanged, expected, slice_ranged-changed,
}
use cachic.Orchestrator.Core.Slicing.Source.{Fetched, slice_ranged-source}
use cachic.Orchestrator.Core.Operations.{Upstream, State, plan}
use cachic.Orchestrator.Core.Fills.{slice}
use cachic.Orchestrator.Core.Versions.{issued, IsEmpty, Storable, plans, Steps, done, after}
use cachic.Orchestrator.Core.Versions.Served.{slice-one_version}
use cachic.Orchestrator.Core.Memory.{memory}

abbrev pub start : State table memory 4
start = record {
  index = [];
  slices = [];
  metadata = λ o. none;
  fills = record { fills = []; channels = [] };
}

abbrev pub partial_response : UpstreamResponse
partial_response = record {
  status = 206;
  headers = (codes "content-range", codes "bytes 0-2/3") ∷ (codes "etag", codes "v1") ∷ [];
  body = 1 ∷ 2 ∷ 3 ∷ [];
}

abbrev pub origin : Upstream
origin a b = ok partial_response

abbrev key : CacheKey
key = record { key = codes "/depot"; service = codes "steam" }

abbrev pub identity : List ℕ → List ℕ
identity s = s

abbrev pub probed : ObjectMeta
probed = record {
  key = codes "/depot";
  total_len = 3;
  generation = 0;
  etag = some (codes "v1");
  last_modified = none;
  content_type = none;
  no_ranges = false;
  created = 9;
  last_seen = 9;
  stale = false;
}

abbrev pub planned : Plan
planned = record {
  service = codes "steam";
  status = 200;
  wanted = record { start = 0; end = 2 };
  total_len = 3;
  cache_status = miss;
  meta = probed;
  object = take 16 (codes "steam" ++ 0 ∷ codes "/depot");
  partial = false;
}

plan_first : (plan table memory 4 identity key none 9 origin start).0 ≡ ok planned
unfolding plan cachic.Store.Index.Table.get cachic.Orchestrator.Core.total_of
    cachic.Upstream.Client.content_range_total cachic.Common.Headers.header_value text_eq
    cachic.Common.Headers.to_str cachic.Common.Text.rsplit_once cachic.Common.Decimal.parse_u64
    cachic.Common.Text.trim cachic.Common.Decimal.digits_value cachic.Orchestrator.Core.wanted_of
    cachic.Orchestrator.Core.spec_of cachic.Proxy.Range.whole cachic.Orchestrator.Core.probed_meta
    cachic.Services.Key.object_id cachic.Orchestrator.Core.classify cachic.Proxy.Range.count
    cachic.Proxy.Range.plan cachic.Orchestrator.Core.probe_index cachic.Common.Text.is_ascii_digit
    cachic.Common.Text.is_empty cachic.Common.Text.skip_space cachic.Common.Text.space_len
    cachic.Common.Text.trim_end cachic.Common.Text.trim_start
    cachic.Orchestrator.Core.Operations.cache_status_of
    cachic.Orchestrator.Core.Operations.count_stored cachic.Orchestrator.Core.Operations.from_cell
    cachic.Orchestrator.Core.Operations.from_index cachic.Orchestrator.Core.Operations.is_some_spec
    cachic.Orchestrator.Core.Operations.make_plan cachic.Orchestrator.Core.Operations.metadata_of
    cachic.Orchestrator.Core.Operations.plan_parsed cachic.Orchestrator.Core.Operations.plan_wanted
    cachic.Orchestrator.Core.Operations.previous_generation
    cachic.Orchestrator.Core.Operations.probe cachic.Orchestrator.Core.Operations.probe_answer
    cachic.Orchestrator.Core.Operations.record_probe
    cachic.Orchestrator.Core.Operations.resident_before cachic.Orchestrator.Core.Operations.set_cell
    cachic.Orchestrator.Core.Operations.usable header_for cachic.Orchestrator.Core.whole_or_nothing
    cachic.Proxy.Range.indices cachic.Proxy.Range.up_from cachic.Services.Key.preimage
    cachic.Store.Index.Table.decoded cachic.Store.Index.Table.put cachic.Upstream.Client.header
    cachic.Upstream.Client.text_header
plan_first = refl

abbrev after_plan : State table memory 4
after_plan = (plan table memory 4 identity key none 9 origin start).1

abbrev held : SliceValue
held = record { header = header_for probed 4; payload = 1 ∷ 2 ∷ 3 ∷ [] }

abbrev no_text : UpstreamError → Reason
no_text e = abandoned

slice_first :
    (slice table memory 4 false no_text planned 0 origin (ok ([], [])) [] after_plan).0 ≡ ok held
unfolding plan cachic.Store.Index.Table.get cachic.Orchestrator.Core.total_of
    cachic.Upstream.Client.content_range_total cachic.Common.Headers.header_value text_eq
    cachic.Common.Headers.to_str cachic.Common.Text.rsplit_once cachic.Common.Decimal.parse_u64
    cachic.Common.Text.trim cachic.Common.Decimal.digits_value cachic.Orchestrator.Core.wanted_of
    cachic.Orchestrator.Core.spec_of cachic.Proxy.Range.whole cachic.Orchestrator.Core.probed_meta
    cachic.Services.Key.object_id cachic.Orchestrator.Core.classify cachic.Proxy.Range.count
    cachic.Proxy.Range.plan cachic.Orchestrator.Core.probe_index cachic.Common.Text.is_ascii_digit
    cachic.Common.Text.is_empty cachic.Common.Text.skip_space cachic.Common.Text.space_len
    cachic.Common.Text.trim_end cachic.Common.Text.trim_start
    cachic.Orchestrator.Core.Operations.cache_status_of
    cachic.Orchestrator.Core.Operations.count_stored cachic.Orchestrator.Core.Operations.from_cell
    cachic.Orchestrator.Core.Operations.from_index cachic.Orchestrator.Core.Operations.is_some_spec
    cachic.Orchestrator.Core.Operations.make_plan cachic.Orchestrator.Core.Operations.metadata_of
    cachic.Orchestrator.Core.Operations.plan_parsed cachic.Orchestrator.Core.Operations.plan_wanted
    cachic.Orchestrator.Core.Operations.previous_generation
    cachic.Orchestrator.Core.Operations.probe cachic.Orchestrator.Core.Operations.probe_answer
    cachic.Orchestrator.Core.Operations.record_probe
    cachic.Orchestrator.Core.Operations.resident_before cachic.Orchestrator.Core.Operations.set_cell
    cachic.Orchestrator.Core.Operations.usable header_for cachic.Orchestrator.Core.whole_or_nothing
    cachic.Proxy.Range.indices cachic.Proxy.Range.up_from cachic.Services.Key.preimage
    cachic.Store.Index.Table.decoded cachic.Store.Index.Table.put cachic.Upstream.Client.header
    cachic.Upstream.Client.text_header slice cachic.Orchestrator.Core.slice_key
slice_first = refl

total_known : total_of partial_response ≡ ok (3, false)
unfolding cachic.Orchestrator.Core.total_of cachic.Upstream.Client.content_range_total
    cachic.Common.Headers.header_value text_eq cachic.Common.Headers.to_str
    cachic.Common.Text.rsplit_once cachic.Common.Decimal.parse_u64 cachic.Common.Text.trim
    cachic.Common.Decimal.digits_value cachic.Common.Text.is_ascii_digit cachic.Common.Text.is_empty
    cachic.Common.Text.skip_space cachic.Common.Text.space_len cachic.Common.Text.trim_end
    cachic.Common.Text.trim_start cachic.Upstream.Client.header cachic.Upstream.Client.text_header
total_known = refl

fits-IsMeta : (g : ℕ) → IsU32 g → IsMeta (probed_meta key 9 g partial_response (3, false))
unfolding cachic.Orchestrator.Core.total_of cachic.Upstream.Client.content_range_total
    cachic.Common.Headers.header_value text_eq cachic.Common.Headers.to_str
    cachic.Common.Text.rsplit_once cachic.Common.Decimal.parse_u64 cachic.Common.Text.trim
    cachic.Common.Decimal.digits_value cachic.Common.Text.is_ascii_digit cachic.Common.Text.is_empty
    cachic.Common.Text.skip_space cachic.Common.Text.space_len cachic.Common.Text.trim_end
    cachic.Common.Text.trim_start cachic.Upstream.Client.header cachic.Upstream.Client.text_header
    cachic.Orchestrator.Core.probed_meta cachic.Common.Text.utf8
fits-IsMeta g small = record {
  total_len = omega arith;
  generation = small;
  created = omega arith;
  last_seen = omega arith;
  key = (omega arith, refl);
  etag = (omega arith, refl);
  last_modified = tt;
  content_type = tt;
}

total-IsMeta :
    (g : ℕ) (r : UpstreamResponse) (t : ℕ × Bool)
    → IsU32 g
    → partial_response ≡ r
    → total_of r ≡ ok t
    → IsMeta (probed_meta key 9 g r t)
total-IsMeta g r t small same total =
    subst (λ x. IsMeta (probed_meta key 9 g x t)) same
      (subst (λ y. IsMeta (probed_meta key 9 g partial_response y))
        (ok-injective (sym total_known ∙ (ap total_of same ∙ total))) (fits-IsMeta g small))

key-Storable : Storable key 9 origin
key-Storable a b g r t small answers total = total-IsMeta g r t small (ok-injective answers) total

start-IsEmpty : IsEmpty table memory 4 start
unfolding cachic.Store.Index.Table.get cachic.Store.Index.Table.decoded
start-IsEmpty = record { no_entry = λ o. refl; no_cell = λ o. refl; no_slice = λ k. refl }

first_plan : Steps table memory 4 identity 0 start [] 0 after_plan (planned ∷ [])
unfolding issued
first_plan =
    subst (λ a. Steps table memory 4 identity 0 start [] 0 after_plan (issued a [])) plan_first
      (after (plans 0 key none 9 origin start [] (omega arith) key-Storable) done)

slice-one_version_example : held.header ≡ header_for probed 4
slice-one_version_example =
    slice-one_version table memory 4 identity start after_plan [] planned [] 0 false no_text 0
      origin (ok ([], [])) [] held start-IsEmpty first_plan (omega arith) slice_first

-- The first slice fetched into an empty store.
fetch_first : (slice_ranged table memory 4 false planned 0 origin start).0 ≡ ok held
unfolding slice_ranged matches cachic.Orchestrator.Core.Slicing.checked
    cachic.Orchestrator.Core.Slicing.after_fetch cachic.Orchestrator.Core.validators_of
    cachic.Upstream.Client.header cachic.Upstream.Client.text_header
    cachic.Common.Headers.header_value cachic.Common.Headers.to_str text_eq
    cachic.Proxy.Range.slice_extent cachic.Proxy.Range.len cachic.Orchestrator.Core.slice_key
    header_for cachic.Orchestrator.Validators.matches_etag
    cachic.Orchestrator.Validators.matches_modified cachic.Orchestrator.Validators.strong_eq
    cachic.Orchestrator.Validators.is_weak cachic.Orchestrator.Validators.is_silent
    cachic.Common.Text.starts_with
fetch_first = refl

slice_ranged-source_example :
    (memory.get start.slices (slice_key planned 0) ≡ ok (some held))
    ⊎ Fetched 4 planned 0 origin held
slice_ranged-source_example =
    slice_ranged-source table memory 4 false planned 0 origin start fetch_first

-- The same with the entry in the index, and an origin that has another version.
abbrev known : State table memory 4
known = record start { index = Table.put table planned.object probed [] }

abbrev moved : UpstreamResponse
moved = record partial_response { headers = (codes "etag", codes "v2") ∷ [] }

probed-IsMeta : IsMeta probed
unfolding cachic.Common.Text.utf8
probed-IsMeta = record {
  total_len = omega arith;
  generation = omega arith;
  created = omega arith;
  last_seen = omega arith;
  key = (omega arith, refl);
  etag = (omega arith, refl);
  last_modified = tt;
  content_type = tt;
}

known_entry : Table.get table planned.object known.index ≡ ok (some probed)
known_entry = get-put_self table planned.object probed [] probed-IsMeta

validators_moved : matches (expected planned) (validators_of moved) ≡ false
unfolding matches cachic.Orchestrator.Core.Slicing.checked
    cachic.Orchestrator.Core.Slicing.after_fetch cachic.Orchestrator.Core.validators_of
    cachic.Upstream.Client.header cachic.Upstream.Client.text_header
    cachic.Common.Headers.header_value cachic.Common.Headers.to_str text_eq
    cachic.Proxy.Range.slice_extent cachic.Proxy.Range.len cachic.Orchestrator.Core.slice_key
    header_for cachic.Orchestrator.Validators.matches_etag
    cachic.Orchestrator.Validators.matches_modified cachic.Orchestrator.Validators.strong_eq
    cachic.Orchestrator.Validators.is_weak cachic.Orchestrator.Validators.is_silent
    cachic.Common.Text.starts_with
validators_moved = refl

abbrev changed_text : Result SliceValue (List ℕ)
changed_text = err []

slice_ranged-changed_example :
    ((discovered changed_text true (matches (expected planned) (validators_of moved)) ≡ true)
      × Invalidated table memory 4 planned moved probed key 10 0 origin
          (slice_ranged table memory 4 false planned 0 (λ a b. ok moved) known))
    ⊎ ((discovered changed_text true (matches (expected planned) (validators_of moved)) ≡ false)
        × Unchanged table memory 4 known
            (slice_ranged table memory 4 false planned 0 (λ a b. ok moved) known).1)
slice_ranged-changed_example =
    slice_ranged-changed table memory 4 false planned 0 (λ a b. ok moved) known probed moved
      changed_text true [] key 10 0 origin probed-IsMeta known_entry refl
      (rw (checked-changed 4 planned 0 moved validators_moved) refl)
