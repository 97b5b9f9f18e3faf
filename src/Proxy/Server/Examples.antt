-- ===== src/Proxy/Server/Examples.antt =====
-- The theorem on the handler at a concrete request.
use cachic.Common.{ℕ, ◌≡◌, refl, true, false, Option, none, some, List, [], ◌∷◌, ok}
use cachic.Common.Text.{codes}
use cachic.Common.Headers.{HeaderMap}
use cachic.Services.Matcher.{build}
use cachic.Store.Index.Examples.{table}
use cachic.Proxy.Server.{get, Request, Response, planned, ServerConfig, planned_response, serve}
use cachic.Proxy.Server.Framed.{IsFramed, serve-IsFramed}
use cachic.Orchestrator.Core.Operations.{Upstream}
use cachic.Orchestrator.Core.Examples
use cachic.Orchestrator.Core.Memory.{memory}
use cachic.Orchestrator.Core.Examples.{start, identity, partial_response}

abbrev config : ServerConfig
config = record {
  hostname = codes "cache";
  passthrough_unknown_hosts = false;
  allow_host_port = false;
  matcher = record {
    exact_hosts = (codes "cdn", 0) ∷ [];
    suffixes = [];
    names = codes "steam" ∷ [];
  };
  compiled = [];
}

abbrev request : Request
request = record {
  method = get;
  path = codes "/depot";
  target = some (codes "/depot");
  headers = (codes "host", codes "cdn") ∷ [];
}

abbrev origins : List ℕ → HeaderMap → Upstream
origins url headers = Examples.origin

abbrev response : Response
response = planned_response (λ v. true) (codes "cache") (codes "steam") false Examples.planned

served : (serve table memory 4 identity (λ v. true) 9 config request origins start).0 ≡ ok response
unfolding cachic.Orchestrator.Core.Operations.plan cachic.Store.Index.Table.get
    cachic.Orchestrator.Core.total_of cachic.Upstream.Client.content_range_total
    cachic.Common.Headers.header_value cachic.Common.Text.text_eq cachic.Common.Headers.to_str
    cachic.Common.Text.rsplit_once cachic.Common.Decimal.parse_u64 cachic.Common.Text.trim
    cachic.Common.Decimal.digits_value cachic.Orchestrator.Core.wanted_of
    cachic.Orchestrator.Core.spec_of cachic.Proxy.Range.whole cachic.Orchestrator.Core.probed_meta
    cachic.Services.Key.object_id cachic.Orchestrator.Core.classify cachic.Proxy.Range.count
    cachic.Proxy.Range.plan cachic.Orchestrator.Core.probe_index cachic.Common.Text.is_ascii_digit
    cachic.Common.Text.is_empty cachic.Common.Text.skip_space cachic.Common.Text.space_len
    cachic.Common.Text.trim_end cachic.Common.Text.trim_start
    cachic.Orchestrator.Core.Operations.cache_status_of
    cachic.Orchestrator.Core.Operations.count_stored cachic.Orchestrator.Core.Operations.from_cell
    cachic.Orchestrator.Core.Operations.from_index cachic.Orchestrator.Core.Operations.is_some_spec
    cachic.Orchestrator.Core.Operations.make_plan cachic.Orchestrator.Core.Operations.metadata_of
    cachic.Orchestrator.Core.Operations.plan_parsed cachic.Orchestrator.Core.Operations.plan_wanted
    cachic.Orchestrator.Core.Operations.previous_generation
    cachic.Orchestrator.Core.Operations.probe cachic.Orchestrator.Core.Operations.probe_answer
    cachic.Orchestrator.Core.Operations.record_probe
    cachic.Orchestrator.Core.Operations.resident_before cachic.Orchestrator.Core.Operations.set_cell
    cachic.Orchestrator.Core.Operations.usable cachic.Orchestrator.Core.header_for
    cachic.Orchestrator.Core.whole_or_nothing cachic.Proxy.Range.indices cachic.Proxy.Range.up_from
    cachic.Services.Key.preimage cachic.Store.Index.Table.decoded cachic.Store.Index.Table.put
    cachic.Upstream.Client.header cachic.Upstream.Client.text_header serve
    cachic.Proxy.Server.serve_method cachic.Proxy.Server.serve_host cachic.Proxy.Server.serve_object
    cachic.Proxy.Server.after_plan cachic.Proxy.Server.with_plan cachic.Proxy.Server.is_heartbeat
    cachic.Proxy.Server.or_default cachic.Proxy.Server.rule_of cachic.Proxy.Server.url_of
    cachic.Proxy.Server.range_stands cachic.Services.Matcher.service_for
    cachic.Services.Matcher.index_for cachic.Services.Matcher.get cachic.Services.Matcher.found_or
    cachic.Services.Matcher.walk cachic.Services.Matcher.named cachic.Services.Matcher.name_at
    cachic.Services.Key.is_cacheable cachic.Services.Key.excluded cachic.Services.Key.included
    cachic.Services.Key.normalise cachic.Services.Key.normalise_host
    cachic.Services.Key.without_port cachic.Services.Key.split_target
    cachic.Services.Key.parts_or_whole cachic.Services.Key.normalise_path
    cachic.Services.Key.normalise_decoded cachic.Services.Key.percent_decode
    cachic.Services.Key.decode_from cachic.Services.Key.split cachic.Services.Key.cons_first
    cachic.Services.Key.resolve_segments cachic.Services.Key.step cachic.Services.Key.join
    cachic.Services.Key.ends_with cachic.Services.Key.kept_query
    cachic.Common.Text.to_ascii_lowercase cachic.Common.Text.lower
    cachic.Common.Text.trim_end_matches cachic.Common.Text.strip_prefix
    cachic.Common.Text.split_once cachic.Common.Text.contains cachic.Common.Text.utf8
served = refl

body_planned : response.body ≡ planned Examples.planned
unfolding planned_response cachic.Proxy.Server.body_len cachic.Proxy.Range.len
body_planned = refl

serve-IsFramed_example : IsFramed response Examples.planned
serve-IsFramed_example =
    serve-IsFramed table memory 4 identity (λ v. true) 9 config origins start request response
      Examples.planned served body_planned
