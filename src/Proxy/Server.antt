-- ===== src/Proxy/Server.antt =====
-- crates/cachic/src/proxy/server.rs: from a request to the head of its response, and `heartbeat.rs`. The body of a
-- planned response is in Orchestrator/Fill/Response. Metrics, the access log and the drain are left out; the origin
-- is an argument, by the URL and the headers of a fetch. `HeaderValue::from_str` is the argument `is_value`.
pub mod Framed
pub mod Examples
use cachic.Common.{
  ℕ, ◌+◌, ◌-◌, Bool, true, false, not, ◌&&◌, ◌||◌, Option, none, some, ◌>>?◌, List, [], ◌∷◌, ◌++◌,
  ltb, ◌==◌, if◌then◌else◌, Result, ok, err,
}
use cachic.Common.Text.{codes, text_eq}
use cachic.Common.Decimal.{print_u64}
use cachic.Common.Headers.{HeaderMap}
use cachic.Proxy.Range.{ByteRange, len}
use cachic.Proxy.Headers.{forwarded_request_headers}
use cachic.Services.Key.{CompiledRule, CacheKey, is_cacheable, normalise, normalise_host}
use cachic.Services.Matcher.{Matcher, service_for}
use cachic.Store.Index.{ObjectMeta}
use cachic.Store.Index.Table.{Redb}
use cachic.Store.Hybrid.{Foyer}
use cachic.Upstream.Client.{text_header}
use cachic.Orchestrator.Validators.{Validators, if_range_matches}
use cachic.Orchestrator.Core.{
  CacheStatus, hit, miss, partly, bypass, Plan, FetchError, OrchestratorError, unsatisfiable,
}
use cachic.Orchestrator.Core.Operations.{Upstream, State, plan}

pub data Method : Type 0 where
  get head : Method
  other : List ℕ → Method

pub record Request : Type 0 where
  pub method : Method
  pub path : List ℕ
  pub target : Option (List ℕ)
  pub headers : HeaderMap

pub data Body : Type 0 where
  empty : Body
  text : List ℕ → Body
  planned : Plan → Body

pub record Response : Type 0 where
  pub status : ℕ
  pub headers : HeaderMap
  pub body : Body

pub record ServerConfig : Type 0 where
  pub hostname : List ℕ
  pub passthrough_unknown_hosts : Bool
  pub allow_host_port : Bool
  pub matcher : Matcher
  pub compiled : List (List ℕ × CompiledRule)

-- `CacheStatus::as_str`.
unfoldable pub as_str : CacheStatus → List ℕ
as_str hit = codes "HIT"
as_str miss = codes "MISS"
as_str partly = codes "PARTIAL"
as_str bypass = codes "BYPASS"

unfoldable pub is_heartbeat : List ℕ → Bool
is_heartbeat path = text_eq path (codes "/lancache-heartbeat")

unfoldable pub heartbeat : (List ℕ → Bool) → List ℕ → Response
heartbeat is_value hostname = record {
  status = 204;
  headers =
      (codes "access-control-allow-origin", codes "*")
      ∷ (codes "access-control-allow-headers", codes "*")
      ∷ (codes "access-control-expose-headers", codes "*")
      ∷ (if is_value hostname then (codes "x-lancache-processed-by", hostname) ∷ [] else []);
  body = empty;
}

unfoldable pub text_response : ℕ → List ℕ → Response
text_response status message = record {
  status = status;
  headers = (codes "content-type", codes "text/plain; charset=utf-8") ∷ [];
  body = text message;
}

unfoldable pub or_default : List ℕ → Option (List ℕ) → List ℕ
or_default d none = d
or_default d (some v) = v

unfoldable pub rule_of : List ℕ → List (List ℕ × CompiledRule) → CompiledRule
rule_of service [] = record {
  keep_query = false;
  include_host = false;
  upstream_https = false;
  include = none;
  exclude = none;
}
rule_of service ((s, rule) ∷ rest) = if text_eq s service then rule else rule_of service rest

unfoldable pub url_of : CompiledRule → Bool → List ℕ → List ℕ → List ℕ
url_of rule allow_host_port host target =
    (if rule.upstream_https then codes "https" else codes "http")
    ++ (codes "://" ++ ((if allow_host_port then host else normalise_host host) ++ target))

unfoldable pub content_range : Plan → List ℕ
content_range p =
    codes "bytes "
    ++ (print_u64 p.wanted.start
        ++ (codes "-" ++ (print_u64 p.wanted.end ++ (codes "/" ++ print_u64 p.total_len))))

unfoldable pub body_len : Plan → ℕ
body_len p = if p.total_len == 0 then 0 else len p.wanted

unfoldable pub entity_header : (List ℕ → Bool) → List ℕ → Option (List ℕ) → HeaderMap → HeaderMap
entity_header is_value name none rest = rest
entity_header is_value name (some v) rest = if is_value v then (name, v) ∷ rest else rest

unfoldable pub planned_headers : (List ℕ → Bool) → List ℕ → List ℕ → Plan → HeaderMap
unfolding as_str content_range body_len entity_header
planned_headers is_value hostname service p =
    let entity = entity_header is_value (codes "content-type") p.meta.content_type (
      entity_header is_value (codes "etag") p.meta.etag
        (entity_header is_value (codes "last-modified") p.meta.last_modified [])) in
    (codes "content-length", print_u64 (body_len p))
    ∷ (codes "accept-ranges", codes "bytes")
    ∷ (codes "x-cache", as_str p.cache_status)
    ∷ (codes "x-lancache-processed-by", hostname)
    ∷ (codes "x-cachic-service", service)
    ∷ (if p.partial && ltb 0 p.total_len
        then (codes "content-range", content_range p) ∷ entity
        else entity)

unfoldable pub planned_response : (List ℕ → Bool) → List ℕ → List ℕ → Bool → Plan → Response
unfolding planned_headers body_len
planned_response is_value hostname service is_head p = record {
  status = p.status;
  headers = planned_headers is_value hostname service p;
  body = if is_head || body_len p == 0 then empty else planned p;
}

unfoldable pub not_satisfiable : List ℕ → ℕ → Response
not_satisfiable hostname total = record {
  status = 416;
  headers =
      (codes "content-range", codes "bytes */" ++ print_u64 total)
      ∷ (codes "x-lancache-processed-by", hostname)
      ∷ [];
  body = empty;
}

-- Whether `If-Range` lets the range stand.
unfoldable pub range_stands : Option (List ℕ) → Plan → Bool
range_stands none p = true
range_stands (some header) p =
    if_range_matches header (record { etag = p.meta.etag; last_modified = p.meta.last_modified })

module _ (redb : Redb) (foyer : Foyer FetchError) (slice_size : ℕ) (blake3 : List ℕ → List ℕ)
    (is_value : List ℕ → Bool) (now : ℕ) (config : ServerConfig) where
  abbrev St : Type 0
  St = State redb foyer slice_size

  abbrev Answer : Type 0
  Answer = Result Response OrchestratorError × St

  -- After a plan that nothing follows.
  unfoldable pub with_plan : List ℕ → Bool → Result Plan OrchestratorError × St → Answer
  unfolding planned_response
  with_plan service is_head (ok p, st) =
      (ok (planned_response is_value config.hostname service is_head p), st)
  with_plan service is_head (err e, st) = (err e, st)

  -- After the plan with the range.
  unfoldable pub after_plan :
      List ℕ
      → Bool
      → Option (List ℕ)
      → CacheKey
      → Upstream
      → Result Plan OrchestratorError × St
      → Answer
  unfolding with_plan range_stands not_satisfiable
  after_plan service is_head if_range key origin (ok p, st) =
      if range_stands if_range p
      then with_plan service is_head (ok p, st)
      else with_plan service is_head (plan redb foyer slice_size blake3 key none now origin st)
  after_plan service is_head if_range key origin (err (unsatisfiable total), st) =
      (ok (not_satisfiable config.hostname total), st)
  after_plan service is_head if_range key origin (err e, st) = (err e, st)

  unfoldable pub serve_object :
      List ℕ
      → Bool
      → List ℕ
      → List ℕ
      → HeaderMap
      → CompiledRule
      → (List ℕ → HeaderMap → Upstream)
      → St
      → Answer
  unfolding after_plan url_of
  serve_object service is_head host target headers rule origin st =
      let key = normalise service host target rule in
      let fetch =
        origin (url_of rule config.allow_host_port host target)
          (forwarded_request_headers headers) in
      after_plan service is_head (text_header (codes "if-range") headers) key fetch
        (plan redb foyer slice_size blake3 key (text_header (codes "range") headers) now fetch st)

  unfoldable pub serve_host :
      Bool → List ℕ → Request → (List ℕ → HeaderMap → Upstream) → St → Option (List ℕ) → Answer
  unfolding serve_object text_response rule_of or_default
  serve_host is_head host req origin st none = (
    ok (
        if config.passthrough_unknown_hosts
        then text_response 501 (codes "passthrough is not implemented until TASK-18" ++ 10 ∷ [])
        else text_response 404 (codes "no cached service matches this host" ++ 10 ∷ [])),
    st,
  )
  serve_host is_head host req origin st (some service) =
      if is_cacheable (rule_of service config.compiled) req.path
      then serve_object service is_head host (or_default (codes "/") req.target) req.headers
          (rule_of service config.compiled) origin st
      else (
        ok (
            text_response 501
              (codes "uncached pass-through is not implemented until TASK-18" ++ 10 ∷ [])),
        st,
      )

  unfoldable pub serve_method : Method → Request → (List ℕ → HeaderMap → Upstream) → St → Answer
  unfolding serve_host
  serve_method (other m) req origin st =
      (ok (text_response 405 (codes "cachic caches GET and HEAD" ++ 10 ∷ [])), st)
  serve_method get req origin st =
      let host = or_default [] (text_header (codes "host") req.headers) in
      serve_host false host req origin st (service_for config.matcher host)
  serve_method head req origin st =
      let host = or_default [] (text_header (codes "host") req.headers) in
      serve_host true host req origin st (service_for config.matcher host)

  unfoldable pub serve : Request → (List ℕ → HeaderMap → Upstream) → St → Answer
  unfolding serve_method is_heartbeat heartbeat
  serve req origin st =
      if is_heartbeat req.path
      then (ok (heartbeat is_value config.hostname), st)
      else serve_method req.method req origin st
