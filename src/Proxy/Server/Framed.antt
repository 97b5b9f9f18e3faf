-- ===== src/Proxy/Server/Framed.antt =====
-- The head of a planned response against its body.
use cachic.Common.{
  ℕ, ◌+◌, ◌<◌, ◌≡◌, refl, ap, ◌∙◌, subst, Bool, true, false, Bool-cases, ltb, ◌⊎◌, inl, inr,
  if-elim, ◌&&◌, ◌||◌, Option, none, some, List, [], ◌++◌, ◌==◌, Result, ok, err, ok-injective,
  arith,
}
use cachic.Common.Text.{codes, text_eq}
use cachic.Common.Decimal.{print_u64}
use cachic.Common.Headers.{HeaderMap, header_value}
use cachic.Proxy.Range.{len}
use cachic.Proxy.Server.{
  rule_of, Method, get, head, other, Request, empty, planned, Response, ServerConfig, heartbeat,
  text_response, content_range, body_len, entity_header, planned_headers, planned_response,
  not_satisfiable, range_stands, with_plan, after_plan, serve_object, serve_host, serve_method,
  serve, is_heartbeat,
}
use cachic.Services.Key.{CacheKey, CompiledRule, is_cacheable}
use cachic.Store.Index.Table.{Redb}
use cachic.Store.Hybrid.{Foyer}
use cachic.Orchestrator.Core.{Plan, FetchError, OrchestratorError, unsatisfiable}
use cachic.Orchestrator.Core.Operations.{Upstream, State}
use cachic.Orchestrator.Core.Planned.{IsPlanned, part, all, nothing, plan-IsPlanned}

abbrev field : List ℕ → Response → Option (List ℕ)
field name r = header_value name r.headers

-- `bytes first-last/total`.
abbrev pub range_text : ℕ → ℕ → ℕ → List ℕ
range_text first last total =
    codes "bytes "
    ++ (print_u64 first ++ (codes "-" ++ (print_u64 last ++ (codes "/" ++ print_u64 total))))

-- A response whose body is that of a plan says how many bytes it has, and which.
pub record IsFramed (r : Response) (p : Plan) : Type 0 where
  pub some_bytes : 0 < len p.wanted
  pub inside : p.wanted.end < p.total_len
  pub length_told : field (codes "content-length") r ≡ some (print_u64 (len p.wanted))
  pub range_told :
      ((r.status ≡ 206)
        × (field (codes "content-range") r
            ≡ some (range_text p.wanted.start p.wanted.end p.total_len)))
      ⊎ ((r.status ≡ 200)
          × (field (codes "content-range") r ≡ none)
          × (p.wanted.start ≡ 0)
          × (p.wanted.end + 1 ≡ p.total_len))

entity_header-range :
    (is_value : List ℕ → Bool) (name : List ℕ) (v : Option (List ℕ)) (rest : HeaderMap)
    → text_eq name (codes "content-range") ≡ false
    → header_value (codes "content-range") rest ≡ none
    → header_value (codes "content-range") (entity_header is_value name v rest) ≡ none
unfolding entity_header header_value
entity_header-range is_value name none rest apart h = h
entity_header-range is_value name (some v) rest apart h = elim (Bool-cases (is_value v)) [
  | inl good ↦ rw (good, apart) h
  | inr bad ↦ rw bad h
]

module _ (is_value : List ℕ → Bool) (hostname service : List ℕ) (p : Plan) where
  length_field :
      header_value (codes "content-length") (planned_headers is_value hostname service p)
      ≡ some (print_u64 (body_len p))
  unfolding planned_headers header_value text_eq
  length_field = refl

  range_field :
      (p.partial && ltb 0 p.total_len) ≡ true
      → header_value (codes "content-range") (planned_headers is_value hostname service p)
        ≡ some (content_range p)
  unfolding planned_headers header_value text_eq
  range_field h = rw h refl

  no_range_field :
      (p.partial && ltb 0 p.total_len) ≡ false
      → header_value (codes "content-range") (planned_headers is_value hostname service p) ≡ none
  unfolding planned_headers header_value text_eq
  no_range_field h = rw h (
      entity_header-range is_value (codes "content-type") p.meta.content_type _ refl (
        entity_header-range is_value (codes "etag") p.meta.etag _ refl
          (entity_header-range is_value (codes "last-modified") p.meta.last_modified [] refl refl)))

  abbrev response : Bool → Response
  response is_head = planned_response is_value hostname service is_head p

  either_false : (a b : Bool) → (a || b) ≡ false → b ≡ false
  either_false true b h = cc
  either_false false b h = h

  sent_bytes : (body_len p == 0) ≡ false → 0 < len p.wanted
  unfolding body_len
  sent_bytes h = ground arith

  IsFramed-part :
      (is_head : Bool) → (body_len p == 0) ≡ false → IsPlanned p → IsFramed (response is_head) p
  unfolding planned_response
  IsFramed-part is_head sent (part partial status full inside) = record {
    some_bytes = sent_bytes sent;
    inside = inside;
    length_told = length_field ∙ ap (λ n. some (print_u64 n)) (unfold body_len in ground arith);
    range_told = inl (status, unfold content_range in range_field (ground arith));
  }
  IsFramed-part is_head sent (all whole status first some_total last) = record {
    some_bytes = sent_bytes sent;
    inside = omega (arith, last);
    length_told = length_field ∙ ap (λ n. some (print_u64 n)) (unfold body_len in ground arith);
    range_told = inr (status, no_range_field (ground arith), first, last);
  }
  IsFramed-part is_head sent (nothing whole status no_bytes) =
      absurd (unfold body_len in ground arith)

  planned-injective : {q : Plan} → planned p ≡ planned q → p ≡ q
  planned-injective h = cc

  planned_response-IsFramed :
      (is_head : Bool) {q : Plan}
      → IsPlanned p
      → (response is_head).body ≡ planned q
      → IsFramed (response is_head) q
  unfolding planned_response
  planned_response-IsFramed is_head {q} h e =
      if-elim (is_head || body_len p == 0) empty (planned p) e (λ x y. cc)
        (λ sent e1.
          subst (λ x. IsFramed (response is_head) x) (planned-injective e1)
            (IsFramed-part is_head (either_false is_head (body_len p == 0) sent) h))

module _ (redb : Redb) (foyer : Foyer FetchError) (slice_size : ℕ) (blake3 : List ℕ → List ℕ)
    (is_value : List ℕ → Bool) (now : ℕ) (config : ServerConfig) where
  abbrev St : Type 0
  St = State redb foyer slice_size

  -- An answer with a planned body is framed.
  abbrev Framed : Result Response OrchestratorError → Type 0
  Framed answer = (r : Response) (p : Plan) → answer ≡ ok r → r.body ≡ planned p → IsFramed r p

  unplanned : (r : Response) → ((p : Plan) → r.body ≡ planned p → Prim.⊥) → Framed (ok r)
  unplanned r h r' p e body = absurd (h p (ap (λ x. x.body) (ok-injective e) ∙ body))

  refused : (e : OrchestratorError) → Framed (err e)
  refused e r p h body = cc

  text_response-Framed :
      (status : ℕ) (message : List ℕ) → Framed (ok (text_response status message))
  unfolding text_response
  text_response-Framed status message = unplanned _ (λ p e. cc)

  with_plan-Framed :
      (service : List ℕ) (is_head : Bool) (answer : Result Plan OrchestratorError) (st : St)
      → ((p : Plan) → answer ≡ ok p → IsPlanned p)
      → Framed
          (with_plan redb foyer slice_size blake3 is_value now config service is_head
            (answer, st)).0
  unfolding with_plan
  with_plan-Framed service is_head (ok p) st h r q e body =
      subst (λ x. IsFramed x q) (ok-injective e)
        (planned_response-IsFramed is_value config.hostname service p is_head (h p refl)
          (ap (λ x. x.body) (ok-injective e) ∙ body))
  with_plan-Framed service is_head (err x) st h r q e body = refused x r q e body

  after_plan-Framed :
      (service : List ℕ) (is_head : Bool) (if_range : Option (List ℕ)) (key : CacheKey)
      (origin : Upstream) (answer : Result Plan OrchestratorError) (st : St)
      → ((p : Plan) → answer ≡ ok p → IsPlanned p)
      → Framed
          (after_plan redb foyer slice_size blake3 is_value now config service is_head if_range key
            origin
            (answer, st)).0
  unfolding after_plan not_satisfiable
  after_plan-Framed service is_head if_range key origin (ok p) st h =
      elim (Bool-cases (range_stands if_range p)) [
        | inl stands ↦ rw stands (with_plan-Framed service is_head (ok p) st h)
        | inr gone ↦ rw gone (
            with_plan-Framed service is_head _ _
              (λ q e. plan-IsPlanned redb foyer slice_size blake3 key none now origin st e))
      ]
  after_plan-Framed service is_head if_range key origin (err (unsatisfiable total)) st h =
      unplanned _ (λ p e. cc)
  after_plan-Framed service is_head if_range key origin (err (OrchestratorError.upstream x)) st h =
      refused _
  after_plan-Framed service is_head if_range key origin (err (OrchestratorError.store x)) st h =
      refused _
  after_plan-Framed service is_head if_range key origin (err OrchestratorError.no_length) st h =
      refused _
  after_plan-Framed service is_head if_range key origin (err (OrchestratorError.short_slice a b c))
        st h =
      refused _
  after_plan-Framed service is_head if_range key origin
        (err (OrchestratorError.validator_changed a b)) st h =
      refused _
  after_plan-Framed service is_head if_range key origin (err OrchestratorError.fill) st h =
      refused _

  module _ (origin : List ℕ → HeaderMap → Upstream) (st : St) where
    serve_object-Framed :
        (service : List ℕ) (is_head : Bool) (host target : List ℕ) (headers : HeaderMap)
        (rule : CompiledRule)
        → Framed
            (serve_object redb foyer slice_size blake3 is_value now config service is_head host
              target headers rule origin st).0
    unfolding serve_object
    serve_object-Framed service is_head host target headers rule =
        after_plan-Framed service is_head _ _ _ _ _
          (λ p e. plan-IsPlanned redb foyer slice_size blake3 _ _ now _ st e)

    serve_host-Framed :
        (is_head : Bool) (host : List ℕ) (req : Request) (service : Option (List ℕ))
        → Framed
            (serve_host redb foyer slice_size blake3 is_value now config is_head host req origin st
              service).0
    unfolding serve_host
    serve_host-Framed is_head host req none = elim (Bool-cases config.passthrough_unknown_hosts) [
      | inl unknown ↦ rw unknown (text_response-Framed _ _)
      | inr unknown ↦ rw unknown (text_response-Framed _ _)
    ]
    serve_host-Framed is_head host req (some service) =
        elim (Bool-cases (is_cacheable (rule_of service config.compiled) req.path)) [
          | inl cached ↦ rw cached (serve_object-Framed service is_head host _ _ _)
          | inr bypassed ↦ rw bypassed (text_response-Framed _ _)
        ]

    serve_method-Framed :
        (m : Method) (req : Request)
        → Framed (serve_method redb foyer slice_size blake3 is_value now config m req origin st).0
    unfolding serve_method
    serve_method-Framed get req = serve_host-Framed false _ req _
    serve_method-Framed head req = serve_host-Framed true _ req _
    serve_method-Framed (other m) req = text_response-Framed _ _

    serve-Framed :
        (req : Request)
        → Framed (serve redb foyer slice_size blake3 is_value now config req origin st).0
    unfolding serve heartbeat
    serve-Framed req = elim (Bool-cases (is_heartbeat req.path)) [
      | inl beat ↦ rw beat (unplanned _ (λ p e. cc))
      | inr request ↦ rw request (serve_method-Framed req.method req)
    ]

-- If a request is answered with the body of a plan, then the body is not empty and ends inside the object,
-- Content-Length is the number of its bytes, and either the status is 206 and Content-Range states the ends of the
-- plan and the length of the object, or the status is 200, there is no Content-Range, and the plan is of the
-- whole object.
pub serve-IsFramed :
    (redb : Redb) (foyer : Foyer FetchError) (slice_size : ℕ) (blake3 : List ℕ → List ℕ)
    (is_value : List ℕ → Bool) (now : ℕ) (config : ServerConfig)
    (origin : List ℕ → HeaderMap → Upstream) (st : State redb foyer slice_size) (req : Request)
    (r : Response) (p : Plan)
    → (serve redb foyer slice_size blake3 is_value now config req origin st).0 ≡ ok r
    → r.body ≡ planned p
    → IsFramed r p
serve-IsFramed redb foyer slice_size blake3 is_value now config origin st req r p e body =
    serve-Framed redb foyer slice_size blake3 is_value now config origin st req r p e body
