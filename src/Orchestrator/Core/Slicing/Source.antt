-- ===== src/Orchestrator/Core/Slicing/Source.antt =====
-- Where a slice comes from.
use cachic.Common.{
  ℕ, ◌≡◌, refl, sym, ap, Bool, true, false, Bool-cases, ◌⊎◌, inl, inr, Option, none, some, List,
  ◌==◌, ==_iff, Result, ok, err, ok-injective, length,
}
use cachic.Proxy.Range.{len, slice_extent}
use cachic.Store.Slice.{SliceValue}
use cachic.Store.Index.Table.{Redb}
use cachic.Store.Hybrid.{Foyer}
use cachic.Upstream.Client.{UpstreamResponse, UpstreamError}
use cachic.Orchestrator.Validators.{Validators, matches}
use cachic.Orchestrator.Core.{
  Plan, FetchError, OrchestratorError, header_for, slice_key, validators_of,
}
use cachic.Orchestrator.Core.Operations.{Upstream, State}
use cachic.Orchestrator.Core.Slicing.{checked, after_fetch, slice_ranged}
use cachic.Orchestrator.Core.Slicing.{stale_answer}
use cachic.Orchestrator.Core.Slicing.Changed.{expected, answer_for}

pub checked-ok :
    (slice_size : ℕ) (p : Plan) (index : ℕ) (r : Result UpstreamResponse UpstreamError)
    {v : SliceValue}
    → (checked slice_size p index r).0 ≡ ok v
    → (response : UpstreamResponse) × (r ≡ ok response)
      × (matches (expected p) (validators_of response) ≡ true)
      × (length response.body ≡ len (slice_extent index slice_size p.total_len))
      × (v ≡ record { header = header_for p.meta slice_size; payload = response.body })
unfolding checked
checked-ok slice_size p index (err e) h = cc
checked-ok slice_size p index (ok r) {v} h =
    elim (Bool-cases (matches (expected p) (validators_of r))) [
      | inr changed ↦ absurd (cc (rw changed at h))
      | inl same ↦
          elim (Bool-cases (length r.body == len (slice_extent index slice_size p.total_len))) [
            | inr wrong ↦ absurd (cc (rw (same, wrong) at h))
            | inl right ↦ (
              r,
              refl,
              same,
              (==_iff (length r.body) _).0 right,
              sym (ok-injective (rw (same, right) at h)),
            )
          ]
    ]

-- The origin has just answered with this slice, whole and of the plan's version.
unfoldable pub Fetched : ℕ → Plan → ℕ → Upstream → SliceValue → Type 0
Fetched slice_size p index origin v =
    (response : UpstreamResponse) × (answer_for slice_size p index origin ≡ ok response)
    × (matches (expected p) (validators_of response) ≡ true)
    × (length response.body ≡ len (slice_extent index slice_size p.total_len))
    × (v ≡ record { header = header_for p.meta slice_size; payload = response.body })

module _ (redb : Redb) (foyer : Foyer FetchError) (slice_size : ℕ) where
  pub stale_answer-ok :
      (allowed : Bool) (e : OrchestratorError) (r : Result (Option SliceValue) (List ℕ))
      {v : SliceValue}
      → stale_answer redb foyer slice_size allowed e r ≡ ok v
      → r ≡ ok (some v)
  unfolding stale_answer
  stale_answer-ok true e (ok (some v)) h = ap (λ x. ok (some x)) (ok-injective h)
  stale_answer-ok false e (ok (some v)) h = cc
  stale_answer-ok allowed e (ok none) h = cc
  stale_answer-ok allowed e (err t) h = cc

module _ (redb : Redb) (foyer : Foyer FetchError) (slice_size : ℕ) (stale_on_error : Bool)
    (p : Plan) (index : ℕ) where
  after_fetch-source :
      (st : State redb foyer slice_size) (observed : Option Validators)
      (outcome : Result SliceValue (List ℕ)) (ran : Bool) {v : SliceValue}
      → (after_fetch redb foyer slice_size stale_on_error p index st observed (outcome, ran)).0
        ≡ ok v
      → (outcome ≡ ok v) ⊎ (foyer.get st.slices (slice_key p index) ≡ ok (some v))
  unfolding after_fetch
  after_fetch-source st observed (ok x) ran h = inl (ap ok (ok-injective h))
  after_fetch-source st (some now) (err text) true h = cc
  after_fetch-source st (some now) (err text) false h =
      inr (stale_answer-ok redb foyer slice_size _ _ _ h)
  after_fetch-source st none (err text) ran h = inr (stale_answer-ok redb foyer slice_size _ _ _ h)

  -- A slice of an object whose origin serves ranges is one that the store held under the key of the plan, or the origin
  -- has just answered with it: with validators that match the plan's, and with as many bytes as the slice has.
  pub slice_ranged-source :
      (origin : Upstream) (st : State redb foyer slice_size) {v : SliceValue}
      → (slice_ranged redb foyer slice_size stale_on_error p index origin st).0 ≡ ok v
      → (foyer.get st.slices (slice_key p index) ≡ ok (some v))
        ⊎ Fetched slice_size p index origin v
  unfolding slice_ranged Fetched
  slice_ranged-source origin st {v} h = elim (after_fetch-source _ _ _ _ h) [
    | inl answered ↦ elim (foyer.fetched st.slices (slice_key p index) fetch v answered) [
      | inl held ↦ inl held
      | inr new ↦ inr (checked-ok slice_size p index _ new)
    ]
    | inr stale ↦
        elim (foyer.get-fetched st.slices (slice_key p index) (slice_key p index) fetch v stale) [
          | inl (at_key, new) ↦ inr (checked-ok slice_size p index _ new)
          | inr held ↦ inl held
        ]
  ]
    where
      fetch : Result SliceValue FetchError
      fetch = (checked slice_size p index (answer_for slice_size p index origin)).0
