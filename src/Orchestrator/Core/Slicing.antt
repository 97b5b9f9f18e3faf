-- ===== src/Orchestrator/Core/Slicing.antt =====
-- `slice` of `Orchestrator` for an object whose origin serves ranges. The end of `after_fetch`'s arguments is what
-- foyer answers, and whether it ran the closure.
pub mod Changed
pub mod Source
use cachic.Common.{
  ℕ, Bool, true, false, ◌&&◌, Option, none, some, List, ◌==◌, if◌then◌else◌, Result, ok, err,
  length,
}
use cachic.Proxy.Range.{len, slice_extent}
use cachic.Store.Slice.{SliceValue}
use cachic.Store.Index.Table.{Redb}
use cachic.Store.Hybrid.{Foyer}
use cachic.Upstream.Client.{UpstreamError, UpstreamResponse}
use cachic.Orchestrator.Validators.{Validators, matches}
use cachic.Orchestrator.Core.{
  Plan, FetchError, upstream_failed, validators_changed, wrong_length, OrchestratorError, store,
  validator_changed, is_transient_orchestrator_error, header_for, slice_key, validators_of,
}
use cachic.Orchestrator.Core.Operations.{Upstream, State, bump_generation}

-- What the closure of `slice` returns for a response, with the validators that it saw when they had changed.
unfoldable pub checked :
    ℕ
    → Plan
    → ℕ
    → Result UpstreamResponse UpstreamError
    → Result SliceValue FetchError × Option Validators
checked slice_size plan index (err e) = (err (upstream_failed e), none)
checked slice_size plan index (ok r) =
    let expected : Validators = record {
      etag = plan.meta.etag;
      last_modified = plan.meta.last_modified;
    } in
    let expected_len = len (slice_extent index slice_size plan.total_len) in
    if matches expected (validators_of r)
    then (if length r.body == expected_len
        then (ok (record { header = header_for plan.meta slice_size; payload = r.body }), none)
        else (err (wrong_length expected_len (length r.body)), none))
    else (err validators_changed, some (validators_of r))

module _ (redb : Redb) (foyer : Foyer FetchError) (slice_size : ℕ) where
  abbrev St : Type 0
  St = State redb foyer slice_size

  -- `stale_on_error`: after a failed fetch, what the store holds by now.
  unfoldable pub stale_answer :
      Bool
      → OrchestratorError
      → Result (Option SliceValue) (List ℕ)
      → Result SliceValue OrchestratorError
  stale_answer allowed e (ok (some v)) = if allowed then ok v else err e
  stale_answer allowed e (ok none) = err e
  stale_answer allowed e (err text) = err e

  -- What follows `get_or_fetch`.
  unfoldable pub after_fetch :
      Bool
      → Plan
      → ℕ
      → St
      → Option Validators
      → Result SliceValue (List ℕ) × Bool
      → Result SliceValue OrchestratorError × St
  unfolding bump_generation stale_answer
  after_fetch stale_on_error p index st observed (ok v, ran) = (ok v, st)
  after_fetch stale_on_error p index st (some now) (err text, true) = (
    err (validator_changed p.meta.etag now.etag),
    (bump_generation redb foyer slice_size p.object st).1,
  )
  after_fetch stale_on_error p index st (some now) (err text, false) = (
    stale_answer (stale_on_error && is_transient_orchestrator_error (store text)) (store text)
        (foyer.get st.slices (slice_key p index)),
    st,
  )
  after_fetch stale_on_error p index st none (err text, ran) = (
    stale_answer (stale_on_error && is_transient_orchestrator_error (store text)) (store text)
        (foyer.get st.slices (slice_key p index)),
    st,
  )

  -- `slice` of an object whose origin serves ranges.
  unfoldable pub slice_ranged :
      Bool → Plan → ℕ → Upstream → St → Result SliceValue OrchestratorError × St
  unfolding after_fetch checked
  slice_ranged stale_on_error p index origin st =
      let extent = slice_extent index slice_size p.total_len in
      let (fetch, observed) = checked slice_size p index (origin extent.start extent.end) in
      let (outcome, ran, slices) = foyer.get_or_fetch st.slices (slice_key p index) fetch in
      after_fetch stale_on_error p index (record st { slices = slices }) observed (outcome, ran)
