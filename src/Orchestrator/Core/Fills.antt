-- ===== src/Orchestrator/Core/Fills.antt =====
-- The methods of `Orchestrator` for objects whose origin ignores ranges, and `slice` and `maybe_prefetch` over both
-- kinds of objects. The stream of the origin and what a waiter sees of a fill are arguments.
use cachic.Common.{
  ℕ, ◌-◌, ◌/◌, min, Bool, ◌||◌, Option, none, some, List, [], ◌∷◌, ltb, ◌==◌, if◌then◌else◌, Result,
  ok, err,
}
use cachic.Common.Words.{u32_max}
use cachic.Proxy.Range
use cachic.Proxy.Range.{SlicePlan, up_from}
use cachic.Store.Slice.{SliceValue}
use cachic.Store.Index.Table.{Redb}
use cachic.Store.Hybrid.{Foyer}
use cachic.Upstream.Client.{UpstreamError, SendError, request}
use cachic.Common.Headers.{HeaderMap}
use cachic.Orchestrator.Readahead.{Patterns, observe, prefetch}
use cachic.Orchestrator.Filler
use cachic.Orchestrator.Filler.{
  FillRegistry, Progress, ready, complete, failed, Reason, Role, filler, subscriber, claim,
  wait_for,
}
use cachic.Orchestrator.Fill.{Event, insert, publish, run_fill}
use cachic.Orchestrator.Core.{
  Plan, FetchError, OrchestratorError, upstream, store, fill, header_for, slice_key,
}
use cachic.Orchestrator.Core.Operations.{Upstream, State}
use cachic.Orchestrator.Core.Slicing.{slice_ranged}

-- What `fetch_stream` gives: the headers, which `run_fill` does not look at, and the chunks.
abbrev pub Body : Type 0
Body = Result (HeaderMap × List (Result (List ℕ) SendError)) UpstreamError

module _ (redb : Redb) (foyer : Foyer FetchError) (slice_size : ℕ) where
  abbrev St : Type 0
  St = State redb foyer slice_size

  unfoldable pub store_filled : Plan → ℕ → List ℕ → St → St
  store_filled p index payload st = record st {
    slices =
        foyer.insert st.slices (slice_key p index)
          (record { header = header_for p.meta slice_size; payload = payload });
  }

  -- What `run_fill` does to the store and to its channel, event by event.
  unfoldable pub apply_events : Plan → ℕ → List Event → St → St
  unfolding store_filled
  apply_events p channel [] st = st
  apply_events p channel (insert index payload ∷ rest) st =
      apply_events p channel rest (store_filled p index payload st)
  apply_events p channel (publish n ∷ rest) st =
      apply_events p channel rest (record st { fills = Filler.publish channel (ready n) st.fills })

  -- The end of a fill: the entry is released whatever happened, then the channel is told.
  unfoldable pub finished :
      Plan
      → ℕ
      → ℕ
      → (UpstreamError → Reason)
      → Result ℕ UpstreamError
      → St
      → Result (Unit {0}) OrchestratorError × St
  finished p index channel text (ok count) st = (
    if ltb index count then ok tt else err fill,
    record st {
      fills = Filler.publish channel (complete count) (Filler.release p.object st.fills);
    },
  )
  finished p index channel text (err e) st = (
    err (upstream e),
    record st {
      fills = Filler.publish channel (failed (text e)) (Filler.release p.object st.fills);
    },
  )

  unfoldable pub failed_chunk : Result (List ℕ) SendError → Result (List ℕ) UpstreamError
  failed_chunk (ok chunk) = ok chunk
  failed_chunk (err source) = err (request source)

  unfoldable pub failed_chunks :
      List (Result (List ℕ) SendError) → List (Result (List ℕ) UpstreamError)
  unfolding failed_chunk
  failed_chunks [] = []
  failed_chunks (c ∷ rest) = failed_chunk c ∷ failed_chunks rest

  -- `run_fill` from the fetch on.
  unfoldable pub fill_events : Body → List Event × Result ℕ UpstreamError
  unfolding failed_chunks
  fill_events (err e) = ([], err e)
  fill_events (ok (headers, chunks)) = run_fill slice_size (failed_chunks chunks)

  unfoldable pub waited : Result (Unit {0}) Reason → Result (Unit {0}) OrchestratorError
  waited (ok u) = ok u
  waited (err reason) = err fill

  unfoldable pub filled_as :
      Plan
      → ℕ
      → (UpstreamError → Reason)
      → Body
      → List Progress
      → FillRegistry × Role
      → St
      → Result (Unit {0}) OrchestratorError × St
  unfolding apply_events finished fill_events waited
  filled_as p index text body seen (r, subscriber channel) st =
      (waited (wait_for seen index), record st { fills = r })
  filled_as p index text body seen (r, filler channel) st =
      let (events, result) = fill_events body in
      finished p index channel text result (apply_events p channel events (record st { fills = r }))

  unfoldable pub ensure_filled :
      Plan
      → ℕ
      → (UpstreamError → Reason)
      → Body
      → List Progress
      → St
      → Result (Unit {0}) OrchestratorError × St
  unfolding filled_as
  ensure_filled p index text body seen st =
      if foyer.contains st.slices (slice_key p index)
      then (ok tt, st)
      else filled_as p index text body seen (claim p.object st.fills) st

  unfoldable pub filled_answer :
      Result (Option SliceValue) (List ℕ) → Result SliceValue OrchestratorError
  filled_answer (ok (some v)) = ok v
  filled_answer (ok none) = err fill
  filled_answer (err text) = err (store text)

  unfoldable pub slice_filled :
      Plan → ℕ → Result (Unit {0}) OrchestratorError × St → Result SliceValue OrchestratorError × St
  unfolding filled_answer
  slice_filled p index (ok u, st) = (filled_answer (foyer.get st.slices (slice_key p index)), st)
  slice_filled p index (err e, st) = (err e, st)

  unfoldable pub slice :
      Bool
      → (UpstreamError → Reason)
      → Plan
      → ℕ
      → Upstream
      → Body
      → List Progress
      → St
      → Result SliceValue OrchestratorError × St
  unfolding slice_filled ensure_filled slice_ranged
  slice stale_on_error text p index origin body seen st =
      if p.meta.no_ranges
      then slice_filled p index (ensure_filled p index text body seen st)
      else slice_ranged redb foyer slice_size stale_on_error p index origin st

  unfoldable pub missing : (ℕ → Bool) → List ℕ → List ℕ
  missing stored [] = []
  missing stored (i ∷ is) = let rest = missing stored is in if stored i then rest else i ∷ rest

  -- The slices that `maybe_prefetch` spawns tasks for, and the patterns after it.
  unfoldable pub maybe_prefetch : ℕ → ℕ → Plan → Patterns → St → List ℕ × Patterns
  unfolding missing
  maybe_prefetch window now p patterns st =
      let span = Range.plan p.wanted slice_size in
      let (patterns', access) = observe now p.object span.first span.last patterns in
      let last_slice = min ((p.total_len - 1) / slice_size) u32_max in
      let (from, to) = prefetch window access span.last last_slice in
      let stored : ℕ → Bool = λ i. foyer.contains st.slices (slice_key p i) in
      if (p.total_len == 0) || p.meta.no_ranges
      then ([], patterns)
      else (missing stored (up_from from (to - from)), patterns')
