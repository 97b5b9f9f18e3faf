-- ===== src/Orchestrator/Core/Versions/Served.antt =====
-- What a running cache answers a plan with.
use cachic.Common.{ℕ, ◌≤◌, ◌≡◌, sym, ◌∙◌, Bool, none, List, [], ◌∷◌, ◌++◌, ok, arith}
use cachic.Store.Slice.{SliceValue}
use cachic.Store.Index.Table.{Redb}
use cachic.Store.Hybrid.{Foyer}
use cachic.Upstream.Client.{UpstreamError}
use cachic.Orchestrator.Filler.{Reason, Progress}
use cachic.Orchestrator.Core.{Plan, FetchError, header_for}
use cachic.Orchestrator.Core.Operations.{Upstream}
use cachic.Orchestrator.Core.Fills.{Body, slice}
use cachic.Orchestrator.Core.Versions.{
  St, IsEmpty, Step, plans, fetches, stores, claims, removes, restarts, Steps, done, after,
}
use cachic.Orchestrator.Core.Versions.Requests.{plan-Versioned}
use cachic.Orchestrator.Core.Versions.Probes.{Versioned}
use cachic.Orchestrator.Core.Versions.Slices.{All-middle, slice_ranged-OneVersion}
use cachic.Orchestrator.Core.Versions.Answers.{store_filled-OneVersion, slice-header}

module _ (redb : Redb) (foyer : Foyer FetchError) (slice_size : ℕ) where
  start-Versioned :
      (st : St redb foyer slice_size)
      → IsEmpty redb foyer slice_size st
      → Versioned redb foyer slice_size st [] 0
  start-Versioned st empty = (
    λ o g. record {
      slice_size = 0;
      total_len = 0;
      generation = 0;
      etag = none;
      last_modified = none;
      content_type = none;
    },
    record {
      planned = tt;
      celled = λ o m e. absurd (cc (sym (empty.no_cell o) ∙ e));
      fits = λ o m e. absurd (cc (sym (empty.no_entry o) ∙ e));
      entered = λ o m e. absurd (cc (sym (empty.no_entry o) ∙ e));
      stored = λ k w e. absurd (cc (sym (empty.no_slice k) ∙ e));
    },
  )

  module _ (blake3 : List ℕ → List ℕ) where
    Step-more :
        {n : ℕ} {st : St redb foyer slice_size} {ps : List Plan} {m : ℕ}
        {st' : St redb foyer slice_size} {qs : List Plan}
        → Step redb foyer slice_size blake3 n st ps m st' qs
        → n ≤ m
    Step-more (plans n key raw now origin st ps time storable) = omega arith
    Step-more (fetches n stale xs p ys index origin st) = omega arith
    Step-more (stores n xs p ys index payload st) = omega arith
    Step-more (claims n fills st ps) = omega arith
    Step-more (removes n key st ps) = omega arith
    Step-more (restarts n st ps) = omega arith

    Step-Versioned :
        {n : ℕ} {st : St redb foyer slice_size} {ps : List Plan} {m : ℕ}
        {st' : St redb foyer slice_size} {qs : List Plan}
        → Step redb foyer slice_size blake3 n st ps m st' qs
        → m ≤ 4294967295
        → Versioned redb foyer slice_size st ps n
        → Versioned redb foyer slice_size st' qs m
    Step-Versioned (plans n key raw now origin st ps time storable) few v =
        plan-Versioned redb foyer slice_size blake3 key raw now origin st ps n time storable v
    Step-Versioned (fetches n stale xs p ys index origin st) few (version, v) = (
      version,
      slice_ranged-OneVersion redb foyer slice_size version (xs ++ p ∷ ys) n stale p index origin st
          (All-middle _ xs p ys v.planned) v few,
    )
    Step-Versioned (stores n xs p ys index payload st) few (version, v) = (
      version,
      store_filled-OneVersion redb foyer slice_size version (xs ++ p ∷ ys) n p 0 payload index st
          (All-middle _ xs p ys v.planned) v,
    )
    Step-Versioned (claims n fills st ps) few (version, v) = (
      version,
      record {
        planned = v.planned;
        celled = v.celled;
        fits = v.fits;
        entered = v.entered;
        stored = v.stored;
      },
    )
    Step-Versioned (removes n key st ps) few (version, v) = (
      version,
      record {
        planned = v.planned;
        celled = v.celled;
        fits = v.fits;
        entered = v.entered;
        stored = λ k w e. v.stored k w (foyer.get-remove st.slices key k w e);
      },
    )
    Step-Versioned (restarts n st ps) few (version, v) = (
      version,
      record {
        planned = tt;
        celled = λ o m e. cc;
        fits = v.fits;
        entered = v.entered;
        stored = v.stored;
      },
    )

    Steps-more :
        {n : ℕ} {st : St redb foyer slice_size} {ps : List Plan} {m : ℕ}
        {st' : St redb foyer slice_size} {qs : List Plan}
        → Steps redb foyer slice_size blake3 n st ps m st' qs
        → n ≤ m
    Steps-more done = omega arith
    Steps-more (after first rest) = omega (arith, Step-more first, Steps-more rest)

    Steps-Versioned :
        {n : ℕ} {st : St redb foyer slice_size} {ps : List Plan} {m : ℕ}
        {st' : St redb foyer slice_size} {qs : List Plan}
        → Steps redb foyer slice_size blake3 n st ps m st' qs
        → m ≤ 4294967295
        → Versioned redb foyer slice_size st ps n
        → Versioned redb foyer slice_size st' qs m
    Steps-Versioned done few v = v
    Steps-Versioned (after first rest) few v =
        Steps-Versioned rest few (Step-Versioned first (omega (arith, few, Steps-more rest)) v)

  -- From an empty cache on, after any number of planned requests, slices fetched or stored, slices removed, claims of
  -- fills and restarts, in any order, where the clock is a u64, what a probe records fits the encoding of an
  -- entry, and fewer than 2^32 fetches found the object changed: whatever `slice` answers a plan with, from the
  -- store, the origin, a fill or a stale copy, has the header of the entry that the plan was made of. So the
  -- slices of one response share the length, the generation, the validators and the content type.
  pub slice-one_version :
      (blake3 : List ℕ → List ℕ) (start st : St redb foyer slice_size) (xs : List Plan) (p : Plan)
      (ys : List Plan) (n : ℕ) (stale_on_error : Bool) (text : UpstreamError → Reason) (index : ℕ)
      (origin : Upstream) (body : Body) (seen : List Progress) (w : SliceValue)
      → IsEmpty redb foyer slice_size start
      → Steps redb foyer slice_size blake3 0 start [] n st (xs ++ p ∷ ys)
      → n ≤ 4294967295
      → (slice redb foyer slice_size stale_on_error text p index origin body seen st).0 ≡ ok w
      → w.header ≡ header_for p.meta slice_size
  slice-one_version blake3 start st xs p ys n stale_on_error text index origin body seen w empty
        steps few e =
      let (version, v) = Steps-Versioned blake3 steps few (start-Versioned start empty) in
      slice-header redb foyer slice_size version (xs ++ p ∷ ys) n p index text body seen
        stale_on_error origin st w (v, All-middle _ xs p ys v.planned) e
