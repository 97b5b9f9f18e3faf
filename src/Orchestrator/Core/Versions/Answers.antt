-- ===== src/Orchestrator/Core/Versions/Answers.antt =====
-- What `slice` answers in a state that goes with the plan.
use cachic.Common.{
  ℕ, ◌≡◌, ap, subst, Bool, false, Bool-cases, ◌⊎◌, inl, inr, Option, none, some, List, [], ◌∷◌,
  Result, ok, err, ok-injective, if◌then◌else◌,
}
use cachic.Store.Slice.{SliceKey, SliceValue}
use cachic.Store.Index.Table.{Redb}
use cachic.Store.Hybrid.{Foyer}
use cachic.Upstream.Client.{UpstreamError}
use cachic.Orchestrator.Filler.{Reason, Role, filler, subscriber, FillRegistry, Progress, claim}
use cachic.Orchestrator.Fill.{Event, insert, publish}
use cachic.Orchestrator.Core.{Plan, FetchError, OrchestratorError, header_for, slice_key}
use cachic.Orchestrator.Core.Operations.{Upstream}
use cachic.Orchestrator.Core.Slicing.{slice_ranged}
use cachic.Orchestrator.Core.Fills.{
  Body, store_filled, apply_events, finished, fill_events, filled_as, ensure_filled, filled_answer,
  slice_filled, slice,
}
use cachic.Orchestrator.Core.Versions.{Version, St, Tagged, OneVersion}
use cachic.Orchestrator.Core.Versions.Slices.{
  put_slice-OneVersion, held-header, slice_ranged-header,
}

module _ (redb : Redb) (foyer : Foyer FetchError) (slice_size : ℕ) where
  module _ (version : Version) (ps : List Plan) (n : ℕ) (p : Plan) (index : ℕ) where
    pub store_filled-OneVersion :
        (payload : List ℕ) (at : ℕ) (st : St redb foyer slice_size)
        → Tagged redb foyer slice_size version st.index p.object p.meta
        → OneVersion redb foyer slice_size version st ps n
        → OneVersion redb foyer slice_size version
            (store_filled redb foyer slice_size p at payload st)
            ps
            n
    unfolding store_filled
    store_filled-OneVersion payload at st k v =
        put_slice-OneVersion redb foyer slice_size version ps n st _ p at k found v
      where
        found :
            (j : SliceKey) (w : SliceValue)
            → foyer.get
                (foyer.insert st.slices
                  (slice_key p at)
                  (record { header = header_for p.meta slice_size; payload = payload }))
                j
              ≡ ok (some w)
            → ((j ≡ slice_key p at) × (w.header ≡ header_for p.meta slice_size))
              ⊎ (foyer.get st.slices j ≡ ok (some w))
        found j w e = elim (foyer.get-insert st.slices (slice_key p at) j _ w e) [
          | inl (at_key, put) ↦ inl (at_key, ap (λ u. u.header) put)
          | inr old ↦ inr old
        ]

    -- A state that goes with the plan.
    abbrev pub Fitting : St redb foyer slice_size → Type 0
    Fitting st =
        OneVersion redb foyer slice_size version st ps n
        × Tagged redb foyer slice_size version st.index p.object p.meta

    with_fills :
        (r : FillRegistry) (st : St redb foyer slice_size)
        → Fitting st
        → Fitting (record st { fills = r })
    with_fills r st (v, k) = (
      record {
        planned = v.planned;
        celled = v.celled;
        fits = v.fits;
        entered = v.entered;
        stored = v.stored;
      },
      k,
    )

    apply_events-Fitting :
        (channel : ℕ) (events : List Event) (st : St redb foyer slice_size)
        → Fitting st
        → Fitting (apply_events redb foyer slice_size p channel events st)
    unfolding apply_events store_filled
    apply_events-Fitting channel [] st h = h
    apply_events-Fitting channel (insert at payload ∷ rest) st (v, k) =
        apply_events-Fitting channel rest _ (store_filled-OneVersion payload at st k v, k)
    apply_events-Fitting channel (publish m ∷ rest) st h =
        apply_events-Fitting channel rest _ (with_fills _ st h)

    finished-Fitting :
        (channel : ℕ) (text : UpstreamError → Reason) (result : Result ℕ UpstreamError)
        (st : St redb foyer slice_size)
        → Fitting st
        → Fitting (finished redb foyer slice_size p index channel text result st).1
    unfolding finished
    finished-Fitting channel text (ok count) st h = with_fills _ st h
    finished-Fitting channel text (err e) st h = with_fills _ st h

    module _ (text : UpstreamError → Reason) (body : Body) (seen : List Progress) where
      filled_as-Fitting :
          (r : FillRegistry) (role : Role) (st : St redb foyer slice_size)
          → Fitting st
          → Fitting (filled_as redb foyer slice_size p index text body seen (r, role) st).1
      unfolding filled_as
      filled_as-Fitting r (subscriber channel) st h = with_fills r st h
      filled_as-Fitting r (filler channel) st h = finished-Fitting channel text _ _ (
          apply_events-Fitting channel (fill_events redb foyer slice_size body).0 _
            (with_fills r st h))

      ensure_filled-Fitting :
          (st : St redb foyer slice_size)
          → Fitting st
          → Fitting (ensure_filled redb foyer slice_size p index text body seen st).1
      unfolding ensure_filled
      ensure_filled-Fitting st h =
          elim (Bool-cases (foyer.contains st.slices (slice_key p index))) [
            | inl there ↦ rw there h
            | inr absent ↦ rw absent (filled_as-Fitting _ (claim p.object st.fills).1 st h)
          ]

      filled_answer-held :
          (r : Result (Option SliceValue) (List ℕ)) (w : SliceValue)
          → filled_answer redb foyer slice_size r ≡ ok w
          → r ≡ ok (some w)
      unfolding filled_answer
      filled_answer-held (ok (some v)) w e = ap (λ x. ok (some x)) (ok-injective e)
      filled_answer-held (ok none) w e = cc
      filled_answer-held (err t) w e = cc

      slice_filled-header :
          (r : Result (Unit {0}) OrchestratorError) (st : St redb foyer slice_size) (w : SliceValue)
          → Fitting st
          → (slice_filled redb foyer slice_size p index (r, st)).0 ≡ ok w
          → w.header ≡ header_for p.meta slice_size
      unfolding slice_filled
      slice_filled-header (ok u) st w (v, k) e =
          held-header redb foyer slice_size version ps n false p index st w k v
            (filled_answer-held _ w e)
      slice_filled-header (err x) st w h e = cc

      pub slice-header :
          (stale_on_error : Bool) (origin : Upstream) (st : St redb foyer slice_size)
          (w : SliceValue)
          → Fitting st
          → (slice redb foyer slice_size stale_on_error text p index origin body seen st).0 ≡ ok w
          → w.header ≡ header_for p.meta slice_size
      unfolding slice
      slice-header stale_on_error origin st w (v, k) e = elim (Bool-cases p.meta.no_ranges) [
        | inl whole ↦ slice_filled-header _ _ w (ensure_filled-Fitting st (v, k)) (chosen whole)
        | inr ranges ↦
            slice_ranged-header redb foyer slice_size version ps n stale_on_error p index origin st
              w k v (chosen ranges)
      ]
        where
          chosen :
              {b : Bool}
              → p.meta.no_ranges ≡ b
              → (if b
                  then slice_filled redb foyer slice_size p index
                      (ensure_filled redb foyer slice_size p index text body seen st)
                  else slice_ranged redb foyer slice_size stale_on_error p index origin st).0
                ≡ ok w
          chosen h =
              subst
                (λ b.
                  (if b
                    then slice_filled redb foyer slice_size p index
                        (ensure_filled redb foyer slice_size p index text body seen st)
                    else slice_ranged redb foyer slice_size stale_on_error p index origin st).0
                  ≡ ok w)
                h e
