-- ===== src/Orchestrator/Core/Slicing/Changed.antt =====
-- What a fetch does when the object has changed at its origin, and what it takes from the origin otherwise.
use cachic.Common.{
  ℕ, ◌+◌, ◌%◌, ◌^◌, ◌≡◌, refl, Bool, true, false, not, ◌&&◌, Bool-cases, ◌⊎◌, inl, inr, ◌==◌,
  Option, none, some, List, Result, ok, err, ◌>>=◌, length,
}
use cachic.Common.Text.Laws.{text_eq_refl}
use cachic.Proxy.Range.{len, slice_extent}
use cachic.Services.Key.{CacheKey}
use cachic.Store.Slice.{ObjectId, SliceValue}
use cachic.Store.Index.{ObjectMeta}
use cachic.Store.Index.Encoding.{IsMeta}
use cachic.Store.Index.Table.{Redb}
use cachic.Store.Index.Table
use cachic.Store.Index.Table.Laws.{invalidate_known}
use cachic.Store.Hybrid.{Foyer}
use cachic.Upstream.Client.{UpstreamResponse, UpstreamError}
use cachic.Orchestrator.Validators.{Validators, matches}
use cachic.Orchestrator.Core.{
  Plan, FetchError, OrchestratorError, validators_changed, validator_changed, slice_key,
  validators_of,
}
use cachic.Orchestrator.Core.Operations.{
  Upstream, State, set_cell, bumped, bump_generation, usable, probe, from_cell, from_index,
  metadata_of,
}
use cachic.Orchestrator.Core.Slicing.{checked, after_fetch, slice_ranged}

-- The validators that the plan expects.
abbrev pub expected : Plan → Validators
expected p = record { etag = p.meta.etag; last_modified = p.meta.last_modified }

-- What the origin answers for a slice of the plan.
abbrev pub answer_for : ℕ → Plan → ℕ → Upstream → Result UpstreamResponse UpstreamError
answer_for slice_size p index origin =
    origin (slice_extent index slice_size p.total_len).start
      (slice_extent index slice_size p.total_len).end

abbrev pub next : ObjectMeta → ObjectMeta
next m = record m { generation = (m.generation + 1) % 2 ^ 32; stale = true }

pub checked-changed :
    (slice_size : ℕ) (p : Plan) (index : ℕ) (r : UpstreamResponse)
    → matches (expected p) (validators_of r) ≡ false
    → checked slice_size p index (ok r) ≡ (err validators_changed, some (validators_of r))
unfolding checked
checked-changed slice_size p index r h = rw h refl

checked-same :
    (slice_size : ℕ) (p : Plan) (index : ℕ) (r : UpstreamResponse)
    → matches (expected p) (validators_of r) ≡ true
    → (checked slice_size p index (ok r)).1 ≡ none
unfolding checked
checked-same slice_size p index r h =
    rw h (elim (Bool-cases (length r.body == len (slice_extent index slice_size p.total_len))) [
      | inl full ↦ rw full refl
      | inr short ↦ rw short refl
    ])

-- That the object has changed is found by whoever ran the closure, when it failed and the validators differ.
abbrev pub discovered : Result SliceValue (List ℕ) → Bool → Bool → Bool
discovered (ok v) ran agree = false
discovered (err text) ran agree = ran && not agree

discovered_same : (o : Result SliceValue (List ℕ)) (ran : Bool) → discovered o ran true ≡ false
discovered_same (ok v) ran = refl
discovered_same (err text) true = refl
discovered_same (err text) false = refl

module _ (redb : Redb) (foyer : Foyer FetchError) (slice_size : ℕ) where
  bump_generation-known :
      (st : State redb foyer slice_size) (p : Plan) (m : ObjectMeta)
      → IsMeta m
      → Table.get redb p.object st.index ≡ ok (some m)
      → (Table.get redb p.object (bump_generation redb foyer slice_size p.object st).1.index
          ≡ ok (some (next m)))
        × ((bump_generation redb foyer slice_size p.object st).1.metadata p.object ≡ none)
  unfolding bump_generation bumped set_cell
  bump_generation-known st p m valid found =
      let (done, seen) = invalidate_known redb p.object p.object m st.index valid found in
      rw done (rw (text_eq_refl p.object) at seen, rw (text_eq_refl p.object) refl)

  -- With an entry that is stale and no cell, whoever asks for the object's metadata has the origin probed for it,
  -- and the others get what the probe learns.
  metadata_of-stale :
      (key : CacheKey) (object : ObjectId) (now index : ℕ) (origin : Upstream)
      (st : State redb foyer slice_size) (m : ObjectMeta)
      → Table.get redb object st.index ≡ ok (some m)
      → m.stale ≡ true
      → st.metadata object ≡ none
      → metadata_of redb foyer slice_size key object now index origin st ≡ (
          probe redb foyer slice_size key object now index origin st >>= λ (learnt, st').
          ok ((learnt, true), set_cell redb foyer slice_size object (some learnt) st'))
  unfolding metadata_of from_index from_cell usable
  metadata_of-stale key object now index origin st m found stale no_cell =
      rw found (rw (stale, no_cell) refl)

  slice_ranged-after_fetch :
      (stale_on_error : Bool) (p : Plan) (index : ℕ) (origin : Upstream)
      (st : State redb foyer slice_size) (r : UpstreamResponse)
      (outcome : Result SliceValue (List ℕ)) (ran : Bool) (c : foyer.Cache)
      → answer_for slice_size p index origin ≡ ok r
      → foyer.get_or_fetch st.slices (slice_key p index) (checked slice_size p index (ok r)).0
        ≡ (outcome, ran, c)
      → slice_ranged redb foyer slice_size stale_on_error p index origin st
        ≡ after_fetch redb foyer slice_size stale_on_error p index
            (record st { slices = c })
            (checked slice_size p index (ok r)).1
            (outcome, ran)
  unfolding slice_ranged
  slice_ranged-after_fetch stale_on_error p index origin st r outcome ran c answered done =
      rw answered (rw done refl)

  -- Neither the index nor a cell differs.
  abbrev pub Unchanged : (before after : State redb foyer slice_size) → Type 0
  Unchanged before after = (after.index ≡ before.index) × (after.metadata ≡ before.metadata)

  after_fetch-Unchanged :
      (stale_on_error : Bool) (p : Plan) (index : ℕ) (st : State redb foyer slice_size)
      (observed : Option Validators) (outcome : Result SliceValue (List ℕ)) (ran agree : Bool)
      → discovered outcome ran agree ≡ false
      → (agree ≡ true → observed ≡ none)
      → Unchanged st
          (after_fetch redb foyer slice_size stale_on_error p index st observed (outcome, ran)).1
  unfolding after_fetch
  after_fetch-Unchanged stale_on_error p index st observed (ok v) ran agree h same = (refl, refl)
  after_fetch-Unchanged stale_on_error p index st none (err text) ran agree h same = (refl, refl)
  after_fetch-Unchanged stale_on_error p index st (some now) (err text) false agree h same =
      (refl, refl)
  after_fetch-Unchanged stale_on_error p index st (some now) (err text) true true h same =
      cc (same refl)
  after_fetch-Unchanged stale_on_error p index st (some now) (err text) true false h same = cc

  -- What holds after the slice of a changed object was fetched.
  abbrev pub Invalidated :
      Plan
      → UpstreamResponse
      → ObjectMeta
      → CacheKey
      → ℕ
      → ℕ
      → Upstream
      → Result SliceValue OrchestratorError × State redb foyer slice_size
      → Type 0
  Invalidated p r m key now index' origin' (answer, after) =
      (answer ≡ err (validator_changed p.meta.etag (validators_of r).etag))
      × (Table.get redb p.object after.index ≡ ok (some (next m)))
      × (after.metadata p.object ≡ none)
      × (metadata_of redb foyer slice_size key p.object now index' origin' after ≡ (
          probe redb foyer slice_size key p.object now index' origin' after >>= λ (learnt, st').
          ok ((learnt, true), set_cell redb foyer slice_size p.object (some learnt) st')))

  after_fetch-Invalidated :
      (stale_on_error : Bool) (p : Plan) (index : ℕ) (st : State redb foyer slice_size)
      (r : UpstreamResponse) (m : ObjectMeta) (text : List ℕ) (key : CacheKey) (now index' : ℕ)
      (origin' : Upstream)
      → IsMeta m
      → Table.get redb p.object st.index ≡ ok (some m)
      → Invalidated p r m key now index' origin' (
          after_fetch redb foyer slice_size stale_on_error p index st
            (some (validators_of r))
            (err text, true))
  unfolding after_fetch
  after_fetch-Invalidated stale_on_error p index st r m text key now index' origin' valid found =
      let (entry, cell) = bump_generation-known st p m valid found in
      (
        refl,
        entry,
        cell,
        metadata_of-stale key p.object now index' origin'
            (bump_generation redb foyer slice_size p.object st).1 (next m) entry refl cell,
      )

  after_fetch-branches :
      (stale_on_error : Bool) (p : Plan) (index : ℕ) (st : State redb foyer slice_size)
      (r : UpstreamResponse) (m : ObjectMeta) (outcome : Result SliceValue (List ℕ)) (ran : Bool)
      (key : CacheKey) (now index' : ℕ) (origin' : Upstream)
      → IsMeta m
      → Table.get redb p.object st.index ≡ ok (some m)
      → ((matches (expected p) (validators_of r) ≡ true)
          ⊎ (matches (expected p) (validators_of r) ≡ false))
      → let agree = matches (expected p) (validators_of r) in
        let fetched =
          after_fetch redb foyer slice_size stale_on_error p index st
            (checked slice_size p index (ok r)).1
            (outcome, ran) in
        ((discovered outcome ran agree ≡ true) × Invalidated p r m key now index' origin' fetched)
        ⊎ ((discovered outcome ran agree ≡ false) × Unchanged st fetched.1)
  after_fetch-branches stale_on_error p index st r m o ran key now index' origin' valid found
        (inl same) =
      rw same (
        inr (
          discovered_same o ran,
          after_fetch-Unchanged stale_on_error p index st _ o ran true (discovered_same o ran)
              (λ x. checked-same slice_size p index r same),
        ))
  after_fetch-branches stale_on_error p index st r m (ok v) ran key now index' origin' valid found
        (inr other) =
      inr (refl, after_fetch-Unchanged stale_on_error p index st _ (ok v) ran false refl (λ x. cc))
  after_fetch-branches stale_on_error p index st r m (err text) false key now index' origin' valid
        found (inr other) =
      inr (
        refl,
        after_fetch-Unchanged stale_on_error p index st _ (err text) false false refl (λ x. cc),
      )
  after_fetch-branches stale_on_error p index st r m (err text) true key now index' origin' valid
        found (inr other) =
      rw (checked-changed slice_size p index r other) (
        rw other (
          inl (
            refl,
            after_fetch-Invalidated stale_on_error p index st r m text key now index' origin' valid
                found,
          )))

  -- For an object with a valid entry in the index, when the origin answers the range of a slice and foyer, given what
  -- the closure makes of that answer, reports an outcome and whether it ran the closure: if foyer ran it and reports an
  -- error and the validators are not those of the plan, then the slice is answered with `validator_changed`, the entry
  -- of the object is stale at the next generation, its cell is empty, and the next request for its metadata, by
  -- whatever key and for whatever slice, probes the origin and keeps what it learns in the cell; in all other cases
  -- the index and the cells are as before.
  pub slice_ranged-changed :
      (stale_on_error : Bool) (p : Plan) (index : ℕ) (origin : Upstream)
      (st : State redb foyer slice_size) (m : ObjectMeta) (r : UpstreamResponse)
      (outcome : Result SliceValue (List ℕ)) (ran : Bool) (c : foyer.Cache) (key : CacheKey)
      (now index' : ℕ) (origin' : Upstream)
      → IsMeta m
      → Table.get redb p.object st.index ≡ ok (some m)
      → answer_for slice_size p index origin ≡ ok r
      → foyer.get_or_fetch st.slices (slice_key p index) (checked slice_size p index (ok r)).0
        ≡ (outcome, ran, c)
      → let agree = matches (expected p) (validators_of r) in
        let fetched = slice_ranged redb foyer slice_size stale_on_error p index origin st in
        ((discovered outcome ran agree ≡ true) × Invalidated p r m key now index' origin' fetched)
        ⊎ ((discovered outcome ran agree ≡ false) × Unchanged st fetched.1)
  slice_ranged-changed stale_on_error p index origin st m r outcome ran c key now index' origin'
        valid found answered done =
      rw (slice_ranged-after_fetch stale_on_error p index origin st r outcome ran c answered done) (
        after_fetch-branches stale_on_error p index (record st { slices = c }) r m outcome ran key
          now index' origin' valid found (Bool-cases (matches (expected p) (validators_of r))))
