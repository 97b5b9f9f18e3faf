-- ===== src/Orchestrator/Core/Versions.antt =====
-- Which version of an object a slice belongs to: the requests, slice fetches and fills of a running cache, in any
-- order, and what ties the stored slices to the plans.
pub mod Entries
pub mod Probes
pub mod Requests
pub mod Slices
pub mod Answers
pub mod Served
use cachic.Common.{
  ℕ, ◌+◌, ◌≤◌, ◌<◌, ◌≡◌, Bool, true, false, Option, none, some, List, ◌∷◌, ◌++◌, [], Result, ok,
  err, All,
}
use cachic.Services.Key.{CacheKey}
use cachic.Store.Slice.{ObjectId, SliceKey, SliceHeader, SliceValue}
use cachic.Store.Index.{ObjectMeta}
use cachic.Store.Index.Encoding.{IsMeta}
use cachic.Store.Index.Table.{Redb}
use cachic.Store.Index.Table
use cachic.Store.Hybrid.{Foyer}
use cachic.Common.Words.{IsU32, IsU64}
use cachic.Upstream.Client.{UpstreamResponse}
use cachic.Orchestrator.Filler.{FillRegistry}
use cachic.Orchestrator.Core.{
  Plan, FetchError, OrchestratorError, validator_changed, header_for, total_of, probed_meta,
}
use cachic.Orchestrator.Core.Operations.{Upstream, State, plan}
use cachic.Orchestrator.Core.Slicing.{slice_ranged}
use cachic.Orchestrator.Core.Fills.{store_filled}

abbrev pub Version : Type 0
Version = ObjectId → ℕ → SliceHeader

-- A generation is over once the entry is at a later one, and as soon as it is stale.
abbrev pub Reached : ObjectMeta → ℕ → Type 0
Reached m g = (g ≤ m.generation) × (m.stale ≡ true → g < m.generation)

-- What a probe at `now` records of any response fits its encoding.
abbrev pub Storable : CacheKey → ℕ → Upstream → Type 0
Storable key now origin =
    (a b g : ℕ) (r : UpstreamResponse) (t : ℕ × Bool)
    → IsU32 g
    → origin a b ≡ ok r
    → total_of r ≡ ok t
    → IsMeta (probed_meta key now g r t)

-- A plan that was answered is added.
unfoldable pub issued : Result Plan OrchestratorError → List Plan → List Plan
issued (ok p) ps = p ∷ ps
issued (err e) ps = ps

-- How many invalidations an answer stands for.
unfoldable pub bumps : Result SliceValue OrchestratorError → ℕ
bumps (err (validator_changed had now)) = 1
bumps r = 0

module _ (redb : Redb) (foyer : Foyer FetchError) (slice_size : ℕ) where
  open redb use {Table as T}

  abbrev pub St : Type 0
  St = State redb foyer slice_size

  -- The index has an entry of the object, and the generation was or is one of its.
  unfoldable pub Known : T → ObjectId → ℕ → Type 0
  Known t o g = (m : ObjectMeta) × (Table.get redb o t ≡ ok (some m)) × Reached m g

  -- An entry of this version.
  abbrev pub Tagged : Version → T → ObjectId → ObjectMeta → Type 0
  Tagged version t o m = (header_for m slice_size ≡ version o m.generation) × Known t o m.generation

  -- Every plan, cell, stored slice and usable entry of an object and a generation is of one version.
  pub record OneVersion (version : Version) (st : St) (plans : List Plan) (n : ℕ) : Type 0 where
    pub planned : All (λ p. Tagged version st.index p.object p.meta) plans
    pub celled :
        (o : ObjectId) (m : ObjectMeta) → st.metadata o ≡ some m → Tagged version st.index o m
    pub fits :
        (o : ObjectId) (m : ObjectMeta)
        → Table.get redb o st.index ≡ ok (some m)
        → IsMeta m × (m.generation ≤ n)
    pub entered :
        (o : ObjectId) (m : ObjectMeta)
        → Table.get redb o st.index ≡ ok (some m)
        → m.stale ≡ false
        → header_for m slice_size ≡ version o m.generation
    pub stored :
        (k : SliceKey) (v : SliceValue)
        → foyer.get st.slices k ≡ ok (some v)
        → (v.header ≡ version k.object k.generation) × Known st.index k.object k.generation

  -- No entry, cell or slice.
  pub record IsEmpty (st : St) : Type 0 where
    pub no_entry : (o : ObjectId) → Table.get redb o st.index ≡ ok none
    pub no_cell : (o : ObjectId) → st.metadata o ≡ none
    pub no_slice : (k : SliceKey) → foyer.get st.slices k ≡ ok none

  -- One request planned, one slice of an earlier plan fetched, one slice of it stored by a fill, a change of the
  -- fills, one slice removed, or a restart, which keeps the index and the store. The numbers count the
  -- invalidations.
  pub data Step (blake3 : List ℕ → List ℕ) : ℕ → St → List Plan → ℕ → St → List Plan → Type 0 where
    plans :
        (n : ℕ) (key : CacheKey) (raw_range : Option (List ℕ)) (now : ℕ) (origin : Upstream)
        (st : St) (ps : List Plan)
        → IsU64 now
        → Storable key now origin
        → Step blake3 n st ps n
            (plan redb foyer slice_size blake3 key raw_range now origin st).1
            (issued (plan redb foyer slice_size blake3 key raw_range now origin st).0 ps)
    fetches :
        (n : ℕ) (stale_on_error : Bool) (xs : List Plan) (p : Plan) (ys : List Plan) (index : ℕ)
        (origin : Upstream) (st : St)
        → Step blake3 n st
            (xs ++ p ∷ ys)
            (n + bumps (slice_ranged redb foyer slice_size stale_on_error p index origin st).0)
            (slice_ranged redb foyer slice_size stale_on_error p index origin st).1
            (xs ++ p ∷ ys)
    stores :
        (n : ℕ) (xs : List Plan) (p : Plan) (ys : List Plan) (index : ℕ) (payload : List ℕ)
        (st : St)
        → Step blake3 n st
            (xs ++ p ∷ ys)
            n
            (store_filled redb foyer slice_size p index payload st)
            (xs ++ p ∷ ys)
    claims :
        (n : ℕ) (fills : FillRegistry) (st : St) (ps : List Plan)
        → Step blake3 n st ps n (record st { fills = fills }) ps
    removes :
        (n : ℕ) (key : SliceKey) (st : St) (ps : List Plan)
        → Step blake3 n st ps n (record st { slices = foyer.remove st.slices key }) ps
    restarts :
        (n : ℕ) (st : St) (ps : List Plan)
        → Step blake3 n st ps n
            (record st { metadata = λ o. none; fills = record { fills = []; channels = [] } })
            []

  pub data Steps (blake3 : List ℕ → List ℕ) : ℕ → St → List Plan → ℕ → St → List Plan → Type 0 where
    done : {n : ℕ} {st : St} {ps : List Plan} → Steps blake3 n st ps n st ps
    after :
        {n m k : ℕ} {st st' st'' : St} {ps qs rs : List Plan}
        → Step blake3 n st ps m st' qs
        → Steps blake3 m st' qs k st'' rs
        → Steps blake3 n st ps k st'' rs
