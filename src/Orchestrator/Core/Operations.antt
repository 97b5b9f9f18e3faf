-- ===== src/Orchestrator/Core/Operations.antt =====
-- The methods of `Orchestrator` over its state. What the origin answers to a range is an argument.
use cachic.Common.{
  ℕ, ◌+◌, ◌-◌, ◌*◌, Bool, true, false, ◌&&◌, Option, none, some, List, [], ◌∷◌, leb, ◌==◌,
  if◌then◌else◌, Result, ok, err, ◌>>=◌,
}
use cachic.Common.Text.{text_eq}
use cachic.Proxy.Range
use cachic.Proxy.Range.{RangeSpec, ByteRange, SlicePlan, len, slice_extent, indices, count}
use cachic.Services.Key.{CacheKey, object_id}
use cachic.Store.Slice.{ObjectId}
use cachic.Store.Index.{ObjectMeta, IndexError}
use cachic.Store.Index.Table.{Redb}
use cachic.Store.Index.Table
use cachic.Store.Hybrid.{Foyer}
use cachic.Upstream.Client.{UpstreamError, UpstreamResponse}
use cachic.Orchestrator.Filler.{FillRegistry}
use cachic.Orchestrator.Core.{
  CacheStatus, hit, classify, Plan, FetchError, OrchestratorError, upstream, header_for, spec_of,
  probe_index, wanted_of, total_of, probed_meta,
}

abbrev pub Upstream : Type 0
Upstream = ℕ → ℕ → Result UpstreamResponse UpstreamError

-- `Ok(Some(meta)) if !meta.stale`.
unfoldable pub usable : Result (Option ObjectMeta) IndexError → Option ObjectMeta
usable (err e) = none
usable (ok none) = none
usable (ok (some m)) = if m.stale then none else some m

unfoldable pub previous_generation : Result (Option ObjectMeta) IndexError → ℕ
previous_generation (err e) = 0
previous_generation (ok none) = 0
previous_generation (ok (some m)) = m.generation

-- The stored slices of a plan, less the one that its own probe has just stored.
unfoldable pub resident_before : Bool → SlicePlan → ℕ → ℕ → ℕ
resident_before probed_here span probed resident =
    if probed_here && (leb span.first probed && leb probed span.last)
    then resident - 1
    else resident

unfoldable pub is_some_spec : Option RangeSpec → Bool
is_some_spec none = false
is_some_spec (some s) = true

unfoldable pub count_stored : (ℕ → Bool) → List ℕ → ℕ
count_stored stored [] = 0
count_stored stored (i ∷ is) =
    let more = count_stored stored is in if stored i then more + 1 else more

module _ (redb : Redb) (foyer : Foyer FetchError) (slice_size : ℕ) where
  open redb use {Table as T}
  open foyer use {Cache}

  pub record State : Type 0 where
    pub index : T
    pub slices : Cache
    pub metadata : ObjectId → Option ObjectMeta
    pub fills : FillRegistry

  -- The cell of one object set, or removed.
  unfoldable pub set_cell : ObjectId → Option ObjectMeta → State → State
  set_cell object v st = record st { metadata = λ o. if text_eq object o then v else st.metadata o }

  unfoldable pub bumped : ObjectId → State → Result (T × ℕ) IndexError → ℕ × State
  unfolding set_cell
  bumped object st (ok (t, generation)) =
      (generation, set_cell object none (record st { index = t }))
  bumped object st (err e) = (1, set_cell object none st)

  unfoldable pub bump_generation : ObjectId → State → ℕ × State
  unfolding bumped
  bump_generation object st = bumped object st (Table.invalidate redb object st.index)

  -- The end of `probe`, with the length learnt.
  unfoldable pub record_probe :
      CacheKey → ObjectId → ℕ → ℕ → UpstreamResponse → State → ℕ × Bool → ObjectMeta × State
  unfolding previous_generation
  record_probe key object now index r st (total, no_ranges) =
      let meta =
        probed_meta key now (previous_generation (Table.get redb object st.index)) r
          (total, no_ranges) in
      let kept : State = if no_ranges then st else record st {
        slices =
            foyer.insert st.slices
              (record { object = object; generation = meta.generation; index = index })
              (record { header = header_for meta slice_size; payload = r.body });
      } in
      (meta, record kept { index = Table.put redb object meta kept.index })

  unfoldable pub probe_answer :
      CacheKey
      → ObjectId
      → ℕ
      → ℕ
      → State
      → Result UpstreamResponse UpstreamError
      → Result (ObjectMeta × State) OrchestratorError
  unfolding record_probe
  probe_answer key object now index st (err e) = err (upstream e)
  probe_answer key object now index st (ok r) =
      total_of r >>= λ t. ok (record_probe key object now index r st t)

  -- An error leaves the state as it was.
  unfoldable pub probe :
      CacheKey → ObjectId → ℕ → ℕ → Upstream → State → Result (ObjectMeta × State) OrchestratorError
  unfolding probe_answer
  probe key object now index origin st =
      let start = index * slice_size in
      probe_answer key object now index st (origin start (start + slice_size - 1))

  unfoldable pub touched : State → Result (T × Bool) IndexError → State
  touched st (ok (t, wrote)) = record st { index = t }
  touched st (err e) = st

  -- `get_or_try_init` of the object's cell.
  unfoldable pub from_cell :
      CacheKey
      → ObjectId
      → ℕ
      → ℕ
      → Upstream
      → State
      → Option ObjectMeta
      → Result ((ObjectMeta × Bool) × State) OrchestratorError
  unfolding probe set_cell
  from_cell key object now index origin st (some m) = ok ((m, false), st)
  from_cell key object now index origin st none =
      probe key object now index origin st >>= λ (m, st').
      ok ((m, true), set_cell object (some m) st')

  unfoldable pub from_index :
      CacheKey
      → ObjectId
      → ℕ
      → ℕ
      → Upstream
      → State
      → Option ObjectMeta
      → Result ((ObjectMeta × Bool) × State) OrchestratorError
  unfolding from_cell touched
  from_index key object now index origin st (some m) =
      ok ((m, false), touched st (Table.touch redb now object st.index))
  from_index key object now index origin st none =
      from_cell key object now index origin st (st.metadata object)

  unfoldable pub metadata_of :
      CacheKey
      → ObjectId
      → ℕ
      → ℕ
      → Upstream
      → State
      → Result ((ObjectMeta × Bool) × State) OrchestratorError
  unfolding from_index usable
  metadata_of key object now index origin st =
      from_index key object now index origin st (usable (Table.get redb object st.index))

  unfoldable pub cache_status_of :
      ObjectId → ObjectMeta → Bool → ℕ → ByteRange → State → CacheStatus
  unfolding count_stored resident_before
  cache_status_of object m probed_here probed wanted st =
      if m.total_len == 0
      then hit
      else let span = Range.plan wanted slice_size in
        let stored : ℕ → Bool = λ i.
          foyer.contains st.slices
            (record { object = object; generation = m.generation; index = i }) in
        classify (resident_before probed_here span probed (count_stored stored (indices span)))
          (count span)

  -- The status is 206 for a request with a range, 200 otherwise.
  unfoldable pub make_plan :
      CacheKey
      → ObjectId
      → Option RangeSpec
      → ℕ
      → ByteRange
      → (ObjectMeta × Bool) × State
      → Plan × State
  unfolding cache_status_of is_some_spec
  make_plan key object spec probed wanted ((m, probed_here), st) =
      let partial = is_some_spec spec in
      (
        record {
          service = key.service;
          status = if partial then 206 else 200;
          wanted = wanted;
          total_len = m.total_len;
          cache_status = cache_status_of object m probed_here probed wanted st;
          meta = m;
          object = object;
          partial = partial;
        },
        st,
      )

  -- The plan of a request, or its error, with the state in which it leaves the orchestrator: a range that cannot
  -- be satisfied is found only after the probe.
  unfoldable pub plan_wanted :
      CacheKey
      → ObjectId
      → Option RangeSpec
      → ℕ
      → (ObjectMeta × Bool) × State
      → Result ByteRange OrchestratorError
      → Result Plan OrchestratorError × State
  unfolding make_plan
  plan_wanted key object spec probed (known, st) (err e) = (err e, st)
  plan_wanted key object spec probed (known, st) (ok wanted) =
      (ok (make_plan key object spec probed wanted (known, st)).0, st)

  unfoldable pub plan_parsed :
      CacheKey
      → ObjectId
      → Option RangeSpec
      → ℕ
      → State
      → Result ((ObjectMeta × Bool) × State) OrchestratorError
      → Result Plan OrchestratorError × State
  unfolding plan_wanted
  plan_parsed key object spec probed st (err e) = (err e, st)
  plan_parsed key object spec probed st (ok ((m, probed_here), st')) =
      plan_wanted key object spec probed ((m, probed_here), st') (wanted_of m.total_len spec)

  unfoldable pub plan :
      (List ℕ → List ℕ)
      → CacheKey
      → Option (List ℕ)
      → ℕ
      → Upstream
      → State
      → Result Plan OrchestratorError × State
  unfolding plan_parsed metadata_of
  plan blake3 key raw_range now origin st =
      let object = object_id blake3 key in
      let spec = spec_of raw_range in
      let probed = probe_index slice_size spec in
      plan_parsed key object spec probed st (metadata_of key object now probed origin st)
