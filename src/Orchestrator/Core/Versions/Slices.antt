-- ===== src/Orchestrator/Core/Versions/Slices.antt =====
-- Fetched, filled and removed slices, and invalidations, against the versions.
use cachic.Common.{
  ℕ, ◌+◌, ◌%◌, ◌^◌, ◌≤◌, ◌<◌, ◌≡◌, refl, sym, ap, ◌∙◌, subst, Bool, true, false, ◌⊎◌, inl, inr,
  Option, none, some, List, [], ◌∷◌, ◌++◌, Result, ok, err, ok-injective, All, arith,
}
use cachic.Proxy.Range.{slice_extent}
use cachic.Store.Slice.{ObjectId, SliceKey, SliceValue}
use cachic.Store.Index.{ObjectMeta}
use cachic.Store.Index.Encoding.{IsMeta}
use cachic.Store.Index.Table.{Redb}
use cachic.Store.Index.Table.Laws.{invalidate_known}
use cachic.Store.Hybrid.{Foyer}
use cachic.Upstream.Client.{UpstreamResponse, UpstreamError}
use cachic.Orchestrator.Validators.{Validators}
use cachic.Orchestrator.Core.{Plan, FetchError, OrchestratorError, store, header_for, slice_key}
use cachic.Orchestrator.Core.Operations.{Upstream, bumped, bump_generation}
use cachic.Orchestrator.Core.Slicing.{checked, stale_answer, after_fetch, slice_ranged}
use cachic.Orchestrator.Core.Slicing.Source.{checked-ok, stale_answer-ok}
use cachic.Orchestrator.Core.Versions.{Version, Reached, bumps, St, Known, Tagged, OneVersion}
use cachic.Orchestrator.Core.Versions.Entries.{
  Known-entry, put-OneVersion, slices-OneVersion, cell-OneVersion,
}

pub All-middle :
    {A : Type 0} (P : A → Type 0) (xs : List A) (p : A) (ys : List A) → All P (xs ++ p ∷ ys) → P p
All-middle P [] p ys (h, hs) = h
All-middle P (x ∷ xs) p ys (h, hs) = All-middle P xs p ys hs

checked-header :
    (slice_size : ℕ) (p : Plan) (index : ℕ) (r : Result UpstreamResponse UpstreamError)
    {w : SliceValue}
    → (checked slice_size p index r).0 ≡ ok w
    → w.header ≡ header_for p.meta slice_size
checked-header slice_size p index r h =
    let (response, answered, same, whole, made) = checked-ok slice_size p index r h in
    ap (λ v. v.header) made

module _ (redb : Redb) (foyer : Foyer FetchError) (slice_size : ℕ) where
  stale_answer-bumps :
      (allowed : Bool) (text : List ℕ) (r : Result (Option SliceValue) (List ℕ))
      → bumps (stale_answer redb foyer slice_size allowed (store text) r) ≡ 0
  unfolding bumps stale_answer
  stale_answer-bumps true text (ok (some v)) = refl
  stale_answer-bumps false text (ok (some v)) = refl
  stale_answer-bumps allowed text (ok none) = refl
  stale_answer-bumps allowed text (err e) = refl

module _ (redb : Redb) (foyer : Foyer FetchError) (slice_size : ℕ) (version : Version)
    (ps : List Plan) (n : ℕ) where
  -- A slice put at its plan's key.
  pub put_slice-OneVersion :
      (st : St redb foyer slice_size) (c : foyer.Cache) (p : Plan) (index : ℕ)
      → Tagged redb foyer slice_size version st.index p.object p.meta
      → ((k : SliceKey) (w : SliceValue)
          → foyer.get c k ≡ ok (some w)
          → ((k ≡ slice_key p index) × (w.header ≡ header_for p.meta slice_size))
            ⊎ (foyer.get st.slices k ≡ ok (some w)))
      → OneVersion redb foyer slice_size version st ps n
      → OneVersion redb foyer slice_size version (record st { slices = c }) ps n
  unfolding slice_key
  put_slice-OneVersion st c p index (same, known) h v =
      slices-OneVersion redb foyer slice_size version st ps n c found v
    where
      found :
          (k : SliceKey) (w : SliceValue)
          → foyer.get c k ≡ ok (some w)
          → ((w.header ≡ version k.object k.generation)
              × Known redb foyer slice_size st.index k.object k.generation)
            ⊎ (foyer.get st.slices k ≡ ok (some w))
      found k w e = elim (h k w e) [
        | inl (at_key, put) ↦ inl (
            subst
              (λ j.
                (w.header ≡ version j.object j.generation)
                × Known redb foyer slice_size st.index j.object j.generation)
              (sym at_key) (put ∙ same, known))
        | inr old ↦ inr old
      ]

  bump_generation-OneVersion :
      (st : St redb foyer slice_size) (o : ObjectId) (g : ℕ)
      → n < 4294967295
      → Known redb foyer slice_size st.index o g
      → OneVersion redb foyer slice_size version st ps n
      → OneVersion redb foyer slice_size version
          (bump_generation redb foyer slice_size o st).1
          ps
          (n + 1)
  unfolding bump_generation Known bumped
  bump_generation-OneVersion st o g room (m, found, r) v =
      rw (invalidate_known redb o o m st.index valid found).0 (
        cell-OneVersion redb foyer slice_size version _ ps (n + 1) o none (λ x e. cc)
          (put-OneVersion redb foyer slice_size version st ps (n + 1) o next next_valid
            (omega (arith, few)) (λ s. cc) reached later))
    where
      valid : IsMeta m
      valid = (v.fits o m found).0

      few : m.generation ≤ n
      few = (v.fits o m found).1

      next : ObjectMeta
      next = record m { generation = (m.generation + 1) % 2 ^ 32; stale = true }

      next_valid : IsMeta next
      next_valid = record {
        total_len = valid.total_len;
        generation = omega arith;
        created = valid.created;
        last_seen = valid.last_seen;
        key = valid.key;
        etag = valid.etag;
        last_modified = valid.last_modified;
        content_type = valid.content_type;
      }

      reached : (x : ℕ) → Known redb foyer slice_size st.index o x → Reached next x
      reached x k =
          let (below, over) = Known-entry redb foyer slice_size st.index o m x found k in
          (omega (arith, below, few, room), λ s. omega (arith, below, few, room))

      later : OneVersion redb foyer slice_size version st ps (n + 1)
      later = record {
        planned = v.planned;
        celled = v.celled;
        fits = λ o' x e. let (a, b) = v.fits o' x e in (a, omega (arith, b));
        entered = v.entered;
        stored = v.stored;
      }

  module _ (stale_on_error : Bool) (p : Plan) (index : ℕ) where
    abbrev Answer : Type 0
    Answer = Result SliceValue OrchestratorError × St redb foyer slice_size

    abbrev Kept : Answer → Type 0
    Kept (answer, after) =
        n + bumps answer ≤ 4294967295
        → OneVersion redb foyer slice_size version after ps (n + bumps answer)

    unbumped :
        (st : St redb foyer slice_size) (answer : Result SliceValue OrchestratorError)
        → bumps answer ≡ 0
        → OneVersion redb foyer slice_size version st ps n
        → Kept (answer, st)
    unbumped st answer none_bumped v few =
        subst (λ k. OneVersion redb foyer slice_size version st ps k) (omega (arith, none_bumped)) v

    after_fetch-OneVersion :
        (st : St redb foyer slice_size) (observed : Option Validators)
        (outcome : Result SliceValue (List ℕ)) (ran : Bool)
        → Known redb foyer slice_size st.index p.object p.meta.generation
        → OneVersion redb foyer slice_size version st ps n
        → Kept (after_fetch redb foyer slice_size stale_on_error p index st observed (outcome, ran))
    unfolding after_fetch bumps
    after_fetch-OneVersion st observed (ok x) ran k v = unbumped st (ok x) refl v
    after_fetch-OneVersion st (some now) (err text) true k v =
        λ few. bump_generation-OneVersion st p.object p.meta.generation (omega (arith, few)) k v
    after_fetch-OneVersion st (some now) (err text) false k v =
        unbumped st _ (stale_answer-bumps redb foyer slice_size _ text _) v
    after_fetch-OneVersion st none (err text) ran k v =
        unbumped st _ (stale_answer-bumps redb foyer slice_size _ text _) v

    fetched-OneVersion :
        (st : St redb foyer slice_size) (r : Result UpstreamResponse UpstreamError)
        → Tagged redb foyer slice_size version st.index p.object p.meta
        → OneVersion redb foyer slice_size version st ps n
        → OneVersion redb foyer slice_size version
            (record st {
              slices =
                  (foyer.get_or_fetch st.slices
                    (slice_key p index)
                    (checked slice_size p index r).0).2;
            })
            ps
            n
    fetched-OneVersion st r tagged v = put_slice-OneVersion st _ p index tagged found v
      where
        found :
            (k : SliceKey) (w : SliceValue)
            → foyer.get
                (foyer.get_or_fetch st.slices
                  (slice_key p index)
                  (checked slice_size p index r).0).2
                k
              ≡ ok (some w)
            → ((k ≡ slice_key p index) × (w.header ≡ header_for p.meta slice_size))
              ⊎ (foyer.get st.slices k ≡ ok (some w))
        found k w e = elim (foyer.get-fetched st.slices (slice_key p index) k _ w e) [
          | inl (at_key, fetched) ↦ inl (at_key, checked-header slice_size p index r fetched)
          | inr old ↦ inr old
        ]

    -- A fetched slice keeps the versions apart.
    pub slice_ranged-OneVersion :
        (origin : Upstream) (st : St redb foyer slice_size)
        → Tagged redb foyer slice_size version st.index p.object p.meta
        → OneVersion redb foyer slice_size version st ps n
        → Kept (slice_ranged redb foyer slice_size stale_on_error p index origin st)
    unfolding slice_ranged
    slice_ranged-OneVersion origin st (same, known) v =
        after_fetch-OneVersion _ _ _ _ known (fetched-OneVersion st _ (same, known) v)

    -- What the store holds for a plan has the header of the plan.
    pub held-header :
        (st : St redb foyer slice_size) (w : SliceValue)
        → Tagged redb foyer slice_size version st.index p.object p.meta
        → OneVersion redb foyer slice_size version st ps n
        → foyer.get st.slices (slice_key p index) ≡ ok (some w)
        → w.header ≡ header_for p.meta slice_size
    unfolding slice_key
    held-header st w (same, known) v e = (v.stored _ w e).0 ∙ sym same

    after_fetch-header :
        (st : St redb foyer slice_size) (observed : Option Validators)
        (outcome : Result SliceValue (List ℕ)) (ran : Bool) (w : SliceValue)
        → Tagged redb foyer slice_size version st.index p.object p.meta
        → OneVersion redb foyer slice_size version st ps n
        → ((x : SliceValue) → outcome ≡ ok x → x.header ≡ header_for p.meta slice_size)
        → (after_fetch redb foyer slice_size stale_on_error p index st observed (outcome, ran)).0
          ≡ ok w
        → w.header ≡ header_for p.meta slice_size
    unfolding after_fetch
    after_fetch-header st observed (ok x) ran w k v h e = h w (ap ok (ok-injective e))
    after_fetch-header st (some now) (err text) true w k v h e = cc
    after_fetch-header st (some now) (err text) false w k v h e =
        held-header st w k v (stale_answer-ok redb foyer slice_size _ _ _ e)
    after_fetch-header st none (err text) ran w k v h e =
        held-header st w k v (stale_answer-ok redb foyer slice_size _ _ _ e)

    pub slice_ranged-header :
        (origin : Upstream) (st : St redb foyer slice_size) (w : SliceValue)
        → Tagged redb foyer slice_size version st.index p.object p.meta
        → OneVersion redb foyer slice_size version st ps n
        → (slice_ranged redb foyer slice_size stale_on_error p index origin st).0 ≡ ok w
        → w.header ≡ header_for p.meta slice_size
    unfolding slice_ranged
    slice_ranged-header origin st w k v e =
        after_fetch-header _ _ _ _ w k (fetched-OneVersion st _ k v) fetched e
      where
        fetched :
            (x : SliceValue)
            → (foyer.get_or_fetch st.slices
                (slice_key p index)
                (checked slice_size p index (
                  origin
                    (slice_extent index slice_size p.total_len).start
                    (slice_extent index slice_size p.total_len).end)).0).0
              ≡ ok x
            → x.header ≡ header_for p.meta slice_size
        fetched x e = elim (foyer.fetched st.slices (slice_key p index) _ x e) [
          | inl held ↦ held-header st x k v held
          | inr new ↦ checked-header slice_size p index _ new
        ]
