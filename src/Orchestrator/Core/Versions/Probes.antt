-- ===== src/Orchestrator/Core/Versions/Probes.antt =====
-- The entry that a probe writes, against the versions.
use cachic.Common.{
  ℕ, ◌≤◌, ◌<◌, ◌≡◌, refl, sym, ap, ◌∙◌, subst, Bool, true, false, ◌⊎◌, inl, inr, Option, none, some,
  List, Result, ok, err, ok-injective, some-injective, if-elim, arith,
}
use cachic.Common.Words.{IsU32}
use cachic.Services.Key.{CacheKey}
use cachic.Store.Slice.{ObjectId, SliceKey, SliceValue}
use cachic.Store.Index.{ObjectMeta, IndexError}
use cachic.Store.Index.Encoding.{IsMeta}
use cachic.Store.Index.Table.{Redb}
use cachic.Store.Index.Table
use cachic.Store.Hybrid.{Foyer}
use cachic.Upstream.Client.{UpstreamResponse}
use cachic.Orchestrator.Core.{Plan, FetchError, header_for, probed_meta}
use cachic.Orchestrator.Core.Operations.{usable, previous_generation, record_probe}
use cachic.Orchestrator.Core.Versions.{Version, Reached, St, Known, Tagged, OneVersion}
use cachic.Orchestrator.Core.Versions.Entries.{
  reversion, reversion_same, reversion-OneVersion, put_same, put-OneVersion, slices-OneVersion,
}

pub usable-some :
    (r : Result (Option ObjectMeta) IndexError) {m : ObjectMeta}
    → usable r ≡ some m
    → (r ≡ ok (some m)) × (m.stale ≡ false)
unfolding usable
usable-some (err e) h = cc
usable-some (ok none) h = cc
usable-some (ok (some m)) h =
    if-elim m.stale none (some m) h (λ stale x. cc)
      (λ fresh x. (
        ap (λ y. ok (some y)) (some-injective x),
        ap (λ y. y.stale) (sym (some-injective x)) ∙ fresh,
      ))

-- Where a probe begins: the entry is missing, or stale at the generation that the probe takes.
usable-none :
    (r : Result (Option ObjectMeta) IndexError) {m : ObjectMeta}
    → usable r ≡ none
    → r ≡ ok (some m)
    → (m.stale ≡ true) × (previous_generation r ≡ m.generation)
unfolding usable previous_generation
usable-none (err e) h k = cc
usable-none (ok none) h k = cc
usable-none (ok (some x)) {m} h k =
    if-elim x.stale none (some x) h
      (λ stale e. (ap (λ y. y.stale) (sym eq) ∙ stale, ap (λ y. y.generation) eq)) (λ fresh e. cc)
  where
    eq : x ≡ m
    eq = some-injective (ok-injective k)

module _ (redb : Redb) (foyer : Foyer FetchError) (slice_size : ℕ) where
  -- Some version of each object and generation, with what the given entry says.
  abbrev pub Versioned : St redb foyer slice_size → List Plan → ℕ → Type 0
  Versioned st ps n = (version : Version) × OneVersion redb foyer slice_size version st ps n

  abbrev pub VersionedFor :
      ObjectId → ObjectMeta → St redb foyer slice_size → List Plan → ℕ → Type 0
  VersionedFor o m st ps n =
      (version : Version) × OneVersion redb foyer slice_size version st ps n
      × Tagged redb foyer slice_size version st.index o m

  module _ (o : ObjectId) (st : St redb foyer slice_size) (ps : List Plan) (n : ℕ)
      (version : Version) (v : OneVersion redb foyer slice_size version st ps n)
      (probing : usable (Table.get redb o st.index) ≡ none) where
    abbrev pub g : ℕ
    g = previous_generation (Table.get redb o st.index)

    Known-before : (x : ℕ) → Known redb foyer slice_size st.index o x → x < g
    unfolding Known
    Known-before x (m, e, (below, over)) =
        let (stale, same) = usable-none (Table.get redb o st.index) probing e in
        omega (arith, over stale, same)

    pub g_fits : IsU32 g × (g ≤ n)
    unfolding previous_generation
    g_fits = go (Table.get redb o st.index) refl
      where
        go :
            (r : Result (Option ObjectMeta) IndexError)
            → Table.get redb o st.index ≡ r
            → IsU32 (previous_generation r) × (previous_generation r ≤ n)
        go (err e) h = (omega arith, omega arith)
        go (ok none) h = (omega arith, omega arith)
        go (ok (some m)) h = let (valid, few) = v.fits o m h in (valid.generation, few)

    g_fresh : Known redb foyer slice_size st.index o g → Prim.⊥
    g_fresh k = omega (arith, Known-before g k)

    -- The entry written by a probe, and the versions with it.
    module _ (m : ObjectMeta) (same : m.generation ≡ g) (current : m.stale ≡ false)
        (valid : IsMeta m) where
      abbrev with_new : Version
      with_new = reversion version o g (header_for m slice_size)

      abbrev entered_state : St redb foyer slice_size
      entered_state = record st { index = Table.put redb o m st.index }

      fresh_header : header_for m slice_size ≡ with_new o m.generation
      fresh_header =
          subst (λ x. header_for m slice_size ≡ with_new o x) (sym same)
            (sym (reversion_same version o g (header_for m slice_size)))

      put_fresh : OneVersion redb foyer slice_size with_new entered_state ps n
      put_fresh =
          put-OneVersion redb foyer slice_size with_new st ps n o m valid
            (omega (arith, same, g_fits.1)) (λ s. fresh_header) reached
            (reversion-OneVersion redb foyer slice_size version st ps n o g
              (header_for m slice_size) g_fresh v)
        where
          reached : (x : ℕ) → Known redb foyer slice_size st.index o x → Reached m x
          reached x k =
              (omega (arith, same, Known-before x k), λ s. omega (arith, same, Known-before x k))

      fresh_Tagged : Tagged redb foyer slice_size with_new (Table.put redb o m st.index) o m
      fresh_Tagged = (
        fresh_header,
        unfold Known in
            (
              m,
              put_same redb foyer slice_size o m valid st.index o refl,
              (omega arith, λ s. absurd (cc (sym current ∙ s))),
            ),
      )

      module _ (index : ℕ) (payload : List ℕ) where
        abbrev slice_at : SliceKey
        slice_at = record { object = o; generation = m.generation; index = index }

        abbrev new_value : SliceValue
        new_value = record { header = header_for m slice_size; payload = payload }

        put_slice :
            OneVersion redb foyer slice_size with_new
              (record entered_state { slices = foyer.insert st.slices slice_at new_value })
              ps
              n
        put_slice =
            slices-OneVersion redb foyer slice_size with_new entered_state ps n
              (foyer.insert st.slices slice_at new_value) found put_fresh
          where
            found :
                (k : SliceKey) (w : SliceValue)
                → foyer.get (foyer.insert st.slices slice_at new_value) k ≡ ok (some w)
                → ((w.header ≡ with_new k.object k.generation)
                    × Known redb foyer slice_size entered_state.index k.object k.generation)
                  ⊎ (foyer.get st.slices k ≡ ok (some w))
            found k w e = elim (foyer.get-insert st.slices slice_at k new_value w e) [
              | inl (at_key, put) ↦ inl (
                  subst
                    (λ j.
                      (w.header ≡ with_new j.object j.generation)
                      × Known redb foyer slice_size entered_state.index j.object j.generation)
                    (sym at_key) (ap (λ u. u.header) put ∙ fresh_header, fresh_Tagged.1))
              | inr old ↦ inr old
            ]

    pub record_probe_lem :
        (key : CacheKey) (now index : ℕ) (r : UpstreamResponse) (total : ℕ) (no_ranges : Bool)
        → IsMeta (probed_meta key now g r (total, no_ranges))
        → let (m, st') =
            record_probe redb foyer slice_size key o now index r st (total, no_ranges) in
          VersionedFor o m st' ps n
    unfolding record_probe probed_meta
    record_probe_lem key now index r total true valid =
        (_, put_fresh _ refl refl valid, fresh_Tagged _ refl refl valid)
    record_probe_lem key now index r total false valid =
        (_, put_slice _ refl refl valid index r.body, fresh_Tagged _ refl refl valid)
