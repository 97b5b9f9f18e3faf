-- ===== src/Orchestrator/Core/Versions/Requests.antt =====
-- A planned request, against the versions.
use cachic.Common.{
  ℕ, ◌+◌, ◌≤◌, ◌≡◌, refl, sym, ◌∙◌, subst, Bool, false, Bool-cases, inl, inr, Option, none, some,
  List, Result, ok, err, ok-injective, some-injective, ltb, >>=-eq-ok, arith,
}
use cachic.Common.Words.{IsU64}
use cachic.Proxy.Range.{RangeSpec, ByteRange}
use cachic.Services.Key.{CacheKey, object_id}
use cachic.Store.Slice.{ObjectId}
use cachic.Store.Index.{ObjectMeta}
use cachic.Store.Index.Encoding.{IsMeta}
use cachic.Store.Index.Table.{Redb}
use cachic.Store.Index.Table
use cachic.Store.Index.Table.Laws.{touch_known}
use cachic.Store.Hybrid.{Foyer}
use cachic.Upstream.Client.{UpstreamResponse, UpstreamError}
use cachic.Orchestrator.Core.{
  Plan, FetchError, OrchestratorError, header_for, total_of, spec_of, wanted_of,
}
use cachic.Orchestrator.Core.Operations.{
  Upstream, usable, set_cell, probe_answer, probe, touched, from_cell, from_index, metadata_of,
  make_plan, plan_wanted, plan_parsed, plan,
}
use cachic.Orchestrator.Core.Versions.{Reached, Storable, issued, St, Known, Tagged}
use cachic.Orchestrator.Core.Versions.Entries.{
  Known-entry, put_same, put-OneVersion, cell-OneVersion,
}
use cachic.Orchestrator.Core.Versions.Probes.{
  usable-some, Versioned, VersionedFor, g_fits, record_probe_lem,
}

module _ (redb : Redb) (foyer : Foyer FetchError) (slice_size : ℕ) where
  module _ (o : ObjectId) (key : CacheKey) (now index : ℕ) (origin : Upstream) (time : IsU64 now)
      (storable : Storable key now origin) (ps : List Plan) (n : ℕ) where
    probe_answer_lem :
        (st : St redb foyer slice_size) (a b : ℕ)
        → usable (Table.get redb o st.index) ≡ none
        → Versioned redb foyer slice_size st ps n
        → {m : ObjectMeta} {st' : St redb foyer slice_size}
        → probe_answer redb foyer slice_size key o now index st (origin a b) ≡ ok (m, st')
        → VersionedFor redb foyer slice_size o m st' ps n
    unfolding probe_answer
    probe_answer_lem st a b probing (version, v) {m} {st'} e = go (origin a b) refl e
      where
        go :
            (r : Result UpstreamResponse UpstreamError)
            → origin a b ≡ r
            → probe_answer redb foyer slice_size key o now index st r ≡ ok (m, st')
            → VersionedFor redb foyer slice_size o m st' ps n
        go (err x) h c = cc
        go (ok r) h c =
            let ((total, no_ranges), learnt, same) = >>=-eq-ok (total_of r) _ c in
            subst (λ p. VersionedFor redb foyer slice_size o p.0 p.1 ps n) (ok-injective same)
              (record_probe_lem redb foyer slice_size o st ps n version v probing key now index r
                total no_ranges
                (storable a b _ r (total, no_ranges)
                  (g_fits redb foyer slice_size o st ps n version v probing).0 h learnt))

    probe_lem :
        (st : St redb foyer slice_size)
        → usable (Table.get redb o st.index) ≡ none
        → Versioned redb foyer slice_size st ps n
        → {m : ObjectMeta} {st' : St redb foyer slice_size}
        → probe redb foyer slice_size key o now index origin st ≡ ok (m, st')
        → VersionedFor redb foyer slice_size o m st' ps n
    unfolding probe
    probe_lem st probing h e = probe_answer_lem st _ _ probing h e

    from_cell_lem :
        (st : St redb foyer slice_size) (c : Option ObjectMeta)
        → usable (Table.get redb o st.index) ≡ none
        → st.metadata o ≡ c
        → Versioned redb foyer slice_size st ps n
        → {m : ObjectMeta} {b : Bool} {st' : St redb foyer slice_size}
        → from_cell redb foyer slice_size key o now index origin st c ≡ ok ((m, b), st')
        → VersionedFor redb foyer slice_size o m st' ps n
    unfolding from_cell set_cell
    from_cell_lem st (some x) probing cell (version, v) e =
        subst (λ p. VersionedFor redb foyer slice_size o p.0.0 p.1 ps n) (ok-injective e)
          (version, v, v.celled o x cell)
    from_cell_lem st none probing cell h e =
        let ((x, mid), answered, same) =
          >>=-eq-ok (probe redb foyer slice_size key o now index origin st) _ e in
        subst (λ p. VersionedFor redb foyer slice_size o p.0.0 p.1 ps n) (ok-injective same)
          (in_cell x mid (probe_lem st probing h answered))
      where
        in_cell :
            (x : ObjectMeta) (mid : St redb foyer slice_size)
            → VersionedFor redb foyer slice_size o x mid ps n
            → VersionedFor redb foyer slice_size o x
                (set_cell redb foyer slice_size o (some x) mid)
                ps
                n
        in_cell x mid (version, v, tagged) = (
          version,
          cell-OneVersion redb foyer slice_size version mid ps n o (some x)
              (λ y e.
                subst (λ z. Tagged redb foyer slice_size version mid.index o z) (some-injective e)
                  tagged)
              v,
          tagged,
        )

    from_index_lem :
        (st : St redb foyer slice_size) (m : ObjectMeta)
        → usable (Table.get redb o st.index) ≡ some m
        → Versioned redb foyer slice_size st ps n
        → VersionedFor redb foyer slice_size o m
            (touched redb foyer slice_size st (Table.touch redb now o st.index))
            ps
            n
    unfolding touched header_for
    from_index_lem st m used (version, v) =
        rw (touch_known redb now o m st.index valid time found).0
          (elim (Bool-cases (ltb now (m.last_seen + 3600))) [
            | inl recent ↦ rw recent (version, v, (header, known))
            | inr old ↦ rw old (
              version,
              put-OneVersion redb foyer slice_size version st ps n o later later_valid few
                  (λ s. header) reached v,
              (
                header,
                unfold Known in
                    (
                      later,
                      put_same redb foyer slice_size o later later_valid st.index o refl,
                      (omega arith, λ s. absurd (cc (sym fresh ∙ s))),
                    ),
              ),
            )
          ])
      where
        found : Table.get redb o st.index ≡ ok (some m)
        found = (usable-some _ used).0

        fresh : m.stale ≡ false
        fresh = (usable-some _ used).1

        valid : IsMeta m
        valid = (v.fits o m found).0

        few : m.generation ≤ n
        few = (v.fits o m found).1

        header : header_for m slice_size ≡ version o m.generation
        header = v.entered o m found fresh

        known : Known redb foyer slice_size st.index o m.generation
        known = unfold Known in (m, found, (omega arith, λ s. absurd (cc (sym fresh ∙ s))))

        later : ObjectMeta
        later = record m { last_seen = now }

        later_valid : IsMeta later
        later_valid = record {
          total_len = valid.total_len;
          generation = valid.generation;
          created = valid.created;
          last_seen = time;
          key = valid.key;
          etag = valid.etag;
          last_modified = valid.last_modified;
          content_type = valid.content_type;
        }

        reached : (x : ℕ) → Known redb foyer slice_size st.index o x → Reached later x
        reached x k = Known-entry redb foyer slice_size st.index o m x found k

    metadata_of_lem :
        (st : St redb foyer slice_size)
        → Versioned redb foyer slice_size st ps n
        → {m : ObjectMeta} {b : Bool} {st' : St redb foyer slice_size}
        → metadata_of redb foyer slice_size key o now index origin st ≡ ok ((m, b), st')
        → VersionedFor redb foyer slice_size o m st' ps n
    unfolding metadata_of
    metadata_of_lem st h {m} {b} {st'} e = go (usable (Table.get redb o st.index)) refl e
      where
        go :
            (c : Option ObjectMeta)
            → usable (Table.get redb o st.index) ≡ c
            → from_index redb foyer slice_size key o now index origin st c ≡ ok ((m, b), st')
            → VersionedFor redb foyer slice_size o m st' ps n
        go none u c = from_cell_lem st (st.metadata o) u refl h (unfold from_index in c)
        go (some x) u c =
            subst (λ p. VersionedFor redb foyer slice_size o p.0.0 p.1 ps n)
              (ok-injective (unfold from_index in c)) (from_index_lem st x u h)

  plan_parsed_lem :
      (key : CacheKey) (o : ObjectId) (spec : Option RangeSpec) (probed : ℕ)
      (st : St redb foyer slice_size) (ps : List Plan) (n : ℕ)
      (r : Result ((ObjectMeta × Bool) × St redb foyer slice_size) OrchestratorError)
      → Versioned redb foyer slice_size st ps n
      → ((m : ObjectMeta) (b : Bool) (st' : St redb foyer slice_size)
          → r ≡ ok ((m, b), st')
          → VersionedFor redb foyer slice_size o m st' ps n)
      → let (answer, after) = plan_parsed redb foyer slice_size key o spec probed st r in
        Versioned redb foyer slice_size after (issued answer ps) n
  unfolding plan_parsed plan_wanted issued make_plan
  plan_parsed_lem key o spec probed st ps n (err e) v h = v
  plan_parsed_lem key o spec probed st ps n (ok ((m, b), st')) v h =
      go (wanted_of m.total_len spec) (h m b st' refl)
    where
      go :
          (w : Result ByteRange OrchestratorError)
          → VersionedFor redb foyer slice_size o m st' ps n
          → let (answer, after) =
              plan_wanted redb foyer slice_size key o spec probed ((m, b), st') w in
            Versioned redb foyer slice_size after (issued answer ps) n
      go (err e) (version, k, tagged) = (version, k)
      go (ok wanted) (version, k, tagged) = (
        version,
        record {
          planned = (tagged, k.planned);
          celled = k.celled;
          fits = k.fits;
          entered = k.entered;
          stored = k.stored;
        },
      )

  -- A planned request keeps the versions apart.
  pub plan-Versioned :
      (blake3 : List ℕ → List ℕ) (key : CacheKey) (raw_range : Option (List ℕ)) (now : ℕ)
      (origin : Upstream) (st : St redb foyer slice_size) (ps : List Plan) (n : ℕ)
      → IsU64 now
      → Storable key now origin
      → Versioned redb foyer slice_size st ps n
      → let (answer, after) = plan redb foyer slice_size blake3 key raw_range now origin st in
        Versioned redb foyer slice_size after (issued answer ps) n
  unfolding plan
  plan-Versioned blake3 key raw_range now origin st ps n time storable v =
      plan_parsed_lem key (object_id blake3 key) (spec_of raw_range) _ st ps n _ v (λ m b st' e.
        metadata_of_lem (object_id blake3 key) key now _ origin time storable ps n st v e)
