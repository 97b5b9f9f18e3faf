-- ===== src/Orchestrator/Core/Planned.antt =====
-- What a plan promises.
use cachic.Common.{
  ℕ, ◌+◌, ◌≤◌, ◌<◌, ◌≡◌, refl, sym, ap, subst, Bool, true, false, ltb, Bool-cases, inl, inr, Option,
  none, some, some-injective, List, Result, ok, err, ok-injective, arith,
}
use cachic.Proxy.Range.{RangeSpec, ByteRange, RangeError, parse_range, resolve, whole}
use cachic.Proxy.Range.Parse.{parse_range-IsOrdered}
use cachic.Proxy.Range.Resolve.{IsOrdered, resolve_bounds}
use cachic.Services.Key.{CacheKey, object_id}
use cachic.Store.Slice.{ObjectId}
use cachic.Store.Index.{ObjectMeta}
use cachic.Store.Index.Table.{Redb}
use cachic.Store.Hybrid.{Foyer}
use cachic.Orchestrator.Core.{
  Plan, FetchError, OrchestratorError, spec_of, parsed_spec, whole_or_nothing, resolved, wanted_of,
}
use cachic.Orchestrator.Core.Operations.{
  Upstream, State, is_some_spec, make_plan, plan_wanted, plan_parsed, plan,
}

-- A partial plan wants a part of the object that is not empty; a whole one wants all of it.
pub data IsPlanned (p : Plan) : Type 0 where
  part :
      p.partial ≡ true
      → p.status ≡ 206
      → p.wanted.start ≤ p.wanted.end
      → p.wanted.end < p.total_len
      → IsPlanned p
  all :
      p.partial ≡ false
      → p.status ≡ 200
      → p.wanted.start ≡ 0
      → 0 < p.total_len
      → p.wanted.end + 1 ≡ p.total_len
      → IsPlanned p
  nothing : p.partial ≡ false → p.status ≡ 200 → p.total_len ≡ 0 → IsPlanned p

parsed_spec-ok :
    (r : Result RangeSpec RangeError) {spec : RangeSpec} → parsed_spec r ≡ some spec → r ≡ ok spec
unfolding parsed_spec
parsed_spec-ok (ok s) h = ap ok (some-injective h)
parsed_spec-ok (err e) h = cc

spec_of-IsOrdered :
    (raw : Option (List ℕ)) {spec : RangeSpec} → spec_of raw ≡ some spec → IsOrdered spec
unfolding spec_of
spec_of-IsOrdered none h = cc
spec_of-IsOrdered (some v) h = parse_range-IsOrdered v (parsed_spec-ok (parse_range v) h)

resolved-ok :
    (total : ℕ) (r : Result ByteRange RangeError) {w : ByteRange}
    → resolved total r ≡ ok w
    → r ≡ ok w
unfolding resolved
resolved-ok total (ok r) h = ap ok (ok-injective h)
resolved-ok total (err e) h = cc

module _ (redb : Redb) (foyer : Foyer FetchError) (slice_size : ℕ) where
  make_plan-IsPlanned :
      (key : CacheKey) (object : ObjectId) (spec : Option RangeSpec) (probed : ℕ) (w : ByteRange)
      (m : ObjectMeta) (b : Bool) (st : State redb foyer slice_size)
      → ((s : RangeSpec) → spec ≡ some s → IsOrdered s)
      → wanted_of m.total_len spec ≡ ok w
      → IsPlanned (make_plan redb foyer slice_size key object spec probed w ((m, b), st)).0
  unfolding make_plan is_some_spec wanted_of whole_or_nothing whole
  make_plan-IsPlanned key object (some s) probed w m b st ordered h =
      let (full, inside) =
        resolve_bounds s m.total_len (ordered s refl)
          (resolved-ok m.total_len (resolve s m.total_len) h) in
      part refl refl full inside
  make_plan-IsPlanned key object none probed w m b st ordered h =
      elim (Bool-cases (ltb 0 m.total_len)) [
        | inl some_bytes ↦
            (let same = rw some_bytes at (ok-injective h) in
              all refl refl (sym (ap (λ r. r.start) same)) (ground arith)
                (ground (arith, ap (λ r. r.end) same)))
        | inr no_bytes ↦ nothing refl refl (ground arith)
      ]

  plan_parsed-IsPlanned :
      (key : CacheKey) (object : ObjectId) (spec : Option RangeSpec) (probed : ℕ)
      (st : State redb foyer slice_size)
      (r : Result ((ObjectMeta × Bool) × State redb foyer slice_size) OrchestratorError) {p : Plan}
      → ((s : RangeSpec) → spec ≡ some s → IsOrdered s)
      → (plan_parsed redb foyer slice_size key object spec probed st r).0 ≡ ok p
      → IsPlanned p
  unfolding plan_parsed plan_wanted
  plan_parsed-IsPlanned key object spec probed st (err e) ordered h = cc
  plan_parsed-IsPlanned key object spec probed st (ok ((m, b), st')) {p} ordered h =
      go (wanted_of m.total_len spec) refl h
    where
      go :
          (w : Result ByteRange OrchestratorError)
          → wanted_of m.total_len spec ≡ w
          → (plan_wanted redb foyer slice_size key object spec probed ((m, b), st') w).0 ≡ ok p
          → IsPlanned p
      go (err e) known h = cc
      go (ok w) known h =
          subst IsPlanned (ok-injective h)
            (make_plan-IsPlanned key object spec probed w m b st' ordered known)

  -- If a request is planned, then either with status 206 and a range that is not empty and ends inside the object, or
  -- with status 200 and the whole object, which may be empty.
  pub plan-IsPlanned :
      (blake3 : List ℕ → List ℕ) (key : CacheKey) (raw_range : Option (List ℕ)) (now : ℕ)
      (origin : Upstream) (st : State redb foyer slice_size) {p : Plan}
      → (plan redb foyer slice_size blake3 key raw_range now origin st).0 ≡ ok p
      → IsPlanned p
  unfolding plan
  plan-IsPlanned blake3 key raw_range now origin st h =
      plan_parsed-IsPlanned key (object_id blake3 key) (spec_of raw_range) _ st _
        (λ s e. spec_of-IsOrdered raw_range e) h
