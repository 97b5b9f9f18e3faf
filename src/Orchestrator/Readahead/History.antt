-- ===== src/Orchestrator/Readahead/History.antt =====
-- The requests that the map of patterns stands for: what a run of `observe` over a history of requests keeps.
use cachic.Common.{
  ℕ, zero, suc, ◌+◌, ◌-◌, ◌*◌, ◌≤◌, ◌<◌, min, ◌≡◌, refl, sym, ◌∙◌, subst, false, Bool-cases, inl,
  inr, Option, none, some, some-injective, List, [], ◌∷◌, leb, ◌==◌, ==_iff, if◌then◌else◌, All,
  arith,
}
use cachic.Common.Words.{saturating_add_u32}
use cachic.Common.Text.{text_eq}
use cachic.Common.Text.Laws.{text_eq_refl, text_eq→eq, text_eq_comm}
use cachic.Store.Slice.{ObjectId}
use cachic.Orchestrator.Readahead.{
  Pattern, Patterns, sequential, find, store, make_room, observe_known, observe_found, observe,
  advance, pattern_ttl,
}
use cachic.Orchestrator.Readahead.Entries.{
  Apart, Distinct, All-remove_all, All-expire, kept_by_make_room, Distinct-remove_all,
  Distinct-expire, Distinct-store, find-Apart,
}

-- A request served: when, of which object, and the first and the last of its slices.
pub record Request : Type 0 where
  pub now : ℕ
  pub object : ObjectId
  pub first : ℕ
  pub last : ℕ

-- The map after a history of requests, the latest one in front.
unfoldable pub observe_all : List Request → Patterns
observe_all [] = []
observe_all (q ∷ earlier) = (observe q.now q.object q.first q.last (observe_all earlier)).0

-- The requests of one object.
unfoldable pub requests_of : ObjectId → List Request → List Request
requests_of object [] = []
requests_of object (q ∷ rest) =
    let more = requests_of object rest in if text_eq q.object object then q ∷ more else more

-- One request takes up where the one before it ended, within a minute.
pub record Follows (later earlier : Request) : Type 0 where
  pub adjacent : later.first ≡ min (earlier.last + 1) 4_294_967_295
  pub prompt : later.now < earlier.now + 60 * 1_000_000_000

-- The last `n` steps of a history each follow the request before.
pub data Consecutive : ℕ → List Request → Type 0 where
  start : {q : Request} {rest : List Request} → Consecutive 0 (q ∷ rest)
  follow :
      {n : ℕ} {r q : Request} {rest : List Request}
      → Follows r q
      → Consecutive n (q ∷ rest)
      → Consecutive (suc n) (r ∷ q ∷ rest)

fewer : {n : ℕ} {l : List Request} (k : ℕ) → Consecutive n l → k ≤ n → Consecutive k l
fewer zero start h = start
fewer zero (follow f c) h = start
fewer (suc k) start h = absurd (omega arith)
fewer (suc k) (follow f c) h = follow f (fewer k c (omega arith))

-- An entry of the map stands for the latest request of its object, and counts no step that was not taken.
record Tracks (history : List Request) (e : ObjectId × Pattern) : Type 0 where
  latest : Request
  before : List Request
  latest_of : requests_of e.0 history ≡ latest ∷ before
  expected : e.1.next_expected ≡ saturating_add_u32 latest.last 1
  when : e.1.seen ≡ latest.now
  taken : Consecutive e.1.consecutive (latest ∷ before)

find-Tracks :
    (history : List Request) (k : ObjectId) (m : Patterns) {p : Pattern}
    → All (Tracks history) m
    → find k m ≡ some p
    → Tracks history (k, p)
unfolding find
find-Tracks history k [] h e = cc
find-Tracks history k ((j, q) ∷ m) {p} (x, h) e = elim (Bool-cases (text_eq j k)) [
  | inl same ↦
      subst (λ i. Tracks history (i, p)) (text_eq→eq j k same)
        (subst (λ v. Tracks history (j, v)) (some-injective (rw same at e)) x)
  | inr other ↦ find-Tracks history k m h (rw other at e)
]

-- A request of another object leaves what an entry stands for.
Tracks-other :
    (history : List Request) (q : Request) (e : ObjectId × Pattern)
    → text_eq q.object e.0 ≡ false
    → Tracks history e
    → Tracks (q ∷ history) e
Tracks-other history q e other t = record {
  latest = t.latest;
  before = t.before;
  latest_of = unfold requests_of in rw other (t.latest_of);
  expected = t.expected;
  when = t.when;
  taken = t.taken;
}

All-Tracks-other :
    (history : List Request) (q : Request) (m : Patterns)
    → All (Apart q.object) m
    → All (Tracks history) m
    → All (Tracks (q ∷ history)) m
All-Tracks-other history q [] a h = tt
All-Tracks-other history q (e ∷ m) (apart, a) (x, h) = (
  Tracks-other history q e (text_eq_comm q.object e.0 ∙ apart) x,
  All-Tracks-other history q m a h,
)

All-Tracks-store :
    (history : List Request) (q : Request) (p : Pattern) (m : Patterns)
    → Distinct m
    → All (Tracks history) m
    → Tracks (q ∷ history) (q.object, p)
    → All (Tracks (q ∷ history)) (store q.object p m)
unfolding store
All-Tracks-store history q p [] d h new = tt
All-Tracks-store history q p ((j, o) ∷ m) (a, d) (x, h) new =
    elim (Bool-cases (text_eq j q.object)) [
      | inl same ↦
          let is : j ≡ q.object = text_eq→eq j q.object same in
          rw same (
            subst (λ i. Tracks (q ∷ history) (i, p)) (sym is) new,
            All-Tracks-other history q m (subst (λ i. All (Apart i) m) is a) h,
          )
      | inr other ↦ rw other (
        Tracks-other history q (j, o) (text_eq_comm q.object j ∙ other) x,
        All-Tracks-store history q p m d h new,
      )
    ]

-- What an entry says of the request that it was stored for.
Tracks-latest :
    (history : List Request) (q : Request) (steps : ℕ)
    → Consecutive steps (q ∷ requests_of q.object history)
    → Tracks (q ∷ history) (
      q.object,
      record { next_expected = saturating_add_u32 q.last 1; consecutive = steps; seen = q.now },
    )
Tracks-latest history q steps c = record {
  latest = q;
  before = requests_of q.object history;
  latest_of = unfold requests_of in rw (text_eq_refl q.object) refl;
  expected = refl;
  when = refl;
  taken = c;
}

-- The steps that `advance` counts were taken.
advance-Consecutive :
    (history : List Request) (q : Request) (p : Pattern)
    → Tracks history (q.object, p)
    → leb pattern_ttl (q.now - p.seen) ≡ false
    → Consecutive (advance p q.first) (q ∷ requests_of q.object history)
unfolding advance
advance-Consecutive history q p t fresh = elim (Bool-cases (q.first == p.next_expected)) [
  | inl next ↦
      rw (next, t.latest_of)
        (fewer (saturating_add_u32 p.consecutive 1)
          (follow
            (record {
              adjacent = (==_iff q.first p.next_expected).0 next ∙ t.expected;
              prompt = ground (arith, t.when);
            })
            t.taken)
          (omega arith))
  | inr jump ↦ rw jump start
]

IsHistory : List Request → Patterns → Type 0
IsHistory history m = Distinct m × All (Tracks history) m

observe_found-IsHistory :
    (history : List Request) (q : Request) (m : Patterns) (o : Option Pattern)
    → find q.object m ≡ o
    → IsHistory history m
    → IsHistory (q ∷ history) (observe_found q.now q.object q.first q.last m o).0
unfolding observe_found observe_known IsHistory
observe_found-IsHistory history q m none e (d, h) =
    let apart = find-Apart q.object m e in
    ((apart, d), (Tracks-latest history q 0 start, All-Tracks-other history q m apart h))
observe_found-IsHistory history q m (some p) e (d, h) =
    elim (Bool-cases (leb pattern_ttl (q.now - p.seen))) [
      | inl old ↦ rw old (
        Distinct-store q.object _ m d,
        All-Tracks-store history q _ m d h (Tracks-latest history q 0 start),
      )
      | inr fresh ↦ rw fresh (
        Distinct-store q.object _ m d,
        All-Tracks-store history q _ m d h (
            Tracks-latest history q (advance p q.first)
              (advance-Consecutive history q p (find-Tracks history q.object m h e) fresh)),
      )
    ]

make_room-IsHistory :
    (history : List Request) (now : ℕ) (m : Patterns)
    → IsHistory history m
    → IsHistory history (make_room now m)
unfolding IsHistory
make_room-IsHistory history now m (d, h) = (
  kept_by_make_room Distinct Distinct-expire Distinct-remove_all now m d,
  kept_by_make_room (All (Tracks history)) (All-expire (Tracks history))
      (All-remove_all (Tracks history)) now m h,
)

observe_all-IsHistory : (history : List Request) → IsHistory history (observe_all history)
unfolding observe_all observe
observe_all-IsHistory [] = unfold IsHistory in (tt, tt)
observe_all-IsHistory (q ∷ earlier) =
    observe_found-IsHistory earlier q (make_room q.now (observe_all earlier)) _ refl
      (make_room-IsHistory earlier q.now (observe_all earlier) (observe_all-IsHistory earlier))

observe_found-sequential :
    (history : List Request) (q : Request) (m : Patterns) (o : Option Pattern)
    → find q.object m ≡ o
    → IsHistory history m
    → (observe_found q.now q.object q.first q.last m o).1 ≡ sequential
    → Consecutive 3 (q ∷ requests_of q.object history)
unfolding observe_found observe_known IsHistory
observe_found-sequential history q m none e inv h = cc
observe_found-sequential history q m (some p) e (d, inv) h =
    elim (Bool-cases (leb pattern_ttl (q.now - p.seen))) [
      | inl old ↦ cc (rw old at h)
      | inr fresh ↦
          fewer 3 (advance-Consecutive history q p (find-Tracks history q.object m inv e) fresh)
            (ground arith)
    ]

-- The steps of a request that is taken for one of a client that streams.
pub observe_all-sequential :
    (history : List Request) (q : Request)
    → (observe q.now q.object q.first q.last (observe_all history)).1 ≡ sequential
    → Consecutive 3 (q ∷ requests_of q.object history)
unfolding observe
observe_all-sequential history q h =
    observe_found-sequential history q (make_room q.now (observe_all history)) _ refl
      (make_room-IsHistory history q.now (observe_all history) (observe_all-IsHistory history)) h
