-- ===== src/Orchestrator/Readahead/Recognised.antt =====
-- A client that streams is recognised, as long as the map of patterns is not full.
use cachic.Common.{
  ℕ, suc, ◌-◌, ◌≤◌, ◌<◌, ◌≡◌, refl, sym, ap, subst, false, Option, none, some, List, [], ◌∷◌, leb,
  length, arith,
}
use cachic.Store.Slice.{ObjectId}
use cachic.Orchestrator.Readahead.{
  Pattern, Patterns, sequential, find, make_room, observe_known, observe_found, observe, advance,
  max_tracked, pattern_ttl,
}
use cachic.Orchestrator.Readahead.History.{Request, observe_all, requests_of, Consecutive}
use cachic.Orchestrator.Readahead.Laws.{length-observe_known}
use cachic.Orchestrator.Readahead.Kept.{step_back, IsKept, counted_before, observe_found-IsKept}

length-observe_found :
    (now : ℕ) (object : ObjectId) (first last : ℕ) (m : Patterns) (o : Option Pattern)
    → length (observe_found now object first last m o).0 ≤ suc (length m)
length-observe_found now object first last m none = unfold observe_found in omega arith
length-observe_found now object first last m (some p) =
    unfold observe_found in omega (arith, length-observe_known now object first last m p)

make_room_small : (now : ℕ) (m : Patterns) → length m < max_tracked → make_room now m ≡ m
unfolding make_room
make_room_small now m h = ground arith

observe_all-small :
    (q : Request) (earlier : List Request)
    → length (observe_all earlier) < max_tracked
    → observe_all (q ∷ earlier)
      ≡ (observe_found q.now q.object q.first q.last
          (observe_all earlier)
          (find q.object (observe_all earlier))).0
unfolding observe_all observe
observe_all-small q earlier h =
    ap (λ m. (observe_found q.now q.object q.first q.last m (find q.object m)).0)
      (make_room_small q.now (observe_all earlier) h)

-- A short history is kept whole.
record IsWhole (history : List Request) : Type 0 where
  kept : IsKept history (observe_all history)
  small : length (observe_all history) ≤ length history

observe_all-IsWhole : (history : List Request) → length history ≤ max_tracked → IsWhole history
observe_all-IsWhole [] h = record {
  kept = λ i q rest is. unfold requests_of in cc is;
  small = unfold observe_all in omega arith;
}
observe_all-IsWhole (q ∷ earlier) h =
    let w = observe_all-IsWhole earlier (omega arith) in
    let m = observe_all earlier in
    let step = observe_all-small q earlier (omega (arith, w.small)) in
    record {
      kept =
          subst (λ x. IsKept (q ∷ earlier) x) (sym step) (observe_found-IsKept earlier q m w.kept);
      small = omega (
        arith,
        w.small,
        ap length step,
        length-observe_found q.now q.object q.first q.last m (find q.object m),
      );
    }

observe_found-sequential :
    (q : Request) (m : Patterns) {p : Pattern}
    → find q.object m ≡ some p
    → leb pattern_ttl (q.now - p.seen) ≡ false
    → 3 ≤ advance p q.first
    → (observe_found q.now q.object q.first q.last m (find q.object m)).1 ≡ sequential
unfolding observe_found observe_known
observe_found-sequential q m {p} found fresh steps = rw found (rw fresh (ground (arith, steps)))

-- After a history of fewer than 1024 requests from an empty map on, a request is classified as sequential if it and
-- the two requests before it of its object each began at the slice after the last one of the object's request
-- before (at most `u32::MAX`), less than a minute after it.
pub observe_recognises :
    (history : List Request) (q : Request)
    → length history < 1024
    → Consecutive 3 (q ∷ requests_of q.object history)
    → (observe q.now q.object q.first q.last (observe_all history)).1 ≡ sequential
unfolding observe
observe_recognises history q short c =
    let w = observe_all-IsWhole history (omega arith) in
    let m = observe_all history in
    let (q', rest, is, f, c') = step_back c refl refl in
    let e = w.kept q.object q' rest is in
    let (fresh, steps) = counted_before history q m w.kept e.found (omega arith) c in
    rw (make_room_small q.now m (omega (arith, w.small)))
      (observe_found-sequential q m e.found fresh steps)
