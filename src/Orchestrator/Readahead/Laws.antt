-- ===== src/Orchestrator/Readahead/Laws.antt =====
-- The map of patterns stays bounded, and only a client that streams is prefetched for.
use cachic.Common.{
  ℕ, ◌+◌, ◌/◌, ◌≤◌, ◌<◌, ◌≡◌, ◌≢◌, refl, inl, inr, Bool, true, false, Bool-cases, Option, none,
  some, List, [], ◌∷◌, ltb, if◌then◌else◌, length, take, arith,
}
use cachic.Common.Words.{saturating_add_u32, u32_max}
use cachic.Common.Text.{text_eq}
use cachic.Common.Text.Laws.{text_eq_refl}
use cachic.Store.Slice.{ObjectId}
use cachic.Orchestrator.Readahead.History.{
  Request, observe_all, requests_of, Consecutive, observe_all-sequential,
}
use cachic.Orchestrator.Readahead.{
  Pattern, Patterns, Access, random, sequential, find, remove, store, expire, insert_by_age,
  sort_by_age, ages, remove_all, drop_oldest, make_room, observe_known, observe_found, observe,
  advance, prefetch, max_tracked, first_sighting,
}

length-remove : (k : ObjectId) (m : Patterns) → length (remove k m) ≤ length m
unfolding remove
length-remove k [] = omega arith
length-remove k ((j, p) ∷ m) = ground (arith, length-remove k m)

-- Removing a key that is there removes an entry.
length-remove_found :
    (k : ObjectId) (m : Patterns) → find k m ≢ none → length (remove k m) < length m
unfolding remove find
length-remove_found k [] h = absurd (h refl)
length-remove_found k ((j, p) ∷ m) h = elim (Bool-cases (text_eq j k)) [
  | inl same ↦ rw same (omega (arith, length-remove k m))
  | inr other ↦ rw other (omega (arith, length-remove_found k m (rw other at h)))
]

length-remove_all : (l : List (ObjectId × ℕ)) (m : Patterns) → length (remove_all l m) ≤ length m
unfolding remove_all
length-remove_all [] m = omega arith
length-remove_all ((k, s) ∷ l) m =
    omega (arith, length-remove_all l (remove k m), length-remove k m)

length-store : (k : ObjectId) (p : Pattern) (m : Patterns) → length (store k p m) ≡ length m
unfolding store
length-store k p [] = refl
length-store k p ((j, q) ∷ m) = ground (arith, length-store k p m)

length-expire : (now : ℕ) (m : Patterns) → length (expire now m) ≤ length m
unfolding expire
length-expire now [] = omega arith
length-expire now ((j, p) ∷ m) = ground (arith, length-expire now m)

-- The first of the sorted ages is an entry of the map.
IsFirstOf : List (ObjectId × ℕ) → Patterns → Type 0
IsFirstOf [] m = length m ≡ 0
IsFirstOf ((k, s) ∷ l) m = find k m ≢ none

insert_by_age-first :
    (j : ObjectId) (p : Pattern) (l : List (ObjectId × ℕ)) (m : Patterns)
    → IsFirstOf l m
    → IsFirstOf (insert_by_age (j, p.seen) l) ((j, p) ∷ m)
unfolding IsFirstOf insert_by_age find
insert_by_age-first j p [] m h = λ e. cc (text_eq_refl j)
insert_by_age-first j p ((k, s) ∷ l) m h = elim (Bool-cases (ltb s p.seen)) [
  | inl before ↦ rw before found_later
  | inr after ↦ rw after (λ e. here (rw (text_eq_refl j) at e))
]
  where
    here : some p ≢ none
    here e = cc e

    either : (b : Bool) (o : Option Pattern) → o ≢ none → (if b then some p else o) ≢ none
    either true o ne = here
    either false o ne = ne

    found_later : (if text_eq j k then some p else find k m) ≢ none
    found_later = either (text_eq j k) (find k m) h

sort_by_age-first : (m : Patterns) → IsFirstOf (sort_by_age (ages m)) m
unfolding sort_by_age ages
sort_by_age-first [] = unfold IsFirstOf in refl
sort_by_age-first ((j, p) ∷ m) =
    insert_by_age-first j p (sort_by_age (ages m)) m (sort_by_age-first m)

-- Dropping the oldest half of a map that is not empty makes it smaller.
length-drop_oldest : (m : Patterns) → 0 < length m → length (drop_oldest m) < length m
length-drop_oldest m h = unfold drop_oldest in go (sort_by_age (ages m)) (sort_by_age-first m)
  where
    go :
        (l : List (ObjectId × ℕ))
        → IsFirstOf l m
        → length (remove_all (take (max_tracked / 2) l) m) < length m
    go [] f = absurd (unfold IsFirstOf in omega arith)
    go ((k, s) ∷ l) f =
        unfold remove_all in
        omega (
          arith,
          length-remove_all (take 511 l) (remove k m),
          length-remove_found k m (unfold IsFirstOf in f),
        )

length-make_room :
    (now : ℕ) (m : Patterns) → length m ≤ max_tracked → length (make_room now m) < max_tracked
unfolding make_room
length-make_room now m h = ground (arith, length-expire now m, length-drop_oldest (expire now m))

pub length-observe_known :
    (now : ℕ) (object : ObjectId) (first last : ℕ) (m : Patterns) (p : Pattern)
    → length (observe_known now object first last m p).0 ≡ length m
unfolding observe_known
length-observe_known now object first last m p = ground (
  arith,
  length-store object (first_sighting now last) m,
  length-store object
      (record {
        next_expected = saturating_add_u32 last 1;
        consecutive = advance p first;
        seen = now;
      })
      m,
)

length-observe_found :
    (now : ℕ) (object : ObjectId) (first last : ℕ) (m : Patterns) (o : Option Pattern)
    → length m < max_tracked
    → length (observe_found now object first last m o).0 ≤ max_tracked
length-observe_found now object first last m none h = unfold observe_found in omega arith
length-observe_found now object first last m (some p) h =
    unfold observe_found in omega (arith, length-observe_known now object first last m p)

-- A map of at most 1024 patterns has at most 1024 after any request.
pub length-observe :
    (now : ℕ) (object : ObjectId) (first last : ℕ) (m : Patterns)
    → length m ≤ max_tracked
    → length (observe now object first last m).0 ≤ max_tracked
length-observe now object first last m h =
    unfold observe in
    length-observe_found now object first last (make_room now m) _ (length-make_room now m h)

-- If, after any history of requests from an empty map on, a request is classified as sequential, then the object
-- was asked for at least three times before, and the request and the two before it of that object each began at
-- the slice after the last one of the object's request before (at most `u32::MAX`), and less than a minute after it.
pub observe-sequential :
    (history : List Request) (q : Request)
    → (observe q.now q.object q.first q.last (observe_all history)).1 ≡ sequential
    → Consecutive 3 (q ∷ requests_of q.object history)
observe-sequential history q h = observe_all-sequential history q h

-- Every prefetched slice lies behind the request and in the object, there are at most `window` of them,
-- and there is none unless the access is sequential.
pub prefetch_bounds :
    (window : ℕ) (a : Access) (last last_slice i : ℕ)
    → last_slice ≤ u32_max
    → (prefetch window a last last_slice).0 ≤ i
    → i < (prefetch window a last last_slice).1
    → (a ≡ sequential)
      × (last < i)
      × (i ≤ last_slice)
      × ((prefetch window a last last_slice).1 ≤ (prefetch window a last last_slice).0 + window)
unfolding prefetch
prefetch_bounds window random last last_slice i u lo hi = absurd (omega arith)
prefetch_bounds window sequential last last_slice i u lo hi =
    (refl, ground arith, ground arith, ground arith)
