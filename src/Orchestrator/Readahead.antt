-- ===== src/Orchestrator/Readahead.antt =====
-- crates/cachic/src/orchestrator/readahead.rs: which requests look like a client that streams, and what
-- to prefetch for them. The map of patterns is an association list with distinct keys, its order the
-- map's unspecified one; `Instant::now` is an argument, in nanoseconds.
pub mod Entries
pub mod History
pub mod Laws
pub mod Kept
pub mod Recognised
use cachic.Common.{
  ℕ, zero, suc, ◌+◌, ◌-◌, ◌*◌, ◌/◌, min, Bool, true, false, not, ◌||◌, ◌&&◌, Option, none, some,
  List, [], ◌∷◌, ltb, leb, ◌==◌, if◌then◌else◌, length, take,
}
use cachic.Common.Words.{saturating_add_u32}
use cachic.Common.Text.{text_eq}
use cachic.Store.Slice.{ObjectId}

abbrev pub sequential_threshold : ℕ
sequential_threshold = 3

abbrev pub pattern_ttl : ℕ
pattern_ttl = 60 * 1_000_000_000

abbrev pub max_tracked : ℕ
max_tracked = 1024

pub data Access : Type 0 where
  random sequential : Access

pub record Pattern : Type 0 where
  pub next_expected : ℕ
  pub consecutive : ℕ
  pub seen : ℕ

abbrev pub Patterns : Type 0
Patterns = List (ObjectId × Pattern)

unfoldable pub find : ObjectId → Patterns → Option Pattern
find k [] = none
find k ((j, p) ∷ rest) = if text_eq j k then some p else find k rest

unfoldable pub remove : ObjectId → Patterns → Patterns
remove k [] = []
remove k ((j, p) ∷ rest) =
    let rest' = remove k rest in if text_eq j k then rest' else (j, p) ∷ rest'

-- `*entry = p` on the entry that `get_mut` found.
unfoldable pub store : ObjectId → Pattern → Patterns → Patterns
store k p [] = []
store k p ((j, q) ∷ rest) = if text_eq j k then (j, p) ∷ rest else (j, q) ∷ store k p rest

-- `retain(|_, p| now.duration_since(p.seen) < PATTERN_TTL)`; the difference of instants saturates.
unfoldable pub expire : ℕ → Patterns → Patterns
expire now [] = []
expire now ((j, p) ∷ rest) =
    let rest' = expire now rest in if ltb (now - p.seen) pattern_ttl then (j, p) ∷ rest' else rest'

-- `sort_by_key(|(_, seen)| *seen)`, which is stable.
insert_by_age : ObjectId × ℕ → List (ObjectId × ℕ) → List (ObjectId × ℕ)
insert_by_age a [] = a ∷ []
insert_by_age a (b ∷ rest) = if ltb b.1 a.1 then b ∷ insert_by_age a rest else a ∷ b ∷ rest

unfoldable pub sort_by_age : List (ObjectId × ℕ) → List (ObjectId × ℕ)
unfolding insert_by_age
sort_by_age [] = []
sort_by_age (a ∷ rest) = insert_by_age a (sort_by_age rest)

unfoldable pub ages : Patterns → List (ObjectId × ℕ)
ages [] = []
ages ((j, p) ∷ rest) = (j, p.seen) ∷ ages rest

unfoldable pub remove_all : List (ObjectId × ℕ) → Patterns → Patterns
unfolding remove
remove_all [] m = m
remove_all ((k, _) ∷ rest) m = remove_all rest (remove k m)

unfoldable pub drop_oldest : Patterns → Patterns
unfolding remove_all sort_by_age ages
drop_oldest m = remove_all (take (max_tracked / 2) (sort_by_age (ages m))) m

-- The pruning at the start of `observe`.
unfoldable pub make_room : ℕ → Patterns → Patterns
unfolding expire
make_room now m =
    if leb max_tracked (length m)
    then (let fresh = expire now m in
        if leb max_tracked (length fresh) then drop_oldest fresh else fresh)
    else m

abbrev first_sighting : ℕ → ℕ → Pattern
first_sighting now last = record {
  next_expected = saturating_add_u32 last 1;
  consecutive = 0;
  seen = now;
}

-- The number of consecutive steps, this request included.
unfoldable pub advance : Pattern → ℕ → ℕ
advance p first = if first == p.next_expected then saturating_add_u32 p.consecutive 1 else 0

-- What follows for an object that is tracked.
unfoldable pub observe_known : ℕ → ObjectId → ℕ → ℕ → Patterns → Pattern → Patterns × Access
unfolding advance
observe_known now object first last m p =
    if leb pattern_ttl (now - p.seen)
    then (store object (first_sighting now last) m, random)
    else let steps = advance p first in
      (
        store object
            (record { next_expected = saturating_add_u32 last 1; consecutive = steps; seen = now })
            m,
        if leb sequential_threshold steps then sequential else random,
      )

-- By what the map has for the object, after room was made.
unfoldable pub observe_found : ℕ → ObjectId → ℕ → ℕ → Patterns → Option Pattern → Patterns × Access
unfolding observe_known
observe_found now object first last m none = ((object, first_sighting now last) ∷ m, random)
observe_found now object first last m (some p) = observe_known now object first last m p

unfoldable pub observe : ℕ → ObjectId → ℕ → ℕ → Patterns → Patterns × Access
unfolding make_room find observe_found
observe now object first last m =
    let m' = make_room now m in observe_found now object first last m' (find object m')

-- `start..end`, as its two ends.
unfoldable pub prefetch : ℕ → Access → ℕ → ℕ → ℕ × ℕ
prefetch window random last last_slice = (0, 0)
prefetch window sequential last last_slice =
    let start = saturating_add_u32 last 1 in
    let end = min (saturating_add_u32 start window) (saturating_add_u32 last_slice 1) in
    if window == 0 then (0, 0) else if leb end start then (0, 0) else (start, end)
