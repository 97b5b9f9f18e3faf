-- ===== src/Orchestrator/Examples.antt =====
-- The theorems on the orchestrator at concrete inputs.
use cachic.Common.{
  ℕ, ◌+◌, ◌≤◌, ◌<◌, ◌≡◌, refl, ◌↔◌, ◌⊎◌, true, false, none, some, List, [], ◌∷◌, if◌then◌else◌, ltb,
  ok, err, length, map, arith,
}
use cachic.Common.Text.{
  codes, text_eq, starts_with, trim, trim_start, trim_end, skip_space, space_len, is_empty,
}
use cachic.Proxy.Range.{ByteRange, plan, indices}
use cachic.Proxy.Range.Tiling.{bytes_of}
use cachic.Orchestrator.Validators.{
  Validators, matches, is_weak, if_range_matches, matches_etag, strong_eq,
}
use cachic.Orchestrator.Validators.Laws.{SameEntity, matches-exact, if_range_matches_sound}
use cachic.Store.Slice.{ObjectId}
use cachic.Orchestrator.Readahead
use cachic.Orchestrator.Readahead.{
  Pattern, Patterns, observe, prefetch, make_room, sequential, Access, max_tracked, observe_found,
  observe_known, advance, store,
}
use cachic.Orchestrator.Readahead.History.{
  Request, observe_all, requests_of, Consecutive, start, follow,
}
use cachic.Orchestrator.Readahead.Recognised.{observe_recognises}
use cachic.Orchestrator.Readahead.Laws.{observe-sequential, prefetch_bounds}
use cachic.Orchestrator.Filler
use cachic.Orchestrator.Filler.{
  Progress, ready, complete, failed, Reason, abandoned, never_produced, FillRegistry, Role, filler,
  subscriber, claim, release, wait_for, look,
}
use cachic.Orchestrator.Filler.Laws.{
  published, see, miss, last, channel_of, wait_for-published, claim_exclusive,
}
use cachic.Orchestrator.Fill.{run_fill}
use cachic.Orchestrator.Fill.Sliced.{slice_events, bytes_in, IsCount, run_fill-slices}
use cachic.Orchestrator.Fill.Response.{respond, respond-run_fill}

abbrev chunks : List (List ℕ)
chunks = (1 ∷ 2 ∷ 3 ∷ []) ∷ (4 ∷ 5 ∷ 6 ∷ 7 ∷ []) ∷ (8 ∷ 9 ∷ []) ∷ []

chunks-IsCount : IsCount 4 (length (bytes_in chunks)) 3
chunks-IsCount = record { enough = omega arith; needed = omega arith }

run_fill-slices_example :
    run_fill {E = ℕ} 4 (map ok chunks) ≡ (slice_events 3 4 0 (bytes_in chunks), ok 3)
run_fill-slices_example = run_fill-slices ℕ 4 3 chunks (omega arith) chunks-IsCount (omega arith)

abbrev wanted : ByteRange
wanted = record { start = 2; end = 7 }

respond-run_fill_example :
    respond 4 wanted (run_fill {E = ℕ} 4 (map ok chunks)).0 (indices (plan wanted 4))
    ≡ ok (bytes_of wanted (bytes_in chunks))
respond-run_fill_example =
    respond-run_fill ℕ 4 3 wanted chunks (omega arith) (omega arith) (omega arith) chunks-IsCount
      (omega arith) (omega arith) (omega arith)

wait_for-published_example :
    wait_for (ready 0 ∷ ready 1 ∷ complete 3 ∷ []) 2
    ≡ (if ltb 2 3 then ok tt else err (never_produced 3 2))
unfolding published
wait_for-published_example = wait_for-published 3 2 (see (see (miss (miss last))))

abbrev registry : FillRegistry
registry = record { fills = []; channels = [] }

claim_exclusive_example :
    (claim (1 ∷ []) (claim (1 ∷ []) registry).0
      ≡ ((claim (1 ∷ []) registry).0, subscriber (channel_of (claim (1 ∷ []) registry).1)))
    × (Filler.find (2 ∷ []) (claim (1 ∷ []) registry).0.fills ≡ (
        if text_eq (1 ∷ []) (2 ∷ [])
        then some (channel_of (claim (1 ∷ []) registry).1)
        else Filler.find (2 ∷ []) []))
    × ((claim (1 ∷ []) (release (1 ∷ []) registry)).1 ≡ filler 0)
claim_exclusive_example = claim_exclusive (1 ∷ []) (2 ∷ []) registry

abbrev tagged : Validators
tagged = record { etag = some (codes "a1"); last_modified = none }

tagged-matches : matches tagged tagged ≡ true
unfolding matches matches_etag strong_eq is_weak starts_with text_eq
tagged-matches = refl

matches-exact_example : (matches tagged tagged ≡ true) ↔ SameEntity tagged tagged
matches-exact_example = matches-exact tagged tagged

abbrev dated : Validators
dated = record { etag = none; last_modified = some (codes "Tue") }

dated-matches : if_range_matches (codes "Tue") dated ≡ true
unfolding if_range_matches trim trim_start trim_end skip_space space_len is_empty starts_with
    text_eq
dated-matches = refl

if_range_matches_sound_example :
    ((dated.etag ≡ some (trim (codes "Tue"))) × (is_weak (trim (codes "Tue")) ≡ false))
    ⊎ (dated.last_modified ≡ some (trim (codes "Tue")))
if_range_matches_sound_example = if_range_matches_sound (codes "Tue") dated dated-matches

-- Three requests of one object, each where the one before ended, and one of another object in between.
abbrev request : ℕ → ObjectId → ℕ → ℕ → Request
request at object from to = record { now = at; object = object; first = from; last = to }

abbrev streaming : List Request
streaming =
    request 300 (1 ∷ []) 4 4
    ∷ request 250 (2 ∷ []) 7 7
    ∷ request 200 (1 ∷ []) 2 3
    ∷ request 100 (1 ∷ []) 0 1
    ∷ []

abbrev fourth : Request
fourth = request 400 (1 ∷ []) 5 5

streaming-sequential : (observe 400 (1 ∷ []) 5 5 (observe_all streaming)).1 ≡ sequential
unfolding observe make_room Readahead.find observe_found observe_known advance text_eq observe_all
    store
streaming-sequential = refl

observe-sequential_example : Consecutive 3 (fourth ∷ requests_of (1 ∷ []) streaming)
observe-sequential_example = observe-sequential streaming fourth streaming-sequential

fourth-Consecutive : Consecutive 3 (fourth ∷ requests_of (1 ∷ []) streaming)
unfolding requests_of text_eq
fourth-Consecutive =
    follow (record { adjacent = omega arith; prompt = omega arith })
      (follow (record { adjacent = omega arith; prompt = omega arith })
        (follow (record { adjacent = omega arith; prompt = omega arith }) start))

observe_recognises_example : (observe 400 (1 ∷ []) 5 5 (observe_all streaming)).1 ≡ sequential
observe_recognises_example = observe_recognises streaming fourth (omega arith) fourth-Consecutive

prefetch_bounds_example :
    (◌≡◌ {A = Access} sequential sequential)
    × (5 < 7)
    × (7 ≤ 20)
    × ((prefetch 4 sequential 5 20).1 ≤ (prefetch 4 sequential 5 20).0 + 4)
prefetch_bounds_example =
    prefetch_bounds 4 sequential 5 20 7 (omega arith) (unfold prefetch in omega arith)
      (unfold prefetch in omega arith)
