-- ===== src/Orchestrator/Fill.antt =====
-- `run_fill` and `payload_window` of crates/cachic/src/orchestrator/mod.rs: cutting a streamed object into
-- slices, and taking a slice's part of a response. What the fill does to the store and to its channel is
-- the list of its events. The inner loop takes as many rounds as the buffer has bytes: with a positive
-- slice size each round takes at least one.
pub mod Sliced
pub mod Response
use cachic.Common.{
  ℕ, zero, suc, ◌+◌, ◌%◌, ◌^◌, Bool, true, false, ◌||◌, List, [], ◌∷◌, ◌++◌, ltb, leb,
  if◌then◌else◌, Result, ok, err, length, take, drop,
}
use cachic.Proxy.Range.Tiling.{windowed}

pub data Event : Type 0 where
  insert : ℕ → List ℕ → Event
  publish : ℕ → Event

-- `index += 1` on a u32.
abbrev pub next : ℕ → ℕ
next index = (index + 1) % 2 ^ 32

pub record Cut : Type 0 where
  pub events : List Event
  pub buffer : List ℕ
  pub index : ℕ

-- `while buffer.len() >= slice_size`.
unfoldable pub cut : ℕ → ℕ → List ℕ → ℕ → Cut
cut zero s buffer index = record { events = []; buffer = buffer; index = index }
cut (suc rounds) s buffer index =
    let rest = cut rounds s (drop s buffer) (next index) in
    let one : Cut = record rest {
      events = insert index (take s buffer) ∷ publish (next index) ∷ rest.events;
    } in
    if leb s (length buffer) then one else record { events = []; buffer = buffer; index = index }

-- The end of the stream: what is left is the last slice.
unfoldable pub finish : List ℕ → ℕ → List Event × ℕ
finish [] index = ([], index)
finish (c ∷ buffer) index = (insert index (c ∷ buffer) ∷ publish (next index) ∷ [], next index)

-- `while let Some(chunk) = stream.next()`. An error ends the fill; what was inserted stays.
unfoldable pub fill_chunks {ℓ} :
    {E : Type ℓ} → ℕ → List (Result (List ℕ) E) → List ℕ → ℕ → List Event × Result ℕ E
unfolding cut finish
fill_chunks s [] buffer index = let (events, count) = finish buffer index in (events, ok count)
fill_chunks s (err e ∷ chunks) buffer index = ([], err e)
fill_chunks s (ok chunk ∷ chunks) buffer index =
    let full = buffer ++ chunk in
    let c = cut (length full) s full index in
    let (events, result) = fill_chunks s chunks c.buffer c.index in (c.events ++ events, result)

unfoldable pub run_fill {ℓ} : {E : Type ℓ} → ℕ → List (Result (List ℕ) E) → List Event × Result ℕ E
unfolding fill_chunks
run_fill s chunks = fill_chunks s chunks [] 0

pub data WindowError : Type 0 where
  short_slice : ℕ → ℕ → ℕ → WindowError

-- The bytes of a stored payload that a window asks for, or how long the payload is instead.
unfoldable pub payload_window : List ℕ → ℕ × ℕ → Result (List ℕ) WindowError
payload_window payload (lo, hi) =
    if ltb hi lo || ltb (length payload) hi
    then err (short_slice (length payload) lo hi)
    else ok (windowed (lo, hi) payload)
