-- ===== src/Orchestrator/Core/Memory.antt =====
-- A store that is a list, for the examples.
use cachic.Common.{
  ℕ, ◌≡◌, refl, sym, ap, Bool, true, false, if-elim, ◌&&◌, ◌==◌, ==_iff, ◌⊎◌, inl, inr, Option,
  none, some, List, [], ◌∷◌, if◌then◌else◌, Result, ok, err, ok-injective,
}
use cachic.Common.Text.{text_eq}
use cachic.Common.Text.Laws.{text_eq→eq}
use cachic.Store.Slice.{SliceKey, SliceValue}
use cachic.Store.Hybrid.{Foyer}
use cachic.Orchestrator.Core.{FetchError}

abbrev pub Slices : Type 0
Slices = List (SliceKey × SliceValue)

abbrev pub same_key : SliceKey → SliceKey → Bool
same_key k j = text_eq k.object j.object && ((k.generation == j.generation) && (k.index == j.index))

abbrev pub find : Slices → SliceKey → Option SliceValue
find [] j = none
find ((k, v) ∷ rest) j = if same_key k j then some v else find rest j

abbrev pub run_fetch :
    Slices → SliceKey → Result SliceValue FetchError → Result SliceValue (List ℕ) × Bool × Slices
run_fetch c k (ok v) = (ok v, true, (k, v) ∷ c)
run_fetch c k (err e) = (err [], true, c)

abbrev pub fetch_found :
    Slices
    → SliceKey
    → Result SliceValue FetchError
    → Option SliceValue
    → Result SliceValue (List ℕ) × Bool × Slices
fetch_found c k fetch none = run_fetch c k fetch
fetch_found c k fetch (some v) = (ok v, false, c)

both : (a b : Bool) → (a && b) ≡ true → (a ≡ true) × (b ≡ true)
both true b h = (refl, h)
both false b h = cc

same_key-eq : (k j : SliceKey) → same_key k j ≡ true → j ≡ k
same_key-eq k j h =
    let (a, rest) = both _ _ h in
    let (b, c) = both _ _ rest in
    rw
      (
        sym (text_eq→eq k.object j.object a),
        sym ((==_iff k.generation j.generation).0 b),
        sym ((==_iff k.index j.index).0 c),
      )
      refl

pub found-cons :
    (c : Slices) (k j : SliceKey) (v w : SliceValue)
    → ◌≡◌ {A = Result (Option SliceValue) (List ℕ)} (ok (find ((k, v) ∷ c) j)) (ok (some w))
    → ((j ≡ k) × (w ≡ v))
      ⊎ (◌≡◌ {A = Result (Option SliceValue) (List ℕ)} (ok (find c j)) (ok (some w)))
found-cons c k j v w h =
    if-elim (same_key k j) (some v) (find c j) (ok-injective h)
      (λ same e. inl (same_key-eq k j same, cc)) (λ other e. inr (ap ok e))

pub found-fetch :
    (c : Slices) (k j : SliceKey) (fetch : Result SliceValue FetchError) (o : Option SliceValue)
    (w : SliceValue)
    → ◌≡◌ {A = Result (Option SliceValue) (List ℕ)}
        (ok (find (fetch_found c k fetch o).2 j))
        (ok (some w))
    → ((j ≡ k) × (fetch ≡ ok w))
      ⊎ (◌≡◌ {A = Result (Option SliceValue) (List ℕ)} (ok (find c j)) (ok (some w)))
found-fetch c k j (ok v) none w h = elim (found-cons c k j v w h) [
  | inl (at_key, e) ↦ inl (at_key, ap ok (sym e))
  | inr old ↦ inr old
]
found-fetch c k j (err e) none w h = inr h
found-fetch c k j fetch (some v) w h = inr h

pub answered :
    (c : Slices) (k : SliceKey) (fetch : Result SliceValue FetchError) (o : Option SliceValue)
    (v : SliceValue)
    → (fetch_found c k fetch o).0 ≡ ok v
    → (◌≡◌ {A = Result (Option SliceValue) (List ℕ)} (ok o) (ok (some v))) ⊎ (fetch ≡ ok v)
answered c k (ok x) none v h = inr (ap ok (ok-injective h))
answered c k (err e) none v h = cc
answered c k fetch (some x) v h = inl (ap (λ y. ok (some y)) (ok-injective h))

pub dropped :
    (c : Slices) (j : SliceKey) (w : SliceValue)
    → ◌≡◌ {A = Result (Option SliceValue) (List ℕ)} (ok (find [] j)) (ok (some w))
    → ◌≡◌ {A = Result (Option SliceValue) (List ℕ)} (ok (find c j)) (ok (some w))
dropped c j w h = cc

-- It keeps all that it is given, and drops all when a slice is removed.
abbrev pub memory : Foyer FetchError
memory = record {
  Cache = Slices;
  get = λ c k. ok (find c k);
  contains = λ c k. elim (find c k) [ none ↦ false | some v ↦ true ];
  insert = λ c k v. (k, v) ∷ c;
  remove = λ c k. [];
  get_or_fetch = λ c k fetch. fetch_found c k fetch (find c k);
  get-insert = found-cons;
  get-remove = λ c k j w h. dropped c j w h;
  fetched = λ c k fetch v h. answered c k fetch (find c k) v h;
  get-fetched = λ c k j fetch w h. found-fetch c k j fetch (find c k) w h;
}
