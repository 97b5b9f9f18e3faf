-- ===== src/Orchestrator/Readahead/Entries.antt =====
-- The entries of the map of patterns: what is left of them by the operations on the map, and their keys.
use cachic.Common.{
  ℕ, ◌-◌, ◌/◌, ◌≡◌, false, Bool-cases, inl, inr, none, List, [], ◌∷◌, ltb, leb, length, take, All,
}
use cachic.Common.Text.{text_eq}
use cachic.Store.Slice.{ObjectId}
use cachic.Orchestrator.Readahead.{
  Pattern, Patterns, find, remove, store, expire, sort_by_age, ages, remove_all, drop_oldest,
  make_room, max_tracked, pattern_ttl,
}

module _ (P : ObjectId × Pattern → Type 0) where
  pub All-remove : (k : ObjectId) (m : Patterns) → All P m → All P (remove k m)
  unfolding remove
  All-remove k [] h = tt
  All-remove k ((j, p) ∷ m) (x, h) = elim (Bool-cases (text_eq j k)) [
    | inl same ↦ rw same (All-remove k m h)
    | inr other ↦ rw other (x, All-remove k m h)
  ]

  pub All-remove_all : (l : List (ObjectId × ℕ)) (m : Patterns) → All P m → All P (remove_all l m)
  unfolding remove_all
  All-remove_all [] m h = h
  All-remove_all ((k, s) ∷ l) m h = All-remove_all l (remove k m) (All-remove k m h)

  pub All-expire : (now : ℕ) (m : Patterns) → All P m → All P (expire now m)
  unfolding expire
  All-expire now [] h = tt
  All-expire now ((j, p) ∷ m) (x, h) = elim (Bool-cases (ltb (now - p.seen) pattern_ttl)) [
    | inl fresh ↦ rw fresh (x, All-expire now m h)
    | inr old ↦ rw old (All-expire now m h)
  ]

-- What room is made by: expiry, and the removal of some keys.
pub kept_by_make_room :
    (P : Patterns → Type 0)
    → ((now : ℕ) (m : Patterns) → P m → P (expire now m))
    → ((l : List (ObjectId × ℕ)) (m : Patterns) → P m → P (remove_all l m))
    → (now : ℕ) (m : Patterns) → P m
    → P (make_room now m)
unfolding make_room drop_oldest
kept_by_make_room P expires removes now m h = elim (Bool-cases (leb max_tracked (length m))) [
  | inl full ↦ rw full (elim (Bool-cases (leb max_tracked (length (expire now m)))) [
    | inl still ↦ rw still (
        removes (take (max_tracked / 2) (sort_by_age (ages (expire now m)))) (expire now m)
          (expires now m h))
    | inr fits ↦ rw fits (expires now m h)
  ])
  | inr fits ↦ rw fits h
]

-- An entry of another object than `j`.
abbrev pub Apart : ObjectId → ObjectId × Pattern → Type 0
Apart j e = text_eq e.0 j ≡ false

abbrev pub Distinct : Patterns → Type 0
Distinct [] = Unit
Distinct ((j, p) ∷ m) = All (Apart j) m × Distinct m

Distinct-remove : (k : ObjectId) (m : Patterns) → Distinct m → Distinct (remove k m)
unfolding remove
Distinct-remove k [] h = tt
Distinct-remove k ((j, p) ∷ m) (x, h) = elim (Bool-cases (text_eq j k)) [
  | inl same ↦ rw same (Distinct-remove k m h)
  | inr other ↦ rw other (All-remove (Apart j) k m x, Distinct-remove k m h)
]

pub Distinct-remove_all :
    (l : List (ObjectId × ℕ)) (m : Patterns) → Distinct m → Distinct (remove_all l m)
unfolding remove_all
Distinct-remove_all [] m h = h
Distinct-remove_all ((k, s) ∷ l) m h = Distinct-remove_all l (remove k m) (Distinct-remove k m h)

pub Distinct-expire : (now : ℕ) (m : Patterns) → Distinct m → Distinct (expire now m)
unfolding expire
Distinct-expire now [] h = tt
Distinct-expire now ((j, p) ∷ m) (x, h) = elim (Bool-cases (ltb (now - p.seen) pattern_ttl)) [
  | inl fresh ↦ rw fresh (All-expire (Apart j) now m x, Distinct-expire now m h)
  | inr old ↦ rw old (Distinct-expire now m h)
]

Apart-store :
    (i k : ObjectId) (p : Pattern) (m : Patterns) → All (Apart i) m → All (Apart i) (store k p m)
unfolding store
Apart-store i k p [] h = tt
Apart-store i k p ((j, q) ∷ m) (x, h) = elim (Bool-cases (text_eq j k)) [
  | inl same ↦ rw same (x, h)
  | inr other ↦ rw other (x, Apart-store i k p m h)
]

pub Distinct-store :
    (k : ObjectId) (p : Pattern) (m : Patterns) → Distinct m → Distinct (store k p m)
unfolding store
Distinct-store k p [] h = tt
Distinct-store k p ((j, q) ∷ m) (x, h) = elim (Bool-cases (text_eq j k)) [
  | inl same ↦ rw same (x, h)
  | inr other ↦ rw other (Apart-store j k p m x, Distinct-store k p m h)
]

pub find-Apart : (k : ObjectId) (m : Patterns) → find k m ≡ none → All (Apart k) m
unfolding find
find-Apart k [] h = tt
find-Apart k ((j, p) ∷ m) h = elim (Bool-cases (text_eq j k)) [
  | inl same ↦ cc (rw same at h)
  | inr other ↦ (other, find-Apart k m (rw other at h))
]
