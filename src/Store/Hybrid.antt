-- ===== src/Store/Hybrid.antt =====
-- crates/cachic/src/store/hybrid.rs: the slice store. The hybrid cache of foyer, which it wraps, is not part of the
-- repository: it is an argument, with what foyer documents. A cache may drop entries at any time, so its laws
-- say only that what is found was put there.
use cachic.Common.{ℕ, ◌≡◌, ◌⊎◌, Bool, Option, some, List, Result, ok}
use cachic.Store.Slice.{SliceKey, SliceValue}

-- The text of an error of foyer's is what is left of it. The closure of `get_or_fetch` is given by what it would
-- return; whether it ran is part of the answer.
pub record Foyer (E : Type 0) : Type 1 where
  pub Cache : Type 0
  pub get : Cache → SliceKey → Result (Option SliceValue) (List ℕ)
  pub contains : Cache → SliceKey → Bool
  pub insert : Cache → SliceKey → SliceValue → Cache
  pub remove : Cache → SliceKey → Cache
  pub get_or_fetch :
      Cache → SliceKey → Result SliceValue E → Result SliceValue (List ℕ) × Bool × Cache
  pub get-insert :
      (c : Cache) (k j : SliceKey) (v w : SliceValue)
      → get (insert c k v) j ≡ ok (some w)
      → ((j ≡ k) × (w ≡ v)) ⊎ (get c j ≡ ok (some w))
  pub get-remove :
      (c : Cache) (k j : SliceKey) (w : SliceValue)
      → get (remove c k) j ≡ ok (some w)
      → get c j ≡ ok (some w)
  pub fetched :
      (c : Cache) (k : SliceKey) (fetch : Result SliceValue E) (v : SliceValue)
      → (get_or_fetch c k fetch).0 ≡ ok v
      → (get c k ≡ ok (some v)) ⊎ (fetch ≡ ok v)
  pub get-fetched :
      (c : Cache) (k j : SliceKey) (fetch : Result SliceValue E) (w : SliceValue)
      → get (get_or_fetch c k fetch).2 j ≡ ok (some w)
      → ((j ≡ k) × (fetch ≡ ok w)) ⊎ (get c j ≡ ok (some w))
