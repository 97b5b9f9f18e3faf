-- ===== src/Store/Index/Table.antt =====
-- The operations of `ObjectIndex` over a database table. redb is not part of the repository: a table is
-- an argument, with the laws of a map as redb documents them. Its transactions commit at once here, and
-- its failures are not modelled. The clock is an argument.
pub mod Laws
use cachic.Common.{
  ℕ, suc, ◌+◌, ◌-◌, ◌%◌, ◌^◌, ◌≡◌, Bool, true, false, Option, none, some, List, [], ◌∷◌, ltb,
  if◌then◌else◌, Result, ok, err, ◌>>=◌, length, All, min,
}
use cachic.Common.Words.{saturating_add_u64}
use cachic.Common.Text.{text_eq, starts_with}
use cachic.Store.Slice.{ObjectId}
use cachic.Store.Index.{ObjectMeta, IndexError, encode, decode}

-- The first entry of a key in a list of entries.
abbrev pub lookup : ObjectId → List (ObjectId × List ℕ) → Option (List ℕ)
lookup k [] = none
lookup k ((j, v) ∷ rest) = if text_eq j k then some v else lookup k rest

pub record Redb : Type 1 where
  pub Table : Type 0
  pub get : Table → ObjectId → Option (List ℕ)
  pub insert : Table → ObjectId → List ℕ → Table
  pub remove : Table → ObjectId → Table
  pub iter : Table → List (ObjectId × List ℕ)
  pub get-insert :
      (t : Table) (k j : ObjectId) (v : List ℕ)
      → get (insert t k v) j ≡ (if text_eq k j then some v else get t j)
  pub get-remove :
      (t : Table) (k j : ObjectId) → get (remove t k) j ≡ (if text_eq k j then none else get t j)
  pub lookup-iter : (t : Table) (k : ObjectId) → lookup k (iter t) ≡ get t k
  pub iter-get : (t : Table) → All (λ e. get t e.0 ≡ some e.1) (iter t)

-- `LAST_SEEN_GRANULARITY` in seconds.
abbrev pub last_seen_granularity : ℕ
last_seen_granularity = 3600

-- The table's answer, decoded.
unfoldable pub decoded : Option (List ℕ) → Result (Option ObjectMeta) IndexError
decoded none = ok none
decoded (some v) = decode v >>= λ m. ok (some m)

-- The ids whose entries a test selects. A corrupt entry ends the scan.
unfoldable pub select :
    (ObjectMeta → Bool) → List (ObjectId × List ℕ) → Result (List ObjectId) IndexError
select test [] = ok []
select test ((id, v) ∷ rest) =
    decode v >>= λ m. select test rest >>= λ ids. ok (if test m then id ∷ ids else ids)

-- The sum of the lengths that the entries state.
unfoldable pub sum_len : ℕ → List (ObjectId × List ℕ) → Result ℕ IndexError
sum_len total [] = ok total
sum_len total ((id, v) ∷ rest) =
    decode v >>= λ m. sum_len (saturating_add_u64 total m.total_len) rest

module _ (redb : Redb) where
  open redb use {Table, insert, remove, iter}

  unfoldable pub get : ObjectId → Table → Result (Option ObjectMeta) IndexError
  unfolding decoded
  get id t = decoded (redb.get t id)

  unfoldable pub put : ObjectId → ObjectMeta → Table → Table
  put id m t = insert t id (encode m)

  unfoldable pub delete : ObjectId → Table → Table
  delete id t = remove t id

  unfoldable pub touch_found : ℕ → ObjectId → Table → Option ObjectMeta → Table × Bool
  unfolding put
  touch_found now id t none = (t, false)
  touch_found now id t (some m) =
      if ltb (now - m.last_seen) last_seen_granularity
      then (t, false)
      else (put id (record m { last_seen = now }) t, true)

  unfoldable pub touch : ℕ → ObjectId → Table → Result (Table × Bool) IndexError
  unfolding touch_found get
  touch now id t = get id t >>= λ found. ok (touch_found now id t found)

  unfoldable pub invalidate_found : ObjectId → Table → Option ObjectMeta → Table × ℕ
  unfolding put
  invalidate_found id t none = (t, 1)
  invalidate_found id t (some m) =
      let generation = (m.generation + 1) % 2 ^ 32 in
      (put id (record m { generation = generation; stale = true }) t, generation)

  unfoldable pub invalidate : ObjectId → Table → Result (Table × ℕ) IndexError
  unfolding invalidate_found get
  invalidate id t = get id t >>= λ found. ok (invalidate_found id t found)

  unfoldable pub remove_all : List ObjectId → Table → Table
  remove_all [] t = t
  remove_all (id ∷ ids) t = remove_all ids (remove t id)

  unfoldable pub prune : ℕ → ℕ → Table → Result (Table × ℕ) IndexError
  unfolding remove_all select
  prune now max_age t = select (λ m. ltb m.last_seen (now - max_age)) (iter t) >>= λ stale.
      ok (remove_all stale t, length stale)

  unfoldable pub ids_with_prefix : List ℕ → Table → Result (List ObjectId) IndexError
  unfolding select
  ids_with_prefix prefix t = select (λ m. starts_with prefix m.key) (iter t)

  unfoldable pub all_ids : Table → Result (List ObjectId) IndexError
  unfolding ids_with_prefix
  all_ids t = ids_with_prefix [] t

  unfoldable pub total_bytes : Table → Result ℕ IndexError
  unfolding sum_len
  total_bytes t = sum_len 0 (iter t)
