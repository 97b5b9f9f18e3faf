-- ===== src/Store/Index/Examples.antt =====
-- The theorems on the index at concrete entries, over a table that is an association list.
use cachic.Common.{
  ℕ, ◌+◌, ◌-◌, ◌%◌, ◌^◌, ◌≡◌, ◌≢◌, refl, true, false, Bool-cases, inl, inr, none, some, List, [],
  ◌∷◌, ltb, if◌then◌else◌, ok, arith, All,
}
use cachic.Common.Text.{codes, text_eq, utf8}
use cachic.Common.Text.Laws.{text_eq_refl, text_eq_iff}
use cachic.Store.Slice.{ObjectId}
use cachic.Store.Index.{ObjectMeta, encode, decode}
use cachic.Store.Index.Encoding.{IsMeta, decode-encode_meta}
use cachic.Store.Index.Table.{Redb, lookup}
use cachic.Store.Index.Table
use cachic.Store.Index.Table.Laws.{selected, get-put_self, invalidate_known, touch_known, prune_lem}
use cachic.Store.Index.Generations.{invalidate_times, invalidate_times_fresh}

abbrev Entries : Type 0
Entries = List (ObjectId × List ℕ)

abbrev without : ObjectId → Entries → Entries
without k [] = []
without k ((j, v) ∷ rest) = if text_eq k j then without k rest else (j, v) ∷ without k rest

-- The first entry of each key.
abbrev first_entries : Entries → Entries
first_entries [] = []
first_entries ((j, v) ∷ rest) = (j, v) ∷ without j (first_entries rest)

pub lookup-without :
    (t : Entries) (k j : ObjectId)
    → lookup j (without k t) ≡ (if text_eq k j then none else lookup j t)
lookup-without [] k j = ground arith
lookup-without ((i, v) ∷ rest) k j =
    ground (arith, lookup-without rest k j, text_eq_iff k i, text_eq_iff k j, text_eq_iff i j)

pub lookup-first_entries : (t : Entries) (k : ObjectId) → lookup k (first_entries t) ≡ lookup k t
lookup-first_entries [] k = refl
lookup-first_entries ((i, v) ∷ rest) k =
    ground (arith, lookup-without (first_entries rest) i k, lookup-first_entries rest k)

All-without :
    (P : ObjectId × List ℕ → Type 0) (k : ObjectId) (t : Entries)
    → All P t
    → All (λ e. P e × (text_eq k e.0 ≡ false)) (without k t)
All-without P k [] h = tt
All-without P k ((j, v) ∷ rest) (h, hs) = elim (Bool-cases (text_eq k j)) [
  | inl same ↦ rw same (All-without P k rest hs)
  | inr other ↦ rw other ((h, other), All-without P k rest hs)
]

All-map :
    {P Q : ObjectId × List ℕ → Type 0} (t : Entries)
    → ((e : ObjectId × List ℕ) → P e → Q e)
    → All P t
    → All Q t
All-map [] f h = tt
All-map (e ∷ t) f (h, hs) = (f e h, All-map t f hs)

pub first_entries-lookup : (t : Entries) → All (λ e. lookup e.0 t ≡ some e.1) (first_entries t)
first_entries-lookup [] = tt
first_entries-lookup ((i, v) ∷ rest) = (
  rw (text_eq_refl i) refl,
  All-map (without i (first_entries rest)) (λ e (h, other). rw other h)
      (All-without _ i (first_entries rest) (first_entries-lookup rest)),
)

abbrev pub table : Redb
table = record {
  Table = Entries;
  get = λ t k. lookup k t;
  insert = λ t k v. (k, v) ∷ t;
  remove = λ t k. without k t;
  iter = first_entries;
  get-insert = λ t k j v. refl;
  get-remove = λ t k j. lookup-without t k j;
  lookup-iter = lookup-first_entries;
  iter-get = first_entries-lookup;
}

abbrev entry : ObjectMeta
entry = record {
  key = codes "/depot";
  total_len = 100;
  generation = 4294967295;
  etag = some (codes "ab");
  last_modified = none;
  content_type = none;
  no_ranges = false;
  created = 1000;
  last_seen = 2000;
  stale = false;
}

entry-IsMeta : IsMeta entry
entry-IsMeta = record {
  total_len = omega arith;
  generation = omega arith;
  created = omega arith;
  last_seen = omega arith;
  key = (omega arith, unfold utf8 in refl);
  etag = (omega arith, unfold utf8 in refl);
  last_modified = tt;
  content_type = tt;
}

decode-encode_meta_example : decode (encode entry) ≡ ok entry
decode-encode_meta_example = decode-encode_meta entry entry-IsMeta

abbrev id : ObjectId
id = 5 ∷ []

abbrev one_entry : Entries
one_entry = Table.put table id entry []

one_entry_get : Table.get table id one_entry ≡ ok (some entry)
one_entry_get = get-put_self table id entry [] entry-IsMeta

invalidate_known_example :
    (Table.invalidate table id one_entry
      ≡ ok (Table.put table id (record entry { generation = 0; stale = true }) one_entry, 0))
    × (Table.get table
          (6 ∷ [])
          (Table.put table id (record entry { generation = 0; stale = true }) one_entry)
        ≡ (if text_eq id (6 ∷ [])
            then ok (some (record entry { generation = 0; stale = true }))
            else Table.get table (6 ∷ []) one_entry))
invalidate_known_example =
    invalidate_known table id (6 ∷ []) entry one_entry entry-IsMeta one_entry_get

touch_known_example :
    (Table.touch table 9000 id one_entry
      ≡ ok (
          if ltb 9000 (2000 + 3600)
          then (one_entry, false)
          else (Table.put table id (record entry { last_seen = 9000 }) one_entry, true)))
    × (Table.get table id (Table.put table id (record entry { last_seen = 9000 }) one_entry)
        ≡ ok (some (record entry { last_seen = 9000 })))
touch_known_example =
    touch_known table 9000 id entry one_entry entry-IsMeta (omega arith) one_entry_get

invalidate_times_fresh_example :
    (t : Entries) × (m : ObjectMeta) × (invalidate_times table 3 id one_entry ≡ ok t)
    × (Table.get table id t ≡ ok (some m))
    × (m.generation ≡ (4294967295 + 3) % 2 ^ 32)
    × (m.generation ≢ 4294967295)
invalidate_times_fresh_example =
    invalidate_times_fresh table 3 id entry one_entry entry-IsMeta one_entry_get (omega arith)
      (omega arith)

pruned : Table.prune table 9000 100 one_entry ≡ ok ([], 1)
unfolding Table.prune Table.put Table.remove_all Table.select text_eq
pruned = rw (decode-encode_meta entry entry-IsMeta) refl

prune_lem_example : lookup id [] ≡ (
    if selected (λ m. ltb m.last_seen (9000 - 100)) (lookup id one_entry)
    then none
    else lookup id one_entry)
prune_lem_example = prune_lem table 9000 100 one_entry id pruned
