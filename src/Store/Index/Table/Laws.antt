-- ===== src/Store/Index/Table/Laws.antt =====
-- Each operation of the index against the map from ids to entries that the table stands for.
use cachic.Common.{
  ℕ, ◌+◌, ◌-◌, ◌%◌, ◌^◌, ◌≡◌, refl, sym, ap, ◌∙◌, Bool, true, false, Bool-cases, inl, inr, Option,
  none, some, List, [], ◌∷◌, ltb, if◌then◌else◌, Result, ok, err, >>=-eq-ok, ok-injective, All, any,
  ◌||◌, ◌&&◌, arith,
}
use cachic.Common.Words.{IsU64}
use cachic.Common.Text.{text_eq}
use cachic.Common.Text.Laws.{text_eq_refl, text_eq→eq}
use cachic.Store.Slice.{ObjectId}
use cachic.Store.Index.{ObjectMeta, IndexError, encode, decode}
use cachic.Store.Index.Encoding.{IsMeta, decode-encode_meta}
use cachic.Store.Index.Table.{Redb, lookup, last_seen_granularity, decoded, select}
use cachic.Store.Index.Table

-- Whether an entry decodes to one that a test selects.
abbrev passes : (ObjectMeta → Bool) → Result ObjectMeta IndexError → Bool
passes test (ok m) = test m
passes test (err e) = false

abbrev pub selected : (ObjectMeta → Bool) → Option (List ℕ) → Bool
selected test none = false
selected test (some v) = passes test (decode v)

lookup_sound :
    (g : ObjectId → Option (List ℕ)) (j : ObjectId) (entries : List (ObjectId × List ℕ))
    {v : List ℕ}
    → All (λ e. g e.0 ≡ some e.1) entries
    → lookup j entries ≡ some v
    → g j ≡ some v
lookup_sound g j [] h e = cc
lookup_sound g j ((k, w) ∷ rest) {v} (h, hs) e = elim (Bool-cases (text_eq k j)) [
  | inl same ↦ rw (← text_eq→eq k j same) (h ∙ rw same at e)
  | inr other ↦ lookup_sound g j rest hs (rw other at e)
]

any-if :
    (j k : ObjectId) (b : Bool) (ids : List ObjectId)
    → any (λ i. text_eq i j) (if b then k ∷ ids else ids)
      ≡ ((b && text_eq k j) || any (λ i. text_eq i j) ids)
any-if j k true ids = refl
any-if j k false ids = refl

and_true : (a : Bool) → (a && true) ≡ a
and_true true = refl
and_true false = refl

and_false : (a : Bool) → (a && false) ≡ false
and_false true = refl
and_false false = refl

or_self : (a b : Bool) → a ≡ b → (a || b) ≡ a
or_self true b h = refl
or_self false b h = sym h

or_false : (a b : Bool) → b ≡ false → (a || b) ≡ a
or_false true b h = refl
or_false false b h = h

module _ (g : ObjectId → Option (List ℕ)) (test : ObjectMeta → Bool) (j : ObjectId) where
  -- What `select` returns holds an id exactly when the entry of that id passes the test.
  select-any :
      (entries : List (ObjectId × List ℕ)) (ids : List ObjectId)
      → All (λ e. g e.0 ≡ some e.1) entries
      → select test entries ≡ ok ids
      → any (λ i. text_eq i j) ids ≡ selected test (lookup j entries)
  unfolding select
  select-any [] ids h e = ap (any (λ i. text_eq i j)) (sym (ok-injective e))
  select-any ((k, w) ∷ rest) ids (h, hs) e =
      let (m, dm, e1) = >>=-eq-ok (decode w) _ e in
      let (more, dr, e2) = >>=-eq-ok (select test rest) _ e1 in
      let ih = select-any rest more hs dr in step m more dm ih (ok-injective e2)
    where
      again :
          (m : ObjectMeta)
          → decode w ≡ ok m
          → text_eq k j ≡ true
          → (o : Option (List ℕ)) → lookup j rest ≡ o
          → ((test m && true) || selected test o) ≡ test m
      again m dm same none found = or_false (test m && true) false refl ∙ and_true (test m)
      again m dm same (some v) found =
          let gv : g j ≡ some v = lookup_sound g j rest hs found in
          let gw : g j ≡ some w = rw (text_eq→eq k j same) at h in
          let vw : v ≡ w = cc (gv, gw) in
          or_self (test m && true) _
            (and_true (test m) ∙ sym (ap (λ b. passes test (decode b)) vw ∙ ap (passes test) dm))
          ∙ and_true (test m)

      step :
          (m : ObjectMeta) (more : List ObjectId)
          → decode w ≡ ok m
          → any (λ i. text_eq i j) more ≡ selected test (lookup j rest)
          → (if test m then k ∷ more else more) ≡ ids
          → any (λ i. text_eq i j) ids ≡ selected test (lookup j ((k, w) ∷ rest))
      step m more dm ih e =
          ap (any (λ i. text_eq i j)) (sym e)
          ∙ any-if j k (test m) more
          ∙ elim (Bool-cases (text_eq k j)) [
            | inl same ↦ rw (same, dm, ih) (again m dm same (lookup j rest) refl)
            | inr other ↦
                rw other (ap (λ b. b || any (λ i. text_eq i j) more) (and_false (test m)) ∙ ih)
          ]

module _ (redb : Redb) where
  open redb use {Table as T}

  -- After `put` of an entry that fits its encoding, `get` of that id gives the entry, and `get` of
  -- another id is as before.
  pub get-put :
      (id j : ObjectId) (m : ObjectMeta) (t : T)
      → IsMeta m
      → Table.get redb j (Table.put redb id m t)
        ≡ (if text_eq id j then ok (some m) else Table.get redb j t)
  unfolding Table.get Table.put decoded
  get-put id j m t v = elim (Bool-cases (text_eq id j)) [
    | inl same ↦ rw (redb.get-insert t id j (encode m), same, decode-encode_meta m v)
    | inr other ↦ rw (redb.get-insert t id j (encode m), other)
  ]

  pub get-put_self :
      (id : ObjectId) (m : ObjectMeta) (t : T)
      → IsMeta m
      → Table.get redb id (Table.put redb id m t) ≡ ok (some m)
  get-put_self id m t v = get-put id id m t v ∙ rw (text_eq_refl id)

  bumped : ObjectMeta → ObjectMeta
  bumped m = record m { generation = (m.generation + 1) % 2 ^ 32; stale = true }

  -- Invalidating a known object succeeds with the next generation, u32::MAX being followed by 0, and
  -- marks its entry stale with that generation, all other fields kept; the entries of other ids stay.
  pub invalidate_known :
      (id j : ObjectId) (m : ObjectMeta) (t : T)
      → IsMeta m
      → Table.get redb id t ≡ ok (some m)
      → (Table.invalidate redb id t
          ≡ ok (
            Table.put redb id
                (record m { generation = (m.generation + 1) % 2 ^ 32; stale = true })
                t,
            (m.generation + 1) % 2 ^ 32,
          ))
        × (Table.get redb j (
              Table.put redb id
                (record m { generation = (m.generation + 1) % 2 ^ 32; stale = true })
                t)
            ≡ (if text_eq id j
                then ok (some (record m { generation = (m.generation + 1) % 2 ^ 32; stale = true }))
                else Table.get redb j t))
  unfolding Table.invalidate
  invalidate_known id j m t v h = (
    rw h,
    get-put id j _ t (record {
      total_len = v.total_len;
      generation = omega arith;
      created = v.created;
      last_seen = v.last_seen;
      key = v.key;
      etag = v.etag;
      last_modified = v.last_modified;
      content_type = v.content_type;
    }),
  )

  -- Invalidating an unknown object answers 1 and changes nothing: the answer is not recorded.
  pub invalidate_unknown :
      (id : ObjectId) (t : T)
      → Table.get redb id t ≡ ok none
      → Table.invalidate redb id t ≡ ok (t, 1)
  unfolding Table.invalidate
  invalidate_unknown id t h = rw h

  -- `touch` of a known object writes exactly when the entry was last seen an hour ago or earlier. Then
  -- the entry has the new time and is else as it was; otherwise the table is unchanged.
  pub touch_known :
      (now : ℕ) (id : ObjectId) (m : ObjectMeta) (t : T)
      → IsMeta m
      → IsU64 now
      → Table.get redb id t ≡ ok (some m)
      → (Table.touch redb now id t
          ≡ ok (
              if ltb now (m.last_seen + 3600)
              then (t, false)
              else (Table.put redb id (record m { last_seen = now }) t, true)))
        × (Table.get redb id (Table.put redb id (record m { last_seen = now }) t)
            ≡ ok (some (record m { last_seen = now })))
  unfolding Table.touch
  touch_known now id m t v u h = (
    rw h (ap ok (unfold Table.touch_found in granular)),
    get-put_self id _ t (record {
      total_len = v.total_len;
      generation = v.generation;
      created = v.created;
      last_seen = u;
      key = v.key;
      etag = v.etag;
      last_modified = v.last_modified;
      content_type = v.content_type;
    }),
  )
    where
      granular :
          ◌≡◌ {A = T × Bool}
            (if ltb (now - m.last_seen) 3600
              then (t, false)
              else (Table.put redb id (record m { last_seen = now }) t, true))
            (if ltb now (m.last_seen + 3600)
              then (t, false)
              else (Table.put redb id (record m { last_seen = now }) t, true))
      granular =
          ap {B = T × Bool}
            (λ b.
              if b then (t, false) else (Table.put redb id (record m { last_seen = now }) t, true))
            (ground arith)

  get-remove_all :
      (ids : List ObjectId) (t : T) (j : ObjectId)
      → redb.get (Table.remove_all redb ids t) j
        ≡ (if any (λ i. text_eq i j) ids then none else redb.get t j)
  unfolding Table.remove_all
  get-remove_all [] t j = refl
  get-remove_all (id ∷ ids) t j =
      get-remove_all ids (redb.remove t id) j
      ∙ rw redb.get-remove (nested (text_eq id j) (any (λ i. text_eq i j) ids) (redb.get t j))
    where
      nested :
          (a b : Bool) (o : Option (List ℕ))
          → (if b then none else (if a then none else o)) ≡ (if a || b then none else o)
      nested true true o = refl
      nested true false o = refl
      nested false b o = refl

  -- If `prune` succeeds, then of every id the entry is gone exactly when it was last seen more than
  -- `max_age` before `now`, and is as before otherwise.
  pub prune_lem :
      (now max_age : ℕ) (t : T) (j : ObjectId) {t' : T} {n : ℕ}
      → Table.prune redb now max_age t ≡ ok (t', n)
      → redb.get t' j ≡ (
          if selected (λ m. ltb m.last_seen (now - max_age)) (redb.get t j)
          then none
          else redb.get t j)
  unfolding Table.prune
  prune_lem now max_age t j {t'} e =
      let (ids, found, e1) =
        >>=-eq-ok (select (λ m. ltb m.last_seen (now - max_age)) (redb.iter t)) _ e in
      let ids_any =
        select-any (redb.get t) (λ m. ltb m.last_seen (now - max_age)) j (redb.iter t) ids
          (redb.iter-get t) found in
      ap (λ (p : T × ℕ). redb.get p.0 j) (sym (ok-injective e1))
      ∙ get-remove_all ids t j
      ∙ ap (λ b. if b then none else redb.get t j)
          (ids_any ∙ ap (selected (λ m. ltb m.last_seen (now - max_age))) (redb.lookup-iter t j))
