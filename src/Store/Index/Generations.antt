-- ===== src/Store/Index/Generations.antt =====
-- Generations over a history of invalidations.
use cachic.Common.{
  ℕ, zero, suc, ◌+◌, ◌%◌, ◌^◌, ◌<◌, ◌≡◌, ◌≢◌, refl, true, some, Result, ok, ◌>>=◌, arith,
}
use cachic.Store.Slice.{ObjectId}
use cachic.Store.Index.{ObjectMeta, IndexError}
use cachic.Store.Index.Encoding.{IsMeta}
use cachic.Store.Index.Table.{Redb}
use cachic.Store.Index.Table
use cachic.Store.Index.Table.Laws.{get-put_self, invalidate_known}

module _ (redb : Redb) where
  open redb use {Table as T}

  -- `n` invalidations of one object, one after the other.
  unfoldable pub invalidate_times : ℕ → ObjectId → T → Result T IndexError
  invalidate_times zero id t = ok t
  invalidate_times (suc n) id t =
      Table.invalidate redb id t >>= λ (t', generation). invalidate_times n id t'

  -- The entry after `n` invalidations.
  abbrev pub aged : ℕ → ObjectMeta → ObjectMeta
  aged zero m = m
  aged (suc n) m = aged n (record m { generation = (m.generation + 1) % 2 ^ 32; stale = true })

  bumped-IsMeta :
      (m : ObjectMeta)
      → IsMeta m
      → IsMeta (record m { generation = (m.generation + 1) % 2 ^ 32; stale = true })
  bumped-IsMeta m v = record {
    total_len = v.total_len;
    generation = omega arith;
    created = v.created;
    last_seen = v.last_seen;
    key = v.key;
    etag = v.etag;
    last_modified = v.last_modified;
    content_type = v.content_type;
  }

  invalidate_times-aged :
      (n : ℕ) (id : ObjectId) (m : ObjectMeta) (t : T)
      → IsMeta m
      → Table.get redb id t ≡ ok (some m)
      → (t' : T) × (invalidate_times n id t ≡ ok t') × (Table.get redb id t' ≡ ok (some (aged n m)))
  unfolding invalidate_times
  invalidate_times-aged zero id m t v h = (t, refl, h)
  invalidate_times-aged (suc n) id m t v h =
      let m' : ObjectMeta = record m { generation = (m.generation + 1) % 2 ^ 32; stale = true } in
      let v' = bumped-IsMeta m v in
      let (t', e, g) =
        invalidate_times-aged n id m' (Table.put redb id m' t) v' (get-put_self redb id m' t v') in
      (t', rw ((invalidate_known redb id id m t v h).0) e, g)

  generation-aged :
      (n : ℕ) (m : ObjectMeta) → IsMeta m → (aged n m).generation ≡ (m.generation + n) % 2 ^ 32
  generation-aged zero m v = omega (arith, v.generation)
  generation-aged (suc n) m v = omega (arith, v.generation, generation-aged n _ (bumped-IsMeta m v))

  -- Invalidating a known object `n` times succeeds, and leaves an entry whose generation is `n` further on
  -- modulo 2 ^ 32. So in fewer than 2 ^ 32 invalidations no generation comes back.
  pub invalidate_times_fresh :
      (n : ℕ) (id : ObjectId) (m : ObjectMeta) (t : T)
      → IsMeta m
      → Table.get redb id t ≡ ok (some m)
      → 0 < n
      → n < 2 ^ 32
      → (t' : T) × (m' : ObjectMeta) × (invalidate_times n id t ≡ ok t')
        × (Table.get redb id t' ≡ ok (some m'))
        × (m'.generation ≡ (m.generation + n) % 2 ^ 32)
        × (m'.generation ≢ m.generation)
  invalidate_times_fresh n id m t v h lo hi =
      let (t', e, g) = invalidate_times-aged n id m t v h in
      (
        t',
        aged n m,
        e,
        g,
        generation-aged n m v,
        omega (arith, generation-aged n m v, v.generation),
      )
