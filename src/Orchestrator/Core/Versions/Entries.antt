-- ===== src/Orchestrator/Core/Versions/Entries.antt =====
-- The changes of the index, of the store and of the cells, against the versions.
use cachic.Common.{
  ℕ, ◌≤◌, ◌≡◌, refl, sym, ap, ◌∙◌, subst, false, Bool-cases, ◌⊎◌, inl, inr, Option, some, List, [],
  ◌∷◌, ok, ok-injective, some-injective, if-elim, if◌then◌else◌, ==_iff, ==_refl, ◌==◌, All, arith,
}
use cachic.Common.Text.{text_eq}
use cachic.Common.Text.Laws.{text_eq_refl, text_eq→eq}
use cachic.Store.Slice.{ObjectId, SliceKey, SliceHeader, SliceValue}
use cachic.Store.Index.{ObjectMeta}
use cachic.Store.Index.Encoding.{IsMeta}
use cachic.Store.Index.Table.{Redb}
use cachic.Store.Index.Table
use cachic.Store.Index.Table.Laws.{get-put}
use cachic.Store.Hybrid.{Foyer}
use cachic.Orchestrator.Core.{Plan, FetchError, header_for}
use cachic.Orchestrator.Core.Operations.{set_cell}
use cachic.Orchestrator.Core.Versions.{Version, Reached, St, Known, Tagged, OneVersion}

-- The version with another one at one object and generation.
unfoldable pub reversion : Version → ObjectId → ℕ → SliceHeader → Version
reversion version o g h o' g' =
    if text_eq o o' then (if g == g' then h else version o' g') else version o' g'

All-map :
    {A : Type 0} {P Q : A → Type 0} (xs : List A) → ((a : A) → P a → Q a) → All P xs → All Q xs
All-map [] f h = tt
All-map (x ∷ xs) f (h, hs) = (f x h, All-map xs f hs)

pub reversion_same :
    (version : Version) (o : ObjectId) (g : ℕ) (h : SliceHeader) → reversion version o g h o g ≡ h
unfolding reversion
reversion_same version o g h = rw (text_eq_refl o, ==_refl g) refl

module _ (redb : Redb) (foyer : Foyer FetchError) (slice_size : ℕ) where
  open redb use {Table as T}

  reversion_other :
      (version : Version) (t : T) (o o' : ObjectId) (g g' : ℕ) (h : SliceHeader)
      → (Known redb foyer slice_size t o g → Prim.⊥)
      → Known redb foyer slice_size t o' g'
      → reversion version o g h o' g' ≡ version o' g'
  unfolding reversion
  reversion_other version t o o' g g' h fresh k = elim (Bool-cases (text_eq o o')) [
    | inr other ↦ rw other refl
    | inl same ↦ elim (Bool-cases (g == g')) [
      | inr later ↦ rw (same, later) refl
      | inl equal ↦ absurd (fresh (at (text_eq→eq o o' same) ((==_iff g g').0 equal)))
    ]
  ]
    where
      at : o ≡ o' → g ≡ g' → Known redb foyer slice_size t o g
      at e f =
          subst (λ x. Known redb foyer slice_size t x g) (sym e)
            (subst (λ x. Known redb foyer slice_size t o' x) (sym f) k)

  pub Known-entry :
      (t : T) (o : ObjectId) (m : ObjectMeta) (g : ℕ)
      → Table.get redb o t ≡ ok (some m)
      → Known redb foyer slice_size t o g
      → Reached m g
  unfolding Known
  Known-entry t o m g found (x, e, r) =
      subst (λ y. Reached y g) (some-injective (ok-injective (sym e ∙ found))) r

  -- A generation that no entry has reached can be given any version.
  pub reversion-OneVersion :
      (version : Version) (st : St redb foyer slice_size) (ps : List Plan) (n : ℕ) (o : ObjectId)
      (g : ℕ) (h : SliceHeader)
      → (Known redb foyer slice_size st.index o g → Prim.⊥)
      → OneVersion redb foyer slice_size version st ps n
      → OneVersion redb foyer slice_size (reversion version o g h) st ps n
  reversion-OneVersion version st ps n o g h fresh v = record {
    planned = All-map ps (λ p k. again p.object p.meta k) v.planned;
    celled = λ o' m e. again o' m (v.celled o' m e);
    fits = v.fits;
    entered = λ o' m e s. (v.entered o' m e s) ∙ sym (other o' m.generation (current o' m e s));
    stored = λ k w e. let (a, b) = v.stored k w e in (a ∙ sym (other k.object k.generation b), b);
  }
    where
      other :
          (o' : ObjectId) (g' : ℕ)
          → Known redb foyer slice_size st.index o' g'
          → reversion version o g h o' g' ≡ version o' g'
      other o' g' k = reversion_other version st.index o o' g g' h fresh k

      again :
          (o' : ObjectId) (m : ObjectMeta)
          → Tagged redb foyer slice_size version st.index o' m
          → Tagged redb foyer slice_size (reversion version o g h) st.index o' m
      again o' m (a, b) = (a ∙ sym (other o' m.generation b), b)

      current :
          (o' : ObjectId) (m : ObjectMeta)
          → Table.get redb o' st.index ≡ ok (some m)
          → m.stale ≡ false
          → Known redb foyer slice_size st.index o' m.generation
      current o' m e s = unfold Known in (m, e, (omega arith, λ x. absurd (cc (sym s ∙ x))))

  module _ (id : ObjectId) (m : ObjectMeta) (valid : IsMeta m) (t : T) where
    pub put_same : (o : ObjectId) → id ≡ o → Table.get redb o (Table.put redb id m t) ≡ ok (some m)
    put_same o e =
        subst (λ x. Table.get redb x (Table.put redb id m t) ≡ ok (some m)) e
          (get-put redb id id m t valid ∙ at)
      where
        at : (if text_eq id id then ok (some m) else Table.get redb id t) ≡ ok (some m)
        at = rw (text_eq_refl id) refl

    -- An entry after a write is the one written, or was there.
    put_cases :
        (o : ObjectId) {x : ObjectMeta}
        → Table.get redb o (Table.put redb id m t) ≡ ok (some x)
        → ((id ≡ o) × (m ≡ x)) ⊎ (Table.get redb o t ≡ ok (some x))
    put_cases o {x} e =
        if-elim (text_eq id o) (ok (some m)) (Table.get redb o t)
          (sym (get-put redb id o m t valid) ∙ e)
          (λ same e1. inl (text_eq→eq id o same, some-injective (ok-injective e1)))
          (λ other e1. inr e1)

    pub Known-put :
        (o : ObjectId) (g : ℕ)
        → ((x : ℕ) → Known redb foyer slice_size t id x → Reached m x)
        → Known redb foyer slice_size t o g
        → Known redb foyer slice_size (Table.put redb id m t) o g
    unfolding Known
    Known-put o g reached k = elim (Bool-cases (text_eq id o)) [
      | inl same ↦ (m, put_same o (text_eq→eq id o same), reached g (at (text_eq→eq id o same)))
      | inr other ↦ kept other k
    ]
      where
        at : id ≡ o → Known redb foyer slice_size t id g
        at e = subst (λ x. Known redb foyer slice_size t x g) (sym e) k

        kept :
            text_eq id o ≡ false
            → Known redb foyer slice_size t o g
            → Known redb foyer slice_size (Table.put redb id m t) o g
        kept other (x, e, r) = (x, get-put redb id o m t valid ∙ (rw other e), r)

  pub put-OneVersion :
      (version : Version) (st : St redb foyer slice_size) (ps : List Plan) (n : ℕ) (id : ObjectId)
      (m : ObjectMeta)
      → IsMeta m
      → m.generation ≤ n
      → (m.stale ≡ false → header_for m slice_size ≡ version id m.generation)
      → ((x : ℕ) → Known redb foyer slice_size st.index id x → Reached m x)
      → OneVersion redb foyer slice_size version st ps n
      → OneVersion redb foyer slice_size version
          (record st { index = Table.put redb id m st.index })
          ps
          n
  put-OneVersion version st ps n id m valid few fresh reached v = record {
    planned = All-map ps (λ p (a, b). (a, mono p.object p.meta.generation b)) v.planned;
    celled = λ o x e. let (a, b) = v.celled o x e in (a, mono o x.generation b);
    fits = λ o x e. elim (put_cases id m valid st.index o e) [
      | inl (same, eq) ↦ subst (λ y. IsMeta y × (y.generation ≤ n)) eq (valid, few)
      | inr old ↦ v.fits o x old
    ];
    entered = λ o x e s. elim (put_cases id m valid st.index o e) [
      | inl (same, eq) ↦ moved o x same eq s
      | inr old ↦ v.entered o x old s
    ];
    stored = λ k w e. let (a, b) = v.stored k w e in (a, mono k.object k.generation b);
  }
    where
      mono :
          (o : ObjectId) (g : ℕ)
          → Known redb foyer slice_size st.index o g
          → Known redb foyer slice_size (Table.put redb id m st.index) o g
      mono o g k = Known-put id m valid st.index o g reached k

      moved :
          (o : ObjectId) (x : ObjectMeta)
          → id ≡ o
          → m ≡ x
          → x.stale ≡ false
          → header_for x slice_size ≡ version o x.generation
      moved o x same eq s =
          subst (λ y. header_for x slice_size ≡ version y x.generation) same
            (subst (λ y. header_for y slice_size ≡ version id y.generation) eq
              (fresh (ap (λ y. y.stale) eq ∙ s)))

  -- Slices that were there, or are of a plan's version, in the store.
  pub slices-OneVersion :
      (version : Version) (st : St redb foyer slice_size) (ps : List Plan) (n : ℕ) (c : foyer.Cache)
      → ((k : SliceKey) (w : SliceValue)
          → foyer.get c k ≡ ok (some w)
          → ((w.header ≡ version k.object k.generation)
              × Known redb foyer slice_size st.index k.object k.generation)
            ⊎ (foyer.get st.slices k ≡ ok (some w)))
      → OneVersion redb foyer slice_size version st ps n
      → OneVersion redb foyer slice_size version (record st { slices = c }) ps n
  slices-OneVersion version st ps n c h v = record {
    planned = v.planned;
    celled = v.celled;
    fits = v.fits;
    entered = v.entered;
    stored = λ k w e. elim (h k w e) [ inl new ↦ new | inr old ↦ v.stored k w old ];
  }

  pub cell-OneVersion :
      (version : Version) (st : St redb foyer slice_size) (ps : List Plan) (n : ℕ) (o : ObjectId)
      (c : Option ObjectMeta)
      → ((m : ObjectMeta) → c ≡ some m → Tagged redb foyer slice_size version st.index o m)
      → OneVersion redb foyer slice_size version st ps n
      → OneVersion redb foyer slice_size version (set_cell redb foyer slice_size o c st) ps n
  unfolding set_cell
  cell-OneVersion version st ps n o c h v = record {
    planned = v.planned;
    celled = λ o' m e.
        if-elim (text_eq o o') c (st.metadata o') e
          (λ same e1.
            subst (λ x. Tagged redb foyer slice_size version st.index x m) (text_eq→eq o o' same)
              (h m e1))
          (λ other e1. v.celled o' m e1);
    fits = v.fits;
    entered = v.entered;
    stored = v.stored;
  }
