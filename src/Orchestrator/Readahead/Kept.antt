-- ===== src/Orchestrator/Readahead/Kept.antt =====
-- While nothing is pruned, the map of patterns has an entry of every object, which counts its steps.
use cachic.Common.{
  ℕ, zero, suc, ◌-◌, ◌≤◌, ◌≡◌, ◌≢◌, refl, sym, ◌∙◌, subst, true, false, Bool-cases, inl, inr,
  Option, none, some, some-injective, List, [], ◌∷◌, leb, ==_iff, arith,
}
use cachic.Common.Words.{saturating_add_u32}
use cachic.Common.Text.{text_eq}
use cachic.Common.Text.Laws.{text_eq_refl, text_eq→eq, text_eq_iff}
use cachic.Store.Slice.{ObjectId}
use cachic.Orchestrator.Readahead.{
  Pattern, Patterns, find, store, observe_known, observe_found, advance, pattern_ttl,
  first_sighting,
}
use cachic.Orchestrator.Readahead.History.{
  Request, requests_of, Follows, Consecutive, start, follow,
}

head_eq : {a b : Request} {x y : List Request} → a ∷ x ≡ b ∷ y → a ≡ b
head_eq h = cc h

tail_eq : {a b : Request} {x y : List Request} → a ∷ x ≡ b ∷ y → x ≡ y
tail_eq h = cc h

-- The step before the last one.
pub step_back :
    {n : ℕ} {l : List Request} {k : ℕ} {q : Request} {before : List Request}
    → Consecutive n l
    → n ≡ suc k
    → l ≡ q ∷ before
    → (q' : Request) × (rest : List Request) × (before ≡ q' ∷ rest)
      × Follows q q'
      × Consecutive k (q' ∷ rest)
step_back start e i = absurd (omega arith)
step_back {k = k} {q = q} (follow {n = n} {r = r} {q = q'} {rest = rest} f c) e i = (
  q',
  rest,
  sym (tail_eq i),
  subst (λ x. Follows x q') (head_eq i) f,
  subst (λ x. Consecutive x (q' ∷ rest)) (omega arith) c,
)

find-store :
    (k : ObjectId) (p : Pattern) (m : Patterns) {o : Pattern}
    → find k m ≡ some o
    → find k (store k p m) ≡ some p
unfolding find store
find-store k p [] h = cc
find-store k p ((j, q) ∷ m) h = elim (Bool-cases (text_eq j k)) [
  | inl same ↦ rw same (rw same refl)
  | inr other ↦ rw other (rw other (find-store k p m (rw other at h)))
]

find-store_other :
    (i k : ObjectId) (p : Pattern) (m : Patterns)
    → text_eq k i ≡ false
    → find i (store k p m) ≡ find i m
unfolding find store
find-store_other i k p [] h = refl
find-store_other i k p ((j, q) ∷ m) h =
    ground (arith, find-store_other i k p m h, text_eq_iff j k, text_eq_iff k i, text_eq_iff j i)

-- The entry of the latest request of an object, which counts all steps up to three.
pub record Entry (m : Patterns) (object : ObjectId) (q : Request) (before : List Request)
    : Type 0 where
  pub p : Pattern
  pub found : find object m ≡ some p
  pub expected : p.next_expected ≡ saturating_add_u32 q.last 1
  pub when : p.seen ≡ q.now
  pub counted : (k : ℕ) → k ≤ 3 → Consecutive k (q ∷ before) → k ≤ p.consecutive

abbrev pub IsKept : List Request → Patterns → Type 0
IsKept history m =
    (object : ObjectId) (q : Request) (before : List Request)
    → requests_of object history ≡ q ∷ before
    → Entry m object q before

-- What is counted for a request that follows one with an entry.
advance-counted :
    (p : Pattern) (q q' : Request) (k : ℕ)
    → p.next_expected ≡ saturating_add_u32 q'.last 1
    → Follows q q'
    → k ≤ p.consecutive
    → k ≤ 2
    → suc k ≤ advance p q.first
unfolding advance
advance-counted p q q' k expected f h small =
    rw ((==_iff q.first p.next_expected).1 (f.adjacent ∙ sym expected)) (omega arith)

fresh_entry :
    (p : Pattern) (q q' : Request)
    → p.seen ≡ q'.now
    → Follows q q'
    → leb pattern_ttl (q.now - p.seen) ≡ false
fresh_entry p q q' when f = ground (arith, f.prompt)

module _ (history : List Request) (q : Request) (m : Patterns) (kept : IsKept history m) where
  abbrev before : List Request
  before = requests_of q.object history

  -- The entry that was there before a step that counts, and what it gives.
  pub counted_before :
      {k : ℕ} {p : Pattern}
      → find q.object m ≡ some p
      → suc k ≤ 3
      → Consecutive (suc k) (q ∷ before)
      → (leb pattern_ttl (q.now - p.seen) ≡ false) × (suc k ≤ advance p q.first)
  counted_before {k = k} found small c =
      let (q', rest, is, f, c') = step_back c refl refl in
      let e = kept q.object q' rest is in
      let same = some-injective (sym e.found ∙ found) in
      (
        subst (λ p. leb pattern_ttl (q.now - p.seen) ≡ false) same (fresh_entry e.p q q' e.when f),
        subst (λ p. suc k ≤ advance p q.first) same
            (advance-counted e.p q q' k e.expected f (e.counted k (omega arith) c') (omega arith)),
      )

  found_before : {k : ℕ} → Consecutive (suc k) (q ∷ before) → find q.object m ≢ none
  found_before c gone =
      let (q', rest, is, f, c') = step_back c refl refl in
      let e = kept q.object q' rest is in cc (sym e.found ∙ gone)

  counts_none : find q.object m ≡ none → (k : ℕ) → k ≤ 3 → Consecutive k (q ∷ before) → k ≤ 0
  counts_none gone zero small c = omega arith
  counts_none gone (suc k) small c = absurd (found_before c gone)

  counts_old :
      {p : Pattern}
      → find q.object m ≡ some p
      → leb pattern_ttl (q.now - p.seen) ≡ true
      → (k : ℕ) → k ≤ 3
      → Consecutive k (q ∷ before)
      → k ≤ 0
  counts_old found old zero small c = omega arith
  counts_old found old (suc k) small c = cc (sym old ∙ (counted_before found small c).0)

  counts_fresh :
      {p : Pattern}
      → find q.object m ≡ some p
      → (k : ℕ) → k ≤ 3
      → Consecutive k (q ∷ before)
      → k ≤ advance p q.first
  counts_fresh found zero small c = omega arith
  counts_fresh found (suc k) small c = (counted_before found small c).1

  same_object :
      (o : Option Pattern)
      → find q.object m ≡ o
      → Entry (observe_found q.now q.object q.first q.last m o).0 q.object q before
  unfolding observe_found observe_known
  same_object none gone = record {
    p = first_sighting q.now q.last;
    found = unfold find in rw (text_eq_refl q.object) refl;
    expected = refl;
    when = refl;
    counted = counts_none gone;
  }
  same_object (some p) found = elim (Bool-cases (leb pattern_ttl (q.now - p.seen))) [
    | inl old ↦ rw old (record {
      p = first_sighting q.now q.last;
      found = find-store q.object _ m found;
      expected = refl;
      when = refl;
      counted = counts_old found old;
    })
    | inr fresh ↦ rw fresh (record {
      p = record {
        next_expected = saturating_add_u32 q.last 1;
        consecutive = advance p q.first;
        seen = q.now;
      };
      found = find-store q.object _ m found;
      expected = refl;
      when = refl;
      counted = counts_fresh found;
    })
  ]

  other_object :
      (i : ObjectId) (o : Option Pattern)
      → text_eq q.object i ≡ false
      → find i (observe_found q.now q.object q.first q.last m o).0 ≡ find i m
  unfolding observe_found observe_known
  other_object i none other = unfold find in rw other refl
  other_object i (some p) other = elim (Bool-cases (leb pattern_ttl (q.now - p.seen))) [
    | inl old ↦ rw old (find-store_other i q.object _ m other)
    | inr fresh ↦ rw fresh (find-store_other i q.object _ m other)
  ]

pub observe_found-IsKept :
    (history : List Request) (q : Request) (m : Patterns)
    → IsKept history m
    → IsKept (q ∷ history) (observe_found q.now q.object q.first q.last m (find q.object m)).0
unfolding requests_of
observe_found-IsKept history q m kept i r rest is = elim (Bool-cases (text_eq q.object i)) [
  | inl same ↦
      let e = rw same at is in
      let after : Patterns = (observe_found q.now q.object q.first q.last m (find q.object m)).0 in
      subst (λ x. Entry after i x rest) (head_eq e)
        (subst (λ b. Entry after i q b) (tail_eq e)
          (subst (λ o. Entry after o q (requests_of o history)) (text_eq→eq q.object i same)
            (same_object history q m kept (find q.object m) refl)))
  | inr other ↦
      let e = kept i r rest (rw other at is) in
      record {
        p = e.p;
        found = other_object history q m kept i (find q.object m) other ∙ e.found;
        expected = e.expected;
        when = e.when;
        counted = e.counted;
      }
]
