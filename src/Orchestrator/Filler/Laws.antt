-- ===== src/Orchestrator/Filler/Laws.antt =====
-- One filler per object, and waiters that wake as soon as their slice is there.
use cachic.Common.{
  ℕ, zero, suc, ◌+◌, ◌≡◌, ◌≢◌, refl, sym, ap, ◌∙◌, Bool-cases, inl, inr, Option, none, some, List,
  [], ◌∷◌, ◌++◌, ltb, if◌then◌else◌, Result, ok, err, length, All, arith,
}
use cachic.Common.Text.{text_eq}
use cachic.Common.Text.Laws.{text_eq_refl, text_eq→eq, text_eq_iff}
use cachic.Store.Slice.{ObjectId}
use cachic.Orchestrator.Filler.{
  Reason, never_produced, Progress, ready, complete, failed, FillRegistry, Role, filler, subscriber,
  find, without, claim, claim_found, release, look, answer_or, wait_for,
}

-- What a fill publishes from slice `k` on: after each of `n` slices, and the end.
unfoldable pub published : ℕ → ℕ → List Progress
published k zero = complete k ∷ []
published k (suc n) = ready (k + 1) ∷ published (k + 1) n

-- A receiver may miss values, but never the last one.
pub data Sees : List Progress → List Progress → Type 0 where
  last : {p : Progress} → Sees (p ∷ []) (p ∷ [])
  see : {p : Progress} {ps qs : List Progress} → Sees ps qs → Sees (p ∷ ps) (p ∷ qs)
  miss : {p : Progress} {ps qs : List Progress} → Sees ps qs → Sees (p ∷ ps) qs

Sees-nil : {seen : List Progress} → Sees [] seen → Prim.⊥
Sees-nil s = go s refl
  where
    go : {ps qs : List Progress} → Sees ps qs → ps ≡ [] → Prim.⊥
    go last e = cc e
    go (see s) e = cc e
    go (miss s) e = cc e

abbrev outcome : ℕ → ℕ → Result (Unit {0}) Reason
outcome i count = if ltb i count then ok tt else err (never_produced count i)

wait_for-complete :
    (k i : ℕ) (rest : List Progress) → wait_for (complete k ∷ rest) i ≡ outcome i (k + 0)
unfolding wait_for
wait_for-complete k i rest = ap (outcome i) (omega arith)

wait_for-ready :
    (k n i : ℕ) (rest : List Progress)
    → wait_for rest i ≡ outcome i (k + 1 + n)
    → wait_for (ready (k + 1) ∷ rest) i ≡ outcome i (k + suc n)
unfolding wait_for
wait_for-ready k n i rest h = ground (arith, h)

head_eq : {p q : Progress} {ps qs : List Progress} → p ∷ ps ≡ q ∷ qs → p ≡ q
head_eq e = cc e

tail_eq : {p q : Progress} {ps qs : List Progress} → p ∷ ps ≡ q ∷ qs → ps ≡ qs
tail_eq e = cc e

published-ne-nil : (k n : ℕ) → published k n ≢ []
unfolding published
published-ne-nil k zero e = cc e
published-ne-nil k (suc n) e = cc e

-- Waiting on what a fill publishes from `k` on, whatever values are missed.
wait_for-Sees :
    {ps seen : List Progress}
    → Sees ps seen
    → (k n i : ℕ) → ps ≡ published k n
    → wait_for seen i ≡ outcome i (k + n)
unfolding published
wait_for-Sees (last {p = p}) k zero i e = rw (head_eq e) (wait_for-complete k i [])
wait_for-Sees (see {p = p} {ps = ps} {qs = qs} s) k zero i e =
    rw (head_eq e) (wait_for-complete k i qs)
wait_for-Sees (miss {p = p} {ps = ps} s) k zero i e = absurd (Sees-nil (rw (tail_eq e) at s))
wait_for-Sees (last {p = p}) k (suc n) i e = absurd (published-ne-nil (k + 1) n (sym (tail_eq e)))
wait_for-Sees (see {p = p} {ps = ps} {qs = qs} s) k (suc n) i e =
    rw (head_eq e) (wait_for-ready k n i qs (wait_for-Sees s (k + 1) n i (tail_eq e)))
wait_for-Sees (miss {p = p} {ps = ps} s) k (suc n) i e =
    wait_for-Sees s (k + 1) n i (tail_eq e) ∙ ap (outcome i) (omega arith)

-- All the values of a fill's channel, from the one that it is made with.
abbrev pub channel_values : ℕ → List Progress
channel_values n = ready 0 ∷ published 0 n

wait_for-initial : (i : ℕ) (rest : List Progress) → wait_for (ready 0 ∷ rest) i ≡ wait_for rest i
unfolding wait_for
wait_for-initial i rest = ground arith

wait_for-channel_values :
    {ps seen : List Progress}
    → Sees ps seen
    → (n i : ℕ) → ps ≡ channel_values n
    → wait_for seen i ≡ outcome i (0 + n)
wait_for-channel_values (last {p = p}) n i e = absurd (published-ne-nil 0 n (sym (tail_eq e)))
wait_for-channel_values (see {p = p} {ps = ps} {qs = qs} s) n i e =
    rw (head_eq e) (wait_for-initial i qs ∙ wait_for-Sees s 0 n i (tail_eq e))
wait_for-channel_values (miss {p = p} {ps = ps} s) n i e = wait_for-Sees s 0 n i (tail_eq e)

-- Of a fill whose channel begins with `Ready{0}` and that produces `n` slices, a waiter for slice `i` that may
-- miss any value of the channel but the last gets `ok` when `i` is below `n`, and otherwise the error that the
-- slice was never produced; it is never left waiting and never told that the fill was abandoned.
pub wait_for-published :
    (n i : ℕ) {seen : List Progress}
    → Sees (ready 0 ∷ published 0 n) seen
    → wait_for seen i ≡ (if ltb i n then ok tt else err (never_produced n i))
wait_for-published n i s = wait_for-channel_values s n i refl ∙ ap (outcome i) (omega arith)

-- A waiter that sees a failure gets the reason, whatever was published before short of its slice.
pub wait_for_failed :
    (i : ℕ) (before : List Progress) (reason : Reason) (after : List Progress)
    → All (λ p. look p i ≡ none) before
    → wait_for (before ++ (failed reason ∷ after)) i ≡ err reason
unfolding wait_for
wait_for_failed i [] reason after h = refl
wait_for_failed i (p ∷ before) reason after (h, hs) =
    ap (λ o. answer_or o (wait_for (before ++ (failed reason ∷ after)) i)) h
    ∙ wait_for_failed i before reason after hs

pub channel_of : Role → ℕ
channel_of (filler c) = c
channel_of (subscriber c) = c

find-claim_found :
    (object j : ObjectId) (r : FillRegistry) (o : Option ℕ)
    → find object r.fills ≡ o
    → find j (claim_found object r o).0.fills
      ≡ (if text_eq object j then some (channel_of (claim_found object r o).1) else find j r.fills)
find-claim_found object j r none e = unfold claim_found find channel_of in refl
find-claim_found object j r (some c) e =
    unfold claim_found channel_of in
    elim (Bool-cases (text_eq object j)) [
      | inl same ↦ rw same (ap (λ k. find k r.fills) (sym (text_eq→eq object j same)) ∙ e)
      | inr other ↦ rw other
    ]

find-claim :
    (object j : ObjectId) (r : FillRegistry)
    → find j (claim object r).0.fills
      ≡ (if text_eq object j then some (channel_of (claim object r).1) else find j r.fills)
unfolding claim
find-claim object j r = find-claim_found object j r (find object r.fills) refl

claim_at :
    (object : ObjectId) (r : FillRegistry) {c : ℕ}
    → find object r.fills ≡ some c
    → claim object r ≡ (r, subscriber c)
unfolding claim
claim_at object r h = ap (claim_found object r) h

find-without :
    (object j : ObjectId) (l : List (ObjectId × ℕ))
    → find j (without object l) ≡ (if text_eq object j then none else find j l)
unfolding find without
find-without object j [] = ground arith
find-without object j ((k, c) ∷ l) =
    ground
      (arith, text_eq_iff k object, text_eq_iff object j, text_eq_iff k j, find-without object j l)

-- After a claim, a second claim of the same object by anyone gets a subscription to the same channel and
-- changes nothing; what is registered for another object `j` is as before; and after a release the next
-- claimer is the filler, of a new channel.
pub claim_exclusive :
    (object j : ObjectId) (r : FillRegistry)
    → (claim object (claim object r).0
        ≡ ((claim object r).0, subscriber (channel_of (claim object r).1)))
      × (find j (claim object r).0.fills
          ≡ (if text_eq object j then some (channel_of (claim object r).1) else find j r.fills))
      × ((claim object (release object r)).1 ≡ filler (length r.channels))
claim_exclusive object j r = (again, find-claim object j r, released)
  where
    found : find object (claim object r).0.fills ≡ some (channel_of (claim object r).1)
    found = find-claim object object r ∙ rw (text_eq_refl object)

    again :
        claim object (claim object r).0
        ≡ ((claim object r).0, subscriber (channel_of (claim object r).1))
    again = claim_at object (claim object r).0 found

    gone : find object (without object r.fills) ≡ none
    gone = find-without object object r.fills ∙ rw (text_eq_refl object)

    released : (claim object (release object r)).1 ≡ filler (length r.channels)
    released = unfold claim release claim_found in rw (gone, claim_found)
