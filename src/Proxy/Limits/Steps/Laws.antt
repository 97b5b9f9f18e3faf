-- ===== src/Proxy/Limits/Steps/Laws.antt =====
-- Every interleaving of the threads keeps the counts exact and both ceilings.
use cachic.Common.{
  ℕ, zero, suc, ◌+◌, ◌≤◌, ◌<◌, ◌≡◌, refl, sym, ap, ◌∙◌, false, Bool-cases, inl, inr, Option, none,
  some, List, [], ◌∷◌, ◌++◌, ◌==◌, leb, if◌then◌else◌, arith,
}
use cachic.Proxy.Limits.{
  ConnectionLimit, set, count_or_zero, reject, claim_peer, acquire_global, less_one, give_back,
  release,
}
use cachic.Proxy.Limits.Steps.{Thread, total, keep, entry, Exact, part}

pub total-middle :
    (f : Thread → ℕ) (xs : List Thread) (t : Thread) (ys : List Thread)
    → total f (xs ++ t ∷ ys) ≡ f t + total f (xs ++ ys)
unfolding total
total-middle f [] t ys = refl
total-middle f (x ∷ xs) t ys = omega (arith, total-middle f xs t ys)

pub total-keep :
    (f : Thread → ℕ) (xs : List Thread) (t : Option Thread) (ys : List Thread)
    → total f (xs ++ keep t ys) ≡ part f t + total f (xs ++ ys)
unfolding keep part
total-keep f xs none ys = omega arith
total-keep f xs (some t) ys = total-middle f xs t ys

count-entry : (n : ℕ) → count_or_zero (entry n) ≡ n
unfolding count_or_zero entry
count-entry zero = refl
count-entry (suc n) = refl

less_one-entry : (n : ℕ) → less_one (entry (suc n)) ≡ entry n
unfolding less_one entry
less_one-entry zero = refl
less_one-entry (suc n) = ground arith

set-at :
    (peer : ℕ) (v : Option ℕ) (peers goal : ℕ → Option ℕ)
    → v ≡ goal peer
    → ((p : ℕ) → (p == peer) ≡ false → peers p ≡ goal p)
    → (p : ℕ) → set peer v peers p ≡ goal p
unfolding set
set-at peer v peers goal h k p = elim (Bool-cases (p == peer)) [
  | inl same ↦ rw same (h ∙ ap goal (ground (arith, same)))
  | inr other ↦ rw other (k p other)
]

one_more : (peer n : ℕ) → (if peer == peer then 1 else 0) + n ≡ suc n
one_more peer n = ground arith

some-injective : {a b : ℕ} → ◌≡◌ {A = Option ℕ} (some a) (some b) → a ≡ b
some-injective h = cc

entry-suc : (n m : ℕ) → m ≡ suc n → some (n + 1) ≡ entry m
unfolding entry
entry-suc n zero h = absurd (omega arith)
entry-suc n (suc m) h = ap (λ k. some k) (omega arith)

unfoldable removed_at_zero : ℕ → Option ℕ
removed_at_zero count = if count == 0 then none else some count

removed_at_zero-entry : (n : ℕ) → removed_at_zero n ≡ entry n
unfolding removed_at_zero entry
removed_at_zero-entry zero = refl
removed_at_zero-entry (suc n) = ground arith

module _ {max : ℕ} {per_peer : Option ℕ} where
  pub Exact-cong :
      {l : ConnectionLimit} {n m : ℕ} {held now : ℕ → ℕ}
      → Exact max per_peer l n held
      → n ≡ m
      → ((p : ℕ) → held p ≡ now p)
      → Exact max per_peer l m now
  Exact-cong e h k = record {
    same_max = e.same_max;
    same_per_peer = e.same_per_peer;
    opened_exact = e.opened_exact ∙ h;
    bounded = omega (arith, e.bounded);
    peers_exact = λ p. e.peers_exact p ∙ ap entry (k p);
    peers_bounded = λ p c x. omega (arith, e.peers_bounded p c x, k p);
  }

  reject-Exact :
      (l : ConnectionLimit) (n : ℕ) (held : ℕ → ℕ)
      → Exact max per_peer l n held
      → Exact max per_peer (reject l) n held
  reject-Exact l n held e =
      unfold reject in
      record {
        same_max = e.same_max;
        same_per_peer = e.same_per_peer;
        opened_exact = e.opened_exact;
        bounded = e.bounded;
        peers_exact = e.peers_exact;
        peers_bounded = e.peers_bounded;
      }

  opened-Exact :
      (l : ConnectionLimit) (n : ℕ) (held : ℕ → ℕ)
      → Exact max per_peer l n held
      → n < max
      → Exact max per_peer (record l { opened = l.opened + 1 }) (1 + n) held
  opened-Exact l n held e h = record {
    same_max = e.same_max;
    same_per_peer = e.same_per_peer;
    opened_exact = omega (arith, e.opened_exact);
    bounded = omega arith;
    peers_exact = e.peers_exact;
    peers_bounded = e.peers_bounded;
  }

  pub acquire_global-Exact :
      (l : ConnectionLimit) (n : ℕ) (held : ℕ → ℕ)
      → Exact max per_peer l n held
      → Exact max per_peer (acquire_global l).1 ((if (acquire_global l).0 then 1 else 0) + n) held
  unfolding acquire_global
  acquire_global-Exact l n held e = elim (Bool-cases (leb l.max l.opened)) [
    | inl full ↦ rw full (Exact-cong (reject-Exact l n held e) (omega arith) (λ p. refl))
    | inr free ↦ rw free (opened-Exact l n held e (ground (arith, e.same_max, e.opened_exact)))
  ]

  pub release-Exact :
      (l : ConnectionLimit) (n : ℕ) (held : ℕ → ℕ)
      → Exact max per_peer l (suc n) held
      → Exact max per_peer (release l) n held
  release-Exact l n held e =
      unfold release in
      record {
        same_max = e.same_max;
        same_per_peer = e.same_per_peer;
        opened_exact = ground (arith, e.opened_exact);
        bounded = omega (arith, e.bounded);
        peers_exact = e.peers_exact;
        peers_bounded = e.peers_bounded;
      }

  pub give_back-Exact :
      (peer : ℕ) (l : ConnectionLimit) (n : ℕ) (held : ℕ → ℕ)
      → Exact max per_peer l n (λ p. (if p == peer then 1 else 0) + held p)
      → Exact max per_peer (give_back peer l) n held
  give_back-Exact peer l n held e =
      unfold give_back in
      record {
        same_max = e.same_max;
        same_per_peer = e.same_per_peer;
        opened_exact = e.opened_exact;
        bounded = e.bounded;
        peers_exact =
            set-at peer _ l.peers (λ p. entry (held p)) at
              (λ p other. e.peers_exact p ∙ ap entry (ground (arith, other)));
        peers_bounded = λ p c x. omega (arith, e.peers_bounded p c x);
      }
    where
      at : less_one (l.peers peer) ≡ entry (held peer)
      at =
          ap less_one (e.peers_exact peer ∙ ap entry (one_more peer (held peer)))
          ∙ less_one-entry (held peer)

  count-Exact :
      (peer : ℕ) (l : ConnectionLimit) (n : ℕ) (held : ℕ → ℕ)
      → Exact max per_peer l n held
      → count_or_zero (l.peers peer) ≡ held peer
  count-Exact peer l n held e = ap count_or_zero (e.peers_exact peer) ∙ count-entry (held peer)

  claimed-Exact :
      (c peer : ℕ) (l : ConnectionLimit) (n : ℕ) (held : ℕ → ℕ)
      → per_peer ≡ some c
      → held peer < c
      → Exact max per_peer l n held
      → Exact max per_peer
          (record l { peers = set peer (some (count_or_zero (l.peers peer) + 1)) l.peers })
          n
          (λ p. (if p == peer then 1 else 0) + held p)
  claimed-Exact c peer l n held h k e = record {
    same_max = e.same_max;
    same_per_peer = e.same_per_peer;
    opened_exact = e.opened_exact;
    bounded = e.bounded;
    peers_exact =
        set-at peer _ l.peers (λ p. entry ((if p == peer then 1 else 0) + held p)) at
          (λ p other. e.peers_exact p ∙ ap entry (ground (arith, other)));
    peers_bounded = λ p b x. elim (Bool-cases (p == peer)) [
      | inl same ↦ rw same (same_bound p b (ground (arith, same)) x)
      | inr other ↦ rw other (omega (arith, e.peers_bounded p b x))
    ];
  }
    where
      at :
          some (count_or_zero (l.peers peer) + 1)
          ≡ entry ((if peer == peer then 1 else 0) + held peer)
      at =
          ap (λ k. some (k + 1)) (count-Exact peer l n held e)
          ∙ entry-suc (held peer) _ (one_more peer (held peer))

      same_bound : (p b : ℕ) → p ≡ peer → per_peer ≡ some b → 1 + held p ≤ b
      same_bound p b same x = omega (arith, ap held same, some-injective (sym h ∙ x))

  full-Exact :
      (r peer : ℕ) (l : ConnectionLimit) (n : ℕ) (held : ℕ → ℕ)
      → Exact max per_peer l n held
      → Exact max per_peer
          (record (reject l) {
            rejected_per_peer = r;
            peers =
                set peer
                  (let count = count_or_zero (l.peers peer) in
                    if count == 0 then none else some count)
                  l.peers;
          })
          n
          held
  full-Exact r peer l n held e =
      unfold reject in
      record {
        same_max = e.same_max;
        same_per_peer = e.same_per_peer;
        opened_exact = e.opened_exact;
        bounded = e.bounded;
        peers_exact =
            set-at peer _ l.peers (λ p. entry (held p)) (unfold removed_at_zero in at)
              (λ p other. e.peers_exact p);
        peers_bounded = e.peers_bounded;
      }
    where
      at : removed_at_zero (count_or_zero (l.peers peer)) ≡ entry (held peer)
      at = ap removed_at_zero (count-Exact peer l n held e) ∙ removed_at_zero-entry (held peer)

  pub claim_peer-Exact :
      (c peer : ℕ) (l : ConnectionLimit) (n : ℕ) (held : ℕ → ℕ)
      → per_peer ≡ some c
      → Exact max per_peer l n held
      → Exact max per_peer
          (claim_peer c peer l).1
          n
          (λ p. (if (claim_peer c peer l).0 then (if p == peer then 1 else 0) else 0) + held p)
  unfolding claim_peer
  claim_peer-Exact c peer l n held h e = elim (Bool-cases (leb c (count_or_zero (l.peers peer)))) [
    | inl full ↦ rw full (Exact-cong (full-Exact _ peer l n held e) refl (λ p. omega arith))
    | inr free ↦ rw free (claimed-Exact c peer l n held h (below free) e)
  ]
    where
      below : leb c (count_or_zero (l.peers peer)) ≡ false → held peer < c
      below free = ground (arith, count-Exact peer l n held e)
