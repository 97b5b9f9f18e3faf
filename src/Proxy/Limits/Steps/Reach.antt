-- ===== src/Proxy/Limits/Steps/Reach.antt =====
-- The states that a proxy reaches from its start, and the methods as runs of the steps.
use cachic.Common.{
  ℕ, ◌+◌, ◌≡◌, refl, sym, ap, ◌∙◌, Bool, true, false, Option, none, some, List, [], ◌++◌, ◌==◌,
  if◌then◌else◌, arith,
}
use cachic.Proxy.Limits.{ConnectionLimit, with_ceilings, claim_peer, acquire_global}
use cachic.Proxy.Limits.Steps.{
  Thread, claiming, connected, closing, advance, arrive, arrive_uncounted, arrive_under, opens,
  holds, total, keep, entry, Exact, part, Step, arrives, arrives_uncounted, advances, Steps, done,
  after,
}
use cachic.Proxy.Limits.Steps.Laws.{
  Exact-cong, acquire_global-Exact, release-Exact, give_back-Exact, claim_peer-Exact, total-middle,
  total-keep,
}

unit_left : (n : ℕ) → n ≡ 0 + n
unit_left n = omega arith

unfoldable claimed : ℕ → ℕ → ConnectionLimit → Option Thread
claimed c peer l = if (claim_peer c peer l).0 then some (claiming peer) else none

module _ {max : ℕ} {per_peer : Option ℕ} where
  advance-Exact :
      (t : Thread) (l : ConnectionLimit) (n : ℕ) (held : ℕ → ℕ)
      → Exact max per_peer l (opens t + n) (λ p. holds p t + held p)
      → Exact max per_peer
          (advance t l).1
          (part opens (advance t l).0 + n)
          (λ p. part (holds p) (advance t l).0 + held p)
  unfolding advance opens holds part
  advance-Exact (claiming peer) l n held e =
      Exact-cong
        (acquire_global-Exact l n (λ p. (if p == peer then 1 else 0) + held p)
          (Exact-cong e (omega arith) (λ p. refl)))
        (ap (λ k. k + n) (sym (opens_either (acquire_global l).0)))
        (λ p. ap (λ k. k + held p) (sym (holds_either p (acquire_global l).0)))
    where
      opens_either :
          (b : Bool)
          → opens (if b then connected (some peer) else closing peer) ≡ (if b then 1 else 0)
      opens_either true = refl
      opens_either false = refl

      holds_either :
          (p : ℕ) (b : Bool)
          → holds p (if b then connected (some peer) else closing peer)
            ≡ (if p == peer then 1 else 0)
      holds_either p true = refl
      holds_either p false = refl
  advance-Exact (connected none) l n held e =
      Exact-cong (release-Exact l n held (Exact-cong e (omega arith) (λ p. omega arith)))
        (omega arith) (λ p. omega arith)
  advance-Exact (connected (some peer)) l n held e =
      Exact-cong
        (release-Exact l n (λ p. (if p == peer then 1 else 0) + held p)
          (Exact-cong e (omega arith) (λ p. refl)))
        (omega arith) (λ p. refl)
  advance-Exact (closing peer) l n held e =
      Exact-cong (give_back-Exact peer l n held (Exact-cong e (omega arith) (λ p. refl)))
        (omega arith) (λ p. omega arith)

  arrive_uncounted-Exact :
      (l : ConnectionLimit) (n : ℕ) (held : ℕ → ℕ)
      → Exact max per_peer l n held
      → Exact max per_peer
          (arrive_uncounted l).1
          (part opens (arrive_uncounted l).0 + n)
          (λ p. part (holds p) (arrive_uncounted l).0 + held p)
  unfolding arrive_uncounted opens holds part
  arrive_uncounted-Exact l n held e =
      Exact-cong (acquire_global-Exact l n held e)
        (ap (λ k. k + n) (sym (opens_either (acquire_global l).0)))
        (λ p. sym (holds_either p (acquire_global l).0))
    where
      opens_either :
          (b : Bool) → part opens (if b then some (connected none) else none) ≡ (if b then 1 else 0)
      opens_either true = refl
      opens_either false = refl

      holds_either :
          (p : ℕ) (b : Bool)
          → part (holds p) (if b then some (connected none) else none) + held p ≡ held p
      holds_either p true = omega arith
      holds_either p false = omega arith

  arrive_claim-Exact :
      (c peer : ℕ) (l : ConnectionLimit) (n : ℕ) (held : ℕ → ℕ)
      → per_peer ≡ some c
      → Exact max per_peer l n held
      → Exact max per_peer
          (claim_peer c peer l).1
          (part opens (claimed c peer l) + n)
          (λ p. part (holds p) (claimed c peer l) + held p)
  unfolding opens holds part claimed
  arrive_claim-Exact c peer l n held h e =
      Exact-cong (claim_peer-Exact c peer l n held h e)
        (unit_left n ∙ ap (λ k. k + n) (sym (opens_either (claim_peer c peer l).0)))
        (λ p. ap (λ k. k + held p) (sym (holds_either p (claim_peer c peer l).0)))
    where
      opens_either : (b : Bool) → part opens (if b then some (claiming peer) else none) ≡ 0
      opens_either true = refl
      opens_either false = refl

      holds_either :
          (p : ℕ) (b : Bool)
          → part (holds p) (if b then some (claiming peer) else none)
            ≡ (if b then (if p == peer then 1 else 0) else 0)
      holds_either p true = refl
      holds_either p false = refl

  arrive_under-Exact :
      (o : Option ℕ) (peer : ℕ) (l : ConnectionLimit) (n : ℕ) (held : ℕ → ℕ)
      → per_peer ≡ o
      → Exact max per_peer l n held
      → Exact max per_peer
          (arrive_under o peer l).1
          (part opens (arrive_under o peer l).0 + n)
          (λ p. part (holds p) (arrive_under o peer l).0 + held p)
  unfolding arrive_under claimed
  arrive_under-Exact none peer l n held h e = arrive_uncounted-Exact l n held e
  arrive_under-Exact (some c) peer l n held h e = arrive_claim-Exact c peer l n held h e

  arrive-Exact :
      (peer : ℕ) (l : ConnectionLimit) (n : ℕ) (held : ℕ → ℕ)
      → Exact max per_peer l n held
      → Exact max per_peer
          (arrive peer l).1
          (part opens (arrive peer l).0 + n)
          (λ p. part (holds p) (arrive peer l).0 + held p)
  unfolding arrive
  arrive-Exact peer l n held e = arrive_under-Exact l.per_peer peer l n held (sym e.same_per_peer) e

-- The counts are exact for the threads.
unfoldable pub IsExact : ℕ → Option ℕ → ConnectionLimit → List Thread → Type 0
IsExact max per_peer l ts = Exact max per_peer l (total opens ts) (λ p. total (holds p) ts)

step-IsExact :
    (max : ℕ) (per_peer : Option ℕ) {l m : ConnectionLimit} {ts us : List Thread}
    → Step l ts m us
    → IsExact max per_peer l ts
    → IsExact max per_peer m us
unfolding IsExact keep
step-IsExact max per_peer (arrives peer l ts) e =
    Exact-cong (arrive-Exact peer l _ _ e) (sym (total-keep opens [] (arrive peer l).0 ts))
      (λ p. sym (total-keep (holds p) [] (arrive peer l).0 ts))
step-IsExact max per_peer (arrives_uncounted l ts) e =
    Exact-cong (arrive_uncounted-Exact l _ _ e)
      (sym (total-keep opens [] (arrive_uncounted l).0 ts))
      (λ p. sym (total-keep (holds p) [] (arrive_uncounted l).0 ts))
step-IsExact max per_peer (advances xs t ys l) e =
    Exact-cong (advance-Exact t l (total opens (xs ++ ys)) (λ p. total (holds p) (xs ++ ys)) before)
      (sym (total-keep opens xs (advance t l).0 ys))
      (λ p. sym (total-keep (holds p) xs (advance t l).0 ys))
  where
    before :
        Exact max per_peer l
          (opens t + total opens (xs ++ ys))
          (λ p. holds p t + total (holds p) (xs ++ ys))
    before = Exact-cong e (total-middle opens xs t ys) (λ p. total-middle (holds p) xs t ys)

Steps-IsExact :
    (max : ℕ) (per_peer : Option ℕ) {l m : ConnectionLimit} {ts us : List Thread}
    → Steps l ts m us
    → IsExact max per_peer l ts
    → IsExact max per_peer m us
Steps-IsExact max per_peer done e = e
Steps-IsExact max per_peer (after s ss) e =
    Steps-IsExact max per_peer ss (step-IsExact max per_peer s e)

start-IsExact :
    (max : ℕ) (per_peer : Option ℕ) → IsExact max per_peer (with_ceilings max per_peer) []
unfolding IsExact with_ceilings total entry
start-IsExact max per_peer = record {
  same_max = refl;
  same_per_peer = refl;
  opened_exact = refl;
  bounded = omega arith;
  peers_exact = λ p. refl;
  peers_bounded = λ p c h. omega arith;
}

-- From a new `ConnectionLimit`, in whatever order the threads that arrive and leave take their steps, the
-- counts stay exact: `open` is the number of permits held and at most `max`, the map of peers has an entry
-- for exactly the peers with a slot, with their number, and no peer has more slots than its ceiling.
pub reached-IsExact :
    (max : ℕ) (per_peer : Option ℕ) {l : ConnectionLimit} {ts : List Thread}
    → Steps (with_ceilings max per_peer) [] l ts
    → IsExact max per_peer l ts
reached-IsExact max per_peer s = Steps-IsExact max per_peer s (start-IsExact max per_peer)
