-- ===== src/Proxy/Limits/Steps.antt =====
-- The connections of a running proxy, as threads that share one `ConnectionLimit`: every interleaving of
-- their steps keeps the counts exact and both ceilings.
pub mod Laws
pub mod Reach
pub mod Methods
use cachic.Common.{
  ℕ, zero, suc, ◌+◌, ◌-◌, ◌≤◌, ◌<◌, ◌≡◌, refl, sym, ap, ◌∙◌, subst, Bool, true, false, Bool-cases,
  inl, inr, Option, none, some, List, [], ◌∷◌, ◌++◌, ◌==◌, leb, if◌then◌else◌, arith,
}
use cachic.Common.Words.{wrap_u64, u64_max}
use cachic.Proxy.Limits.{
  ConnectionLimit, with_ceilings, set, count_or_zero, reject, claim_peer, acquire_global, less_one,
  give_back, release,
}

-- A slot of the peer is claimed and the global ceiling not yet asked; the permit is held; the permit is
-- dropped, or was refused, and the slot of the peer is not yet given back.
pub data Thread : Type 0 where
  claiming : ℕ → Thread
  connected : Option ℕ → Thread
  closing : ℕ → Thread

-- The next thing a thread does: `None` when it has nothing more to do.
unfoldable pub advance : Thread → ConnectionLimit → Option Thread × ConnectionLimit
unfolding acquire_global release give_back
advance (claiming peer) l =
    let (taken, l1) = acquire_global l in
    (some (if taken then connected (some peer) else closing peer), l1)
advance (connected none) l = (none, release l)
advance (connected (some peer)) l = (some (closing peer), release l)
advance (closing peer) l = (none, give_back peer l)

-- A connection arrives: of no peer that is counted, and of a peer.
unfoldable pub arrive_uncounted : ConnectionLimit → Option Thread × ConnectionLimit
unfolding acquire_global
arrive_uncounted l =
    let (taken, l1) = acquire_global l in (if taken then some (connected none) else none, l1)

unfoldable pub arrive_under : Option ℕ → ℕ → ConnectionLimit → Option Thread × ConnectionLimit
unfolding claim_peer arrive_uncounted
arrive_under none peer l = arrive_uncounted l
arrive_under (some per_peer) peer l =
    let (claimed, l1) = claim_peer per_peer peer l in
    (if claimed then some (claiming peer) else none, l1)

unfoldable pub arrive : ℕ → ConnectionLimit → Option Thread × ConnectionLimit
unfolding arrive_under
arrive peer l = arrive_under l.per_peer peer l

unfoldable pub opens : Thread → ℕ
opens (claiming peer) = 0
opens (connected peer) = 1
opens (closing peer) = 0

unfoldable pub holds : ℕ → Thread → ℕ
holds p (claiming peer) = if p == peer then 1 else 0
holds p (connected none) = 0
holds p (connected (some peer)) = if p == peer then 1 else 0
holds p (closing peer) = if p == peer then 1 else 0

unfoldable pub total : (Thread → ℕ) → List Thread → ℕ
total f [] = 0
total f (t ∷ ts) = f t + total f ts

-- The threads with the one that has stepped in its place.
unfoldable pub keep : Option Thread → List Thread → List Thread
keep none ts = ts
keep (some t) ts = t ∷ ts

unfoldable pub entry : ℕ → Option ℕ
entry zero = none
entry (suc n) = some (suc n)

-- The ceilings are `max` and `per_peer`, the counts are exact for `n` connections and for `held p` slots of
-- each peer `p`, the map has an entry for the peers with a slot only, and neither ceiling is exceeded.
pub record Exact (max : ℕ) (per_peer : Option ℕ) (l : ConnectionLimit) (n : ℕ) (held : ℕ → ℕ)
    : Type 0 where
  pub same_max : l.max ≡ max
  pub same_per_peer : l.per_peer ≡ per_peer
  pub opened_exact : l.opened ≡ n
  pub bounded : n ≤ max
  pub peers_exact : (p : ℕ) → l.peers p ≡ entry (held p)
  pub peers_bounded : (p c : ℕ) → per_peer ≡ some c → held p ≤ c

-- `opens` or `holds p` of the thread that has stepped.
unfoldable pub part : (Thread → ℕ) → Option Thread → ℕ
part f none = 0
part f (some t) = f t

-- One step of one thread, in any order with the steps of the others.
pub data Step : ConnectionLimit → List Thread → ConnectionLimit → List Thread → Type 0 where
  arrives :
      (peer : ℕ) (l : ConnectionLimit) (ts : List Thread)
      → Step l ts (arrive peer l).1 (keep (arrive peer l).0 ts)
  arrives_uncounted :
      (l : ConnectionLimit) (ts : List Thread)
      → Step l ts (arrive_uncounted l).1 (keep (arrive_uncounted l).0 ts)
  advances :
      (xs : List Thread) (t : Thread) (ys : List Thread) (l : ConnectionLimit)
      → Step l (xs ++ t ∷ ys) (advance t l).1 (xs ++ keep (advance t l).0 ys)

-- Some number of steps.
pub data Steps : ConnectionLimit → List Thread → ConnectionLimit → List Thread → Type 0 where
  done : {l : ConnectionLimit} {ts : List Thread} → Steps l ts l ts
  after :
      {l m n : ConnectionLimit} {ts us vs : List Thread}
      → Step l ts m us
      → Steps m us n vs
      → Steps l ts n vs
