-- ===== src/Proxy/Limits/Steps/Methods.antt =====
-- The methods of `ConnectionLimit`, run to their end by one thread, are runs of the steps.
use cachic.Common.{
  ℕ, ◌≡◌, refl, sym, ap, ◌∙◌, Bool, true, false, Option, none, some, Bool-cases, subst, inl, inr,
  List, [], ◌∷◌, if◌then◌else◌,
}
use cachic.Proxy.Limits.{
  ConnectionLimit, ConnectionPermit, claim_peer, acquire_global, give_back, release, try_acquire,
  try_acquire_for, acquire_under, drop_held, acquire_claimed, drop_permit,
}
use cachic.Proxy.Limits.Steps.{
  Thread, claiming, connected, closing, advance, arrive, arrive_uncounted, arrive_under, keep,
  arrives, arrives_uncounted, advances, Steps, done, after,
}

-- What a method that takes a permit has done when it returns: no thread is added when it is refused, and one
-- that holds the permit otherwise.
unfoldable pub permits : Option ConnectionPermit → List Thread → List Thread
permits none ts = ts
permits (some permit) ts = connected permit.peer ∷ ts

after_arrive :
    (peer : ℕ) (l : ConnectionLimit) {m n : ConnectionLimit} (o : Option Thread)
    {ts vs : List Thread}
    → arrive peer l ≡ (o, m)
    → Steps m (keep o ts) n vs
    → Steps l ts n vs
after_arrive peer l {n = n} o {ts} {vs} h s =
    after (arrives peer l ts) (subst (λ r. Steps r.1 (keep r.0 ts) n vs) (sym h) s)

after_advance :
    (t : Thread) (l : ConnectionLimit) {m n : ConnectionLimit} (o : Option Thread)
    {ts vs : List Thread}
    → advance t l ≡ (o, m)
    → Steps m (keep o ts) n vs
    → Steps l (t ∷ ts) n vs
after_advance t l {n = n} o {ts} {vs} h s =
    after (advances [] t ts l) (subst (λ r. Steps r.1 (keep r.0 ts) n vs) (sym h) s)

after_uncounted :
    (l : ConnectionLimit) {m n : ConnectionLimit} (o : Option Thread) {ts vs : List Thread}
    → arrive_uncounted l ≡ (o, m)
    → Steps m (keep o ts) n vs
    → Steps l ts n vs
after_uncounted l {n = n} o {ts} {vs} h s =
    after (arrives_uncounted l ts) (subst (λ r. Steps r.1 (keep r.0 ts) n vs) (sym h) s)

advance_claiming :
    (peer : ℕ) (l : ConnectionLimit) (taken : Bool)
    → (acquire_global l).0 ≡ taken
    → advance (claiming peer) l
      ≡ (some (if taken then connected (some peer) else closing peer), (acquire_global l).1)
unfolding advance
advance_claiming peer l taken h = rw h refl

arrive_uncounted_lem :
    (l : ConnectionLimit) (taken : Bool)
    → (acquire_global l).0 ≡ taken
    → arrive_uncounted l ≡ (if taken then some (connected none) else none, (acquire_global l).1)
unfolding arrive_uncounted
arrive_uncounted_lem l taken h = rw h refl

advance_closing :
    (peer : ℕ) (l : ConnectionLimit) → advance (closing peer) l ≡ (none, give_back peer l)
unfolding advance
advance_closing peer l = refl

advance_connected : (l : ConnectionLimit) → advance (connected none) l ≡ (none, release l)
unfolding advance
advance_connected l = refl

advance_dropped :
    (peer : ℕ) (l : ConnectionLimit)
    → advance (connected (some peer)) l ≡ (some (closing peer), release l)
unfolding advance
advance_dropped peer l = refl

acquire_claimed-Steps :
    (peer : ℕ) (l : ConnectionLimit) (ts : List Thread)
    → Steps l
        (claiming peer ∷ ts)
        (acquire_claimed peer l).1
        (permits (acquire_claimed peer l).0 ts)
unfolding acquire_claimed permits keep
acquire_claimed-Steps peer l ts = elim (Bool-cases (acquire_global l).0) [
  | inl taken ↦ rw taken (
      after_advance (claiming peer) l (some (connected (some peer)))
        (advance_claiming peer l true taken) done)
  | inr refused ↦ rw refused (
      after_advance (claiming peer) l (some (closing peer)) (advance_claiming peer l false refused)
        (after_advance (closing peer) (acquire_global l).1 none (advance_closing peer _) done))
]

try_acquire-Steps :
    (l : ConnectionLimit) (ts : List Thread)
    → Steps l ts (try_acquire l).1 (permits (try_acquire l).0 ts)
unfolding try_acquire permits keep
try_acquire-Steps l ts = elim (Bool-cases (acquire_global l).0) [
  | inl taken ↦
      rw taken (after_uncounted l (some (connected none)) (arrive_uncounted_lem l true taken) done)
  | inr refused ↦ rw refused (after_uncounted l none (arrive_uncounted_lem l false refused) done)
]

arrive_claim :
    (c peer : ℕ) (l : ConnectionLimit) (claimed : Bool)
    → l.per_peer ≡ some c
    → (claim_peer c peer l).0 ≡ claimed
    → arrive peer l ≡ (if claimed then some (claiming peer) else none, (claim_peer c peer l).1)
arrive_claim c peer l claimed h k = unfold arrive in ap (λ o. arrive_under o peer l) h ∙ under
  where
    under :
        arrive_under (some c) peer l
        ≡ (if claimed then some (claiming peer) else none, (claim_peer c peer l).1)
    under = unfold arrive_under in rw k refl

acquire_under-Steps :
    (o : Option ℕ) (peer : ℕ) (l : ConnectionLimit) (ts : List Thread)
    → l.per_peer ≡ o
    → Steps l ts (acquire_under o peer l).1 (permits (acquire_under o peer l).0 ts)
unfolding acquire_under
acquire_under-Steps none peer l ts h = try_acquire-Steps l ts
acquire_under-Steps (some c) peer l ts h = elim (Bool-cases (claim_peer c peer l).0) [
  | inl claimed ↦ rw claimed (
      after_arrive peer l (some (claiming peer)) (arrive_claim c peer l true h claimed)
        (unfold keep in acquire_claimed-Steps peer (claim_peer c peer l).1 ts))
  | inr refused ↦ rw refused (
      after_arrive peer l none (arrive_claim c peer l false h refused)
        (unfold keep permits in done))
]

try_acquire_for-Steps :
    (peer : ℕ) (l : ConnectionLimit) (ts : List Thread)
    → Steps l ts (try_acquire_for peer l).1 (permits (try_acquire_for peer l).0 ts)
unfolding try_acquire_for
try_acquire_for-Steps peer l ts = acquire_under-Steps l.per_peer peer l ts refl

drop_held-Steps :
    (q : Option ℕ) (l : ConnectionLimit) (ts : List Thread)
    → Steps l (connected q ∷ ts) (drop_held q l) ts
unfolding drop_held keep
drop_held-Steps none l ts = after_advance (connected none) l none (advance_connected l) done
drop_held-Steps (some peer) l ts =
    after_advance (connected (some peer)) l (some (closing peer)) (advance_dropped peer l)
      (after_advance (closing peer) (release l) none (advance_closing peer _) done)

drop_permit-Steps :
    (permit : ConnectionPermit) (l : ConnectionLimit) (ts : List Thread)
    → Steps l (permits (some permit) ts) (drop_permit permit l) ts
unfolding drop_permit permits
drop_permit-Steps permit l ts = drop_held-Steps permit.peer l ts

-- `try_acquire_for`, `try_acquire` and the drop of a permit, each run to its end by one thread while the others
-- hold what they hold, are runs of the steps. The first two add no thread when they answer `None`, and
-- otherwise one that holds the permit they answer; the drop takes the thread of its permit away.
pub methods-Steps :
    (peer : ℕ) (permit : ConnectionPermit) (l : ConnectionLimit) (ts : List Thread)
    → Steps l ts (try_acquire_for peer l).1 (permits (try_acquire_for peer l).0 ts)
      × Steps l ts (try_acquire l).1 (permits (try_acquire l).0 ts)
      × Steps l (permits (some permit) ts) (drop_permit permit l) ts
methods-Steps peer permit l ts =
    (try_acquire_for-Steps peer l ts, try_acquire-Steps l ts, drop_permit-Steps permit l ts)
