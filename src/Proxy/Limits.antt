-- ===== src/Proxy/Limits.antt =====
-- crates/cachic/src/proxy/limits.rs: the ceilings on open connections. An `IpAddr` is a number that
-- stands for it, the map of peers a function. The field `open` is `opened` here. Each definition on `ConnectionLimit` up to `release` is what
-- one thread does at once, under the mutex of the map or in one atomic operation; the loop on
-- `compare_exchange_weak` is one atomic operation, as it ends with the exchange or with the refusal.
pub mod Steps
pub mod Examples
use cachic.Common.{ℕ, ◌+◌, ◌-◌, Bool, true, false, Option, none, some, ◌==◌, leb, if◌then◌else◌}
use cachic.Common.Words.{wrap_u64, u64_max}

pub record ConnectionLimit : Type 0 where
  pub opened : ℕ
  pub max : ℕ
  pub rejected : ℕ
  pub per_peer : Option ℕ
  pub peers : ℕ → Option ℕ
  pub rejected_per_peer : ℕ

-- `ConnectionLimit::new` without a ceiling per peer, `with_per_peer` with one.
unfoldable pub with_ceilings : ℕ → Option ℕ → ConnectionLimit
with_ceilings max per_peer = record {
  opened = 0;
  max = max;
  rejected = 0;
  per_peer = per_peer;
  peers = λ p. none;
  rejected_per_peer = 0;
}

-- `HashMap::insert`, and `HashMap::remove` for `none`.
unfoldable pub set : ℕ → Option ℕ → (ℕ → Option ℕ) → ℕ → Option ℕ
set p v peers q = if q == p then v else peers q

-- `*peers.entry(peer).or_insert(0)`.
unfoldable pub count_or_zero : Option ℕ → ℕ
count_or_zero none = 0
count_or_zero (some count) = count

unfoldable pub reject : ConnectionLimit → ConnectionLimit
reject l = record l { rejected = wrap_u64 (l.rejected + 1) }

-- The first half of `try_acquire_for`: whether the slot of the peer is claimed.
unfoldable pub claim_peer : ℕ → ℕ → ConnectionLimit → Bool × ConnectionLimit
unfolding set count_or_zero reject
claim_peer per_peer peer l =
    let count = count_or_zero (l.peers peer) in
    if leb per_peer count
    then (
      false,
      record (reject l) {
        rejected_per_peer = wrap_u64 (l.rejected_per_peer + 1);
        peers = set peer (if count == 0 then none else some count) l.peers;
      },
    )
    else (true, record l { peers = set peer (some (count + 1)) l.peers })

-- What `acquire_global` ends with.
unfoldable pub acquire_global : ConnectionLimit → Bool × ConnectionLimit
unfolding reject
acquire_global l =
    if leb l.max l.opened then (false, reject l) else (true, record l { opened = l.opened + 1 })

-- `*count -= 1` and the removal at 0; at 0 itself the subtraction would wrap.
unfoldable pub less_one : Option ℕ → Option ℕ
less_one none = none
less_one (some count) =
    if count == 0 then some u64_max else if count == 1 then none else some (count - 1)

-- The slot of the peer given back, on a refusal and on a drop.
unfoldable pub give_back : ℕ → ConnectionLimit → ConnectionLimit
unfolding set less_one
give_back peer l = record l { peers = set peer (less_one (l.peers peer)) l.peers }

-- `fetch_sub` wraps.
unfoldable pub release : ConnectionLimit → ConnectionLimit
release l = record l { opened = if l.opened == 0 then u64_max else l.opened - 1 }

pub record ConnectionPermit : Type 0 where
  pub peer : Option ℕ

unfoldable pub try_acquire : ConnectionLimit → Option ConnectionPermit × ConnectionLimit
unfolding acquire_global
try_acquire l =
    let (taken, l1) = acquire_global l in
    (if taken then some (record { peer = none }) else none, l1)

unfoldable pub acquire_claimed : ℕ → ConnectionLimit → Option ConnectionPermit × ConnectionLimit
unfolding acquire_global give_back
acquire_claimed peer l =
    let (taken, l1) = acquire_global l in
    if taken then (some (record { peer = some peer }), l1) else (none, give_back peer l1)

-- `try_acquire_for` under the ceiling per peer, if there is one.
unfoldable pub acquire_under :
    Option ℕ → ℕ → ConnectionLimit → Option ConnectionPermit × ConnectionLimit
unfolding claim_peer acquire_claimed try_acquire
acquire_under none peer l = try_acquire l
acquire_under (some per_peer) peer l =
    let (claimed, l1) = claim_peer per_peer peer l in
    if claimed then acquire_claimed peer l1 else (none, l1)

unfoldable pub try_acquire_for : ℕ → ConnectionLimit → Option ConnectionPermit × ConnectionLimit
unfolding acquire_under
try_acquire_for peer l = acquire_under l.per_peer peer l

-- `Drop for ConnectionPermit`.
unfoldable pub drop_held : Option ℕ → ConnectionLimit → ConnectionLimit
unfolding release give_back
drop_held none l = release l
drop_held (some peer) l = give_back peer (release l)

unfoldable pub drop_permit : ConnectionPermit → ConnectionLimit → ConnectionLimit
unfolding drop_held
drop_permit permit l = drop_held permit.peer l
