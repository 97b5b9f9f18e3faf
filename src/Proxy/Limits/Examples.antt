-- ===== src/Proxy/Limits/Examples.antt =====
-- The theorems on the limits at a run of two connections of one peer.
use cachic.Common.{Option, some, []}
use cachic.Proxy.Limits.{ConnectionLimit, with_ceilings, try_acquire, try_acquire_for, drop_permit}
use cachic.Proxy.Limits.Steps.{Thread, Steps, done, after, arrives, arrive, keep}
use cachic.Proxy.Limits.Steps.Reach.{IsExact, reached-IsExact}
use cachic.Proxy.Limits.Steps.Methods.{permits, methods-Steps}

abbrev start : ConnectionLimit
start = with_ceilings 10 (some 1)

abbrev first_claim : Option Thread × ConnectionLimit
first_claim = arrive 7 start

abbrev second_claim : Option Thread × ConnectionLimit
second_claim = arrive 7 first_claim.1

reached-IsExact_example :
    IsExact 10 (some 1) second_claim.1 (keep second_claim.0 (keep first_claim.0 []))
reached-IsExact_example =
    reached-IsExact 10 (some 1)
      (after (arrives 7 start []) (after (arrives 7 first_claim.1 (keep first_claim.0 [])) done))

methods-Steps_example :
    Steps start [] (try_acquire_for 7 start).1 (permits (try_acquire_for 7 start).0 [])
    × Steps start [] (try_acquire start).1 (permits (try_acquire start).0 [])
    × Steps start
        (permits (some (record { peer = some 7 })) [])
        (drop_permit (record { peer = some 7 }) start)
        []
methods-Steps_example = methods-Steps 7 (record { peer = some 7 }) start []
