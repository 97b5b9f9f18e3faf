-- ===== src/Store/Examples.antt =====
-- The theorem on the free-space guard at a nearly full disk.
use cachic.Common.{◌+◌, ◌-◌, ◌≤◌, ◌<◌, min, ◌≡◌, true, ◌↔◌, arith}
use cachic.Store.Space.{effective_cap, is_engaged, effective_cap_safe}

effective_cap_safe_example :
    (effective_cap 100 10 20 (record { total = 500; available = 4 }) ≤ 100)
    × ((effective_cap 100 10 20 (record { total = 500; available = 4 }) - 20) + 10 ≤ 10)
    × (min 20 100 ≤ effective_cap 100 10 20 (record { total = 500; available = 4 }))
    × ((is_engaged 100 (effective_cap 100 10 20 (record { total = 500; available = 4 })) ≡ true)
        ↔ (20 + (4 - 10) < 100))
effective_cap_safe_example =
    effective_cap_safe 100 10 20 (record { total = 500; available = 4 }) (omega arith)
