-- ===== src/Store/Space.antt =====
-- crates/cachic/src/store/space.rs: the free-space guard.
use cachic.Common.{ℕ, ◌+◌, ◌-◌, ◌≤◌, ◌<◌, min, max, ◌≡◌, Bool, true, ◌↔◌, ltb, arith}
use cachic.Common.Words.{saturating_add_u64, IsU64}

pub record DiskSpace : Type 0 where
  pub total : ℕ
  pub available : ℕ

unfoldable pub effective_cap : ℕ → ℕ → ℕ → DiskSpace → ℕ
effective_cap configured min_free used space =
    let claimable = space.available - min_free in
    let ceiling = saturating_add_u64 used claimable in min configured ceiling

unfoldable pub is_engaged : ℕ → ℕ → Bool
is_engaged configured effective = ltb effective configured

-- For u64 values: the effective cap is at most the configured one. What the cache may still write
-- under it, beyond what it holds, leaves `min_free` bytes available, or nothing may be written. The
-- guard is engaged exactly when what the cache holds and may claim is less than the configured cap.
pub effective_cap_safe :
    (configured min_free used : ℕ) (space : DiskSpace)
    → IsU64 configured
    → (effective_cap configured min_free used space ≤ configured)
      × ((effective_cap configured min_free used space - used) + min_free
          ≤ max space.available min_free)
      × (min used configured ≤ effective_cap configured min_free used space)
      × ((is_engaged configured (effective_cap configured min_free used space) ≡ true)
          ↔ (used + (space.available - min_free) < configured))
unfolding effective_cap is_engaged
effective_cap_safe c m u s h =
    (omega arith, omega arith, omega arith, (λ e. ground arith, λ e. ground arith))
