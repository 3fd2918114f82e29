-- ===== src/Timing.antt =====
-- The pure consensus rules of src/chain.rs for header times, leader rotation and reorganisations.
-- The clock is the argument `now`.
pub mod Window
use inazuma_core.Base.{
  ℕ, ◌-◌, ◌/◌, ◌%◌, ◌^◌, Bool, min, max, ltb, if◌then◌else◌, Result, ok, err, u64_mod,
  u64_saturating_add, u128_saturating_add,
}
use inazuma_core.Liveness.{max_leader_attempts}

abbrev pub leader_attempt_slack : ℕ
leader_attempt_slack = 2

abbrev pub max_timestamp_drift_ms : ℕ
max_timestamp_drift_ms = 12_000

abbrev pub min_timestamp_spacing_ms : ℕ
min_timestamp_spacing_ms = 1

abbrev pub max_reorg_depth : ℕ
max_reorg_depth = 5_000

pub data TimingError : Type 0 where
  too_deep not_increasing too_far_ahead : TimingError

unfoldable pub check_reorg_depth : ℕ → ℕ → Result TimingError (Unit {0})
check_reorg_depth local_tip peer_height =
    let depth = local_tip - peer_height in if ltb max_reorg_depth depth then err too_deep else ok tt

unfoldable pub check_timestamp : ℕ → ℕ → ℕ → Result TimingError (Unit {0})
check_timestamp parent_ts ts now =
    if ltb ts (u128_saturating_add parent_ts min_timestamp_spacing_ms)
    then err not_increasing
    else (if ltb (u128_saturating_add now max_timestamp_drift_ms) ts
        then err too_far_ahead
        else ok tt)

-- The cast `as u64` keeps the low 64 bits.
unfoldable pub leader_attempt_window : ℕ → ℕ → ℕ → ℕ → ℕ
leader_attempt_window parent_ts ts now slot_ms =
    let slot = max slot_ms 1 in
    let claimed = ts - parent_ts in
    let real = now - parent_ts in
    min (u64_saturating_add (min claimed real % u64_mod / slot) leader_attempt_slack)
      max_leader_attempts
