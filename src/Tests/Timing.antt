-- ===== src/Tests/Timing.antt =====
-- A producer stamps a minute ahead; five seconds have passed.
use inazuma_core.Base.{◌≡◌, refl, u64_saturating_add}
use inazuma_core.Timing.{leader_attempt_window}

window : leader_attempt_window 100_000 160_000 105_000 400 ≡ 14
unfolding leader_attempt_window u64_saturating_add
window = refl
