-- ===== src/Timing/Window.antt =====
-- `leader_attempt_window` of src/chain.rs against the timestamp that a producer chooses.
use inazuma_core.Base.{ℕ, ◌-◌, ◌/◌, ◌%◌, ◌≤◌, ◌<◌, arith, min, max, u64_mod, u64_saturating_add}
use inazuma_core.Timing.{leader_attempt_window}

pub div_mono : (a b n : ℕ) → a ≤ b → a / n ≤ b / n
div_mono a b n h = grind arith

-- While less than 2^64 milliseconds have passed since the parent, the timestamp that a producer
-- claims never gives it more rotation attempts than the time that has really passed, and never more
-- than 4,096; and a window never shrinks as the clock goes on.
pub leader_attempt_window_shrinks :
    (parent_ts ts now later slot_ms : ℕ)
    → now ≤ later
    → later - parent_ts < u64_mod
    → (leader_attempt_window parent_ts ts now slot_ms
        ≤ leader_attempt_window parent_ts now now slot_ms)
      × (leader_attempt_window parent_ts ts now slot_ms ≤ 4096)
      × (leader_attempt_window parent_ts ts now slot_ms
          ≤ leader_attempt_window parent_ts ts later slot_ms)
unfolding leader_attempt_window u64_saturating_add
leader_attempt_window_shrinks parent_ts ts now later slot_ms h k =
    let slot = max slot_ms 1 in
    let claimed = ts - parent_ts in
    let real = now - parent_ts in
    let real' = later - parent_ts in
    (
      omega (
        arith,
        div_mono (min claimed real % u64_mod) (min real real % u64_mod) slot (omega (arith, h, k)),
      ),
      omega arith,
      omega (
        arith,
        div_mono (min claimed real % u64_mod) (min claimed real' % u64_mod) slot
            (omega (arith, h, k)),
      ),
    )
