-- ===== src/Tests/Limits.antt =====
-- Connections under a cap of two, and a peer that is banned for an hour.
use inazuma_core.Base.{
  ◌+◌, ◌≤◌, ◌≡◌, ◌-◌, refl, true, none, List, [], ◌∷◌, arith, ltb, ◌==◌, if◌then◌else◌, lookup,
}
use inazuma_core.Limits.{
  ConnGuard, IpConnCounter, live_for, PeerBook, is_banned, penalize, i32_zero, i32_sub,
}
use inazuma_core.Limits.Connections.{ConnEvent, round, hang_up, run_guard, run_guard_counts}
use inazuma_core.Limits.Peers.{reward_all, penalize_bans}

abbrev guard : ConnGuard
guard = record { live = 0; max = 2 }

-- Two threads load 0; the second one fails and loads again.
abbrev rounds : List ConnEvent
rounds = round 0 ∷ round 0 ∷ round 1 ∷ round 2 ∷ hang_up ∷ []

run_guard_counts_example :
    ((run_guard guard 0 rounds).0.live ≡ (run_guard guard 0 rounds).1)
    × ((run_guard guard 0 rounds).0.live ≤ 2)
run_guard_counts_example = run_guard_counts guard rounds (omega arith) (omega arith)

abbrev counter : IpConnCounter
counter = record { live = (5, 1) ∷ (6, 2) ∷ []; max_per_ip = 2 }

counter_live : live_for counter 5 ≡ 1
unfolding live_for lookup
counter_live = refl

abbrev book : PeerBook
book = record {
  scores = (5, record { points = i32_zero - 70; until = none }) ∷ [];
  identities = [];
  ban_secs = 3_600;
}

bans : (penalize book 1_000 5 (i32_zero + 30)).0 ≡ true
unfolding penalize lookup i32_sub
bans = refl

abbrev after : PeerBook
after = (penalize book 1_000 5 (i32_zero + 30)).1

penalize_bans_example :
    (is_banned (reward_all after (5 ∷ 6 ∷ 5 ∷ [])) 4_000 5).0
    ≡ (if 5 == 5 then ltb 4_000 (1_000 + 3_600) else (is_banned book 4_000 5).0)
penalize_bans_example = penalize_bans book 1_000 5 (i32_zero + 30) 4_000 5 (5 ∷ 6 ∷ 5 ∷ []) bans
