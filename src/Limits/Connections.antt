-- ===== src/Limits/Connections.antt =====
-- The connection counters of src/limits.rs and the threads that use them.
use inazuma_core.Base.{
  ℕ, Bool, ◌+◌, ◌-◌, ◌≤◌, ◌<◌, ◌≡◌, refl, true, false, Option, none, some, List, [], ◌∷◌, arith,
  ltb, ◌==◌, if◌then◌else◌, u64_mod, lookup-insert,
}
use inazuma_core.Limits.{
  ConnGuard, try_acquire_round, drop_ticket, IpConnCounter, live_for, ip_acquire,
}

-- What some thread does: a round of `try_acquire` for a value it loaded at any earlier time, or the
-- drop of a ticket.
pub data ConnEvent : Type 0 where
  round : ℕ → ConnEvent
  hang_up : ConnEvent

abbrev ticketed : Option Bool → ℕ → ℕ
ticketed none tickets = tickets
ticketed (some false) tickets = tickets
ticketed (some true) tickets = tickets + 1

-- The guard, and the tickets that are out. Without a ticket there is nothing to drop.
unfoldable pub run_guard : ConnGuard → ℕ → List ConnEvent → ConnGuard × ℕ
run_guard g tickets [] = (g, tickets)
run_guard g tickets (round cur ∷ es) =
    let (answer, g') = try_acquire_round g cur in run_guard g' (ticketed answer tickets) es
run_guard g tickets (hang_up ∷ es) =
    if tickets == 0 then run_guard g 0 es else run_guard (drop_ticket g) (tickets - 1) es

-- Whatever the threads do and however stale the values they loaded, starting with as many tickets
-- as the counter says, at most `max` of them, and a `max` that fits a word: the counter is always
-- the number of tickets that are out, and never passes the cap.
pub run_guard_counts :
    (g : ConnGuard) (es : List ConnEvent)
    → g.live ≤ g.max
    → g.max < u64_mod
    → let (g', tickets) = run_guard g g.live es in (g'.live ≡ tickets) × (g'.live ≤ g.max)
unfolding run_guard try_acquire_round drop_ticket
run_guard_counts g [] h k = (refl, h)
run_guard_counts g (round cur ∷ es) h k = ground (
  arith,
  run_guard_counts g es h k,
  λ (p : g.live < g.max). run_guard_counts (record g { live = g.live + 1 }) es (omega (arith, p)) k,
)
run_guard_counts g (hang_up ∷ es) h k = ground (
  arith,
  run_guard_counts g es h k,
  run_guard_counts (record g { live = g.live - 1 }) es (omega (arith, h)) k,
)

-- Of the connections of one address there are never more than its cap, a connection that is
-- accepted counts once, and the counters of other addresses do not move.
pub ip_acquire_lem :
    (c : IpConnCounter) (ip b : ℕ)
    → live_for c ip ≤ c.max_per_ip
    → let (got, c') = ip_acquire c ip in
      (live_for c' ip ≤ c.max_per_ip)
      × (live_for c' ip ≡ (if got then live_for c ip + 1 else live_for c ip))
      × (got ≡ ltb (live_for c ip) c.max_per_ip)
      × (live_for c' b ≡ (if b == ip then live_for c' ip else live_for c b))
unfolding ip_acquire live_for
ip_acquire_lem c ip b h = ground (
  arith,
  lookup-insert ip ip (live_for c ip) c.live,
  lookup-insert ip ip (live_for c ip + 1) c.live,
  lookup-insert ip b (live_for c ip) c.live,
  lookup-insert ip b (live_for c ip + 1) c.live,
)
