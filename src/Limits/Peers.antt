-- ===== src/Limits/Peers.antt =====
-- The peer scores and bans of src/limits.rs.
use inazuma_core.Base.{
  ℕ, ◌+◌, ◌-◌, ◌≤◌, ◌≡◌, refl, ◌∙◌, List, [], ◌∷◌, Bool, true, false, some, arith, ltb, leb, ◌==◌,
  if◌then◌else◌, lookup-insert, min,
}
use inazuma_core.Limits.{
  PeerBook, Score, score_of, i32_zero, i32_add, i32_sub, is_banned, reward, penalize,
}

-- The rewards of peers, one after the other.
abbrev pub reward_all : PeerBook → List ℕ → PeerBook
reward_all b [] = b
reward_all b (ip ∷ ips) = reward_all (reward b ip) ips

reward_keeps :
    (b : PeerBook) (ip later other : ℕ)
    → (is_banned (reward b ip) later other).0 ≡ (is_banned b later other).0
unfolding reward is_banned
reward_keeps b ip later other =
    let e = score_of b ip in
    ground (
      arith,
      lookup-insert ip other
          (record e { points = min (i32_add e.points (i32_zero + 1)) (i32_zero + 100) }) b.scores,
    )

reward_all_keeps :
    (ips : List ℕ) (b : PeerBook) (later other : ℕ)
    → (is_banned (reward_all b ips) later other).0 ≡ (is_banned b later other).0
reward_all_keeps [] b later other = refl
reward_all_keeps (ip ∷ ips) b later other =
    reward_all_keeps ips (reward b ip) later other ∙ reward_keeps b ip later other

banned_now :
    (b : PeerBook) (now ip cost later other : ℕ)
    → (penalize b now ip cost).0 ≡ true
    → (is_banned (penalize b now ip cost).1 later other).0
      ≡ (if other == ip then ltb later (now + b.ban_secs) else (is_banned b later other).0)
unfolding penalize is_banned
banned_now b now ip cost later other h =
    let banned : Score = record { points = i32_zero; until = some (now + b.ban_secs) } in
    ground (arith, h, lookup-insert ip other banned b.scores)

-- A penalty that bans a peer bans it for exactly `ban_secs` from now on, whatever peers are rewarded
-- after it, and however often, and frees it after that; nobody else's ban is touched.
pub penalize_bans :
    (b : PeerBook) (now ip cost later other : ℕ) (rewarded : List ℕ)
    → (penalize b now ip cost).0 ≡ true
    → (is_banned (reward_all (penalize b now ip cost).1 rewarded) later other).0
      ≡ (if other == ip then ltb later (now + b.ban_secs) else (is_banned b later other).0)
penalize_bans b now ip cost later other rewarded h =
    reward_all_keeps rewarded (penalize b now ip cost).1 later other
    ∙ banned_now b now ip cost later other h

-- Above -100 and at most 100: where every score of the book stands.
abbrev pub in_range : ℕ → Bool
in_range points = if ltb (i32_zero - 100) points then leb points (i32_zero + 100) else false

-- From a score in range and for a cost from 0 to 2,000,000,000, a penalty leaves a score in range,
-- and it bans exactly when the score falls to -100; a reward leaves a score in range too.
pub penalize_score :
    (b : PeerBook) (now ip cost : ℕ)
    → in_range (score_of b ip).points ≡ true
    → cost ≤ 2_000_000_000
    → let (banned, b') = penalize b now ip (i32_zero + cost) in
      (in_range (score_of b' ip).points ≡ true)
      × (banned ≡ leb (score_of b ip).points (i32_zero + cost - 100))
      × (in_range (score_of (reward b ip) ip).points ≡ true)
unfolding penalize reward i32_add i32_sub
penalize_score b now ip cost h k =
    let e = score_of b ip in
    let banned : Score = record { points = i32_zero; until = some (now + b.ban_secs) } in
    ground (
      arith,
      h,
      lookup-insert ip ip banned b.scores,
      lookup-insert ip ip (record e { points = i32_sub e.points (i32_zero + cost) }) b.scores,
      lookup-insert ip ip
          (record e { points = min (i32_add e.points (i32_zero + 1)) (i32_zero + 100) }) b.scores,
    )
