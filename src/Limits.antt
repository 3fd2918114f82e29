-- ===== src/Limits.antt =====
-- The guards of src/limits.rs that count: live connections in all and per address, and the book of
-- peer scores. A `HashMap` is a `Dict`; an address is opaque. An `Instant` is its seconds. The token
-- buckets compute with floating-point numbers and are left out.
pub mod Connections
pub mod Peers
use inazuma_core.Base.{
  ℕ, ◌+◌, ◌-◌, ◌%◌, ◌^◌, Bool, true, false, Option, none, some, List, [], ◌∷◌, ◌++◌, Dict, lookup,
  insert, remove, ltb, leb, ◌==◌, if◌then◌else◌, min,
}
use inazuma_core.State.{unwrap_or}

pub record ConnGuard : Type 0 where
  pub live : ℕ
  pub max : ℕ

-- One round of the loop of `try_acquire`, for the value that was last loaded: `compare_exchange`
-- fails when another thread has moved the counter since. The result is none when the loop goes on
-- with the value it found, and otherwise whether there is a ticket.
unfoldable pub try_acquire_round : ConnGuard → ℕ → Option Bool × ConnGuard
try_acquire_round g cur =
    if leb g.max cur
    then (some false, g)
    else (if g.live == cur then (some true, record g { live = cur + 1 }) else (none, g))

-- `Drop for ConnTicket`; `fetch_sub` wraps.
unfoldable pub drop_ticket : ConnGuard → ConnGuard
drop_ticket g = record g { live = (g.live + (2 ^ 64 - 1)) % 2 ^ 64 }

pub record IpConnCounter : Type 0 where
  pub live : Dict ℕ
  pub max_per_ip : ℕ

unfoldable pub live_for : IpConnCounter → ℕ → ℕ
live_for c ip = unwrap_or (lookup ip c.live) 0

unfoldable pub ip_acquire : IpConnCounter → ℕ → Bool × IpConnCounter
unfolding live_for
ip_acquire c ip =
    let slot = live_for c ip in
    if leb c.max_per_ip slot
    then (false, record c { live = insert ip slot c.live })
    else (true, record c { live = insert ip (slot + 1) c.live })

-- `Drop for IpTicket`
unfoldable pub ip_drop : IpConnCounter → ℕ → IpConnCounter
ip_drop c ip = elim (lookup ip c.live) [
  | none ↦ c
  | some slot ↦
      if slot - 1 == 0
      then record c { live = remove ip (insert ip (slot - 1) c.live) }
      else record c { live = insert ip (slot - 1) c.live }
]

-- An `i32` is held as its value and 2 ^ 31 more, so that the order is that of the numbers.
abbrev pub i32_zero : ℕ
i32_zero = 2 ^ 31

unfoldable pub i32_add : ℕ → ℕ → ℕ
i32_add a b = (a + b + 2 ^ 31) % 2 ^ 32

unfoldable pub i32_sub : ℕ → ℕ → ℕ
i32_sub a b = (a + (2 ^ 32 - b) + 2 ^ 31) % 2 ^ 32

pub record Score : Type 0 where
  pub points : ℕ
  pub until : Option ℕ

pub record PeerBook : Type 0 where
  pub scores : Dict Score
  pub identities : Dict ℕ
  pub ban_secs : ℕ

abbrev pub fresh_score : Score
fresh_score = record { points = i32_zero; until = none }

abbrev pub score_of : PeerBook → ℕ → Score
score_of b ip = unwrap_or (lookup ip b.scores) fresh_score

unfoldable pub is_banned : PeerBook → ℕ → ℕ → Bool × PeerBook
is_banned b now ip = elim (lookup ip b.scores) [
  | none ↦ (false, b)
  | some e ↦ elim e.until [
    | none ↦ (false, b)
    | some until ↦
        if ltb now until
        then (true, b)
        else (false, record b { scores = insert ip fresh_score b.scores })
  ]
]

unfoldable pub reward : PeerBook → ℕ → PeerBook
unfolding i32_add
reward b ip =
    let e = score_of b ip in
    record b {
      scores =
          insert ip (record e { points = min (i32_add e.points (i32_zero + 1)) (i32_zero + 100) })
            b.scores;
    }

-- The cost is an `i32` too.
unfoldable pub penalize : PeerBook → ℕ → ℕ → ℕ → Bool × PeerBook
unfolding i32_sub
penalize b now ip cost =
    let e = score_of b ip in
    let points = i32_sub e.points cost in
    if leb points (i32_zero - 100)
    then ((
      true,
      record b {
        scores = insert ip (record { points = i32_zero; until = some (now + b.ban_secs) }) b.scores;
      },
    ))
    else (false, record b { scores = insert ip (record e { points = points }) b.scores })

unfoldable pub note_identity : PeerBook → ℕ → ℕ → Bool × PeerBook
note_identity b ip id =
    let seen : Bool × PeerBook = (true, record b { identities = insert ip id b.identities }) in
    elim (lookup ip b.identities) [
      | none ↦ seen
      | some known ↦ if known == id then (false, b) else seen
    ]

unfoldable pub count_banned : ℕ → Dict Score → ℕ
count_banned now [] = 0
count_banned now ((ip, e) ∷ d) =
    let rest = count_banned now d in
    elim e.until [ none ↦ rest | some until ↦ if ltb now until then rest + 1 else rest ]

unfoldable pub banned_count : PeerBook → ℕ → ℕ
unfolding count_banned
banned_count b now = count_banned now b.scores
