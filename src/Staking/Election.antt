-- ===== src/Staking/Election.antt =====
-- `elect_leader_attempt` of src/staking.rs over the draws.
use inazuma_core.Base.{
  ℕ, ◌+◌, ◌≤◌, ◌<◌, ◌%◌, ◌≡◌, refl, ◌≢◌, Bool, true, Option, none, some, List, [], ◌∷◌, ◌++◌, arith,
  length, any, sum_by, sum_by-append, ◌==◌, u128_mod, u128_add, u128_add-eq,
}
use inazuma_core.Platform.{Platform}
use inazuma_core.Staking.{
  Validator, total_stake, stake_from, walk, last_address, or_else, elect_leader_attempt,
}

-- The exact stake of a set.
abbrev pub stake_sum : List Validator → ℕ
stake_sum set = sum_by (λ v. v.stake) set

stake_from-eq :
    (acc : ℕ) (set : List Validator)
    → acc + stake_sum set < u128_mod
    → stake_from acc set ≡ acc + stake_sum set
unfolding stake_from
stake_from-eq acc [] h = omega arith
stake_from-eq acc (v ∷ set) h =
    rw (u128_add-eq acc v.stake (omega arith))
      (omega (arith, stake_from-eq (acc + v.stake) set (omega arith)))

pub total_stake-eq :
    (set : List Validator) → stake_sum set < u128_mod → total_stake set ≡ stake_sum set
unfolding total_stake
total_stake-eq set h = omega (arith, stake_from-eq 0 set (omega arith))

-- The walk stops at the validator whose stretch of stake holds the draw.
walk_at :
    (drawn cursor : ℕ) (before : List Validator) (v : Validator) (behind : List Validator)
    → cursor + stake_sum before + v.stake < u128_mod
    → cursor + stake_sum before ≤ drawn
    → drawn < cursor + stake_sum before + v.stake
    → walk drawn cursor (before ++ v ∷ behind) ≡ some v.address
unfolding walk
walk_at drawn cursor [] v behind fits low high =
    ground (arith, u128_add-eq cursor v.stake (omega arith))
walk_at drawn cursor (w ∷ before) v behind fits low high =
    let e : u128_add cursor w.stake ≡ cursor + w.stake = u128_add-eq cursor w.stake (omega arith) in
    let ih =
      walk_at drawn (cursor + w.stake) before v behind (omega arith) (omega arith) (omega arith) in
    rw e (ground (arith, ih))

abbrev pub is_member : ℕ → List Validator → Bool
is_member address set = any (λ v. v.address == address) set

walk_member :
    (drawn cursor : ℕ) (set : List Validator) (leader : ℕ)
    → walk drawn cursor set ≡ some leader
    → is_member leader set ≡ true
unfolding walk
walk_member drawn cursor [] leader h = cc
walk_member drawn cursor (v ∷ set) leader h =
    ground (arith, walk_member drawn (u128_add cursor v.stake) set leader)

last_address-member :
    (v : Validator) (set : List Validator)
    → (leader : ℕ) × (last_address (v ∷ set) ≡ some leader) × (is_member leader (v ∷ set) ≡ true)
last_address-member v [] = (v.address, refl, ground arith)
last_address-member v (w ∷ set) =
    let (leader, e, member) = last_address-member w set in (leader, e, ground (arith, member))

elected_member :
    (o : Option ℕ) (set : List Validator)
    → length set ≢ 0
    → ((leader : ℕ) → o ≡ some leader → is_member leader set ≡ true)
    → (leader : ℕ) × (or_else o (last_address set) ≡ some leader) × (is_member leader set ≡ true)
elected_member (some leader) set h member = (leader, refl, member leader refl)
elected_member none [] h member = absurd (h refl)
elected_member none (v ∷ set) h member = last_address-member v set

module _ (env : Platform) (height parent_hash attempt : ℕ) where
  -- A set with members, and with a total stake that is not zero, elects one of its members at every
  -- height and attempt, whatever the hash.
  pub elect_leader_attempt_member :
      (set : List Validator)
      → length set ≢ 0
      → total_stake set ≢ 0
      → (leader : ℕ) × (elect_leader_attempt env set height parent_hash attempt ≡ some leader)
        × (is_member leader set ≡ true)
  unfolding elect_leader_attempt
  elect_leader_attempt_member set some_members some_stake =
      let drawn = env.draw height parent_hash attempt % total_stake set in
      let (leader, e, member) =
        elected_member (walk drawn 0 set) set some_members
          (λ leader h. walk_member drawn 0 set leader h) in
      (leader, ground (arith, e), member)

  -- The draw among the units of stake of a set.
  abbrev pub drawn_unit : List Validator → ℕ
  drawn_unit set = env.draw height parent_hash attempt % stake_sum set

  -- The election is weighted by stake: where the stake of the set fits a word, a validator is
  -- elected for each of the draws in a stretch as long as its stake, behind those of the validators
  -- before it in the set.
  pub elect_leader_attempt_weighted :
      (before : List Validator) (v : Validator) (behind : List Validator)
      → stake_sum (before ++ v ∷ behind) < u128_mod
      → stake_sum before ≤ drawn_unit (before ++ v ∷ behind)
      → drawn_unit (before ++ v ∷ behind) < stake_sum before + v.stake
      → elect_leader_attempt env (before ++ v ∷ behind) height parent_hash attempt ≡ some v.address
  unfolding elect_leader_attempt
  elect_leader_attempt_weighted before v behind fits low high =
      let set = before ++ v ∷ behind in
      let split = sum_by-append (λ (w : Validator). w.stake) before (v ∷ behind) in
      let e = total_stake-eq set fits in
      ground (
        arith,
        e,
        split,
        length_pos before v behind,
        walk_at (env.draw height parent_hash attempt % stake_sum set) 0 before v behind
            (omega (arith, split)) (omega arith) (omega arith),
      )
    where
      length_pos :
          (xs : List Validator) (w : Validator) (ys : List Validator) → 0 < length (xs ++ w ∷ ys)
      length_pos [] w ys = omega arith
      length_pos (x ∷ xs) w ys = omega arith
