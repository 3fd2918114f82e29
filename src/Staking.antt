-- ===== src/Staking.antt =====
-- The validator set, the leader election and the rewards of src/staking.rs.
pub mod Sets
pub mod Election
pub mod Rewards
pub mod Release
use inazuma_core.Base.{
  ℕ, ◌+◌, ◌*◌, ◌/◌, ◌%◌, Bool, true, false, not, ◌||◌, Option, none, some, List, [], ◌∷◌, Dict,
  length, take, ltb, leb, ◌==◌, if◌then◌else◌, retain, sort_by, u64_add, u128_add, u128_sub,
  u128_mul,
}
use inazuma_core.Platform.{Platform}
use inazuma_core.Types.{Account, Unbond, rai_per_inaz, is_active_validator}
use inazuma_core.State.{Store, account, set_account, stake_accounts, tip_height, unwrap_or}

abbrev pub block_reward : ℕ
block_reward = rai_per_inaz / 100

abbrev pub leader_commission_pct : ℕ
leader_commission_pct = 20

abbrev pub max_validators : ℕ
max_validators = 100

abbrev pub validator_cap_activation_height : ℕ
validator_cap_activation_height = 2_000_000

pub record Validator : Type 0 where
  pub address : ℕ
  pub stake : ℕ
  pub rewards : ℕ
  pub blocks_produced : ℕ
  pub jailed_until : ℕ
  pub tombstoned : Bool
  pub missed_slots : ℕ
  pub slashed : ℕ

abbrev pub to_validator : ℕ × Account → Validator
to_validator (address, a) = record {
  address = address;
  stake = a.staked;
  rewards = a.rewards;
  blocks_produced = a.blocks_produced;
  jailed_until = a.penalties.jailed_until;
  tombstoned = a.penalties.tombstoned;
  missed_slots = a.penalties.missed_slots;
  slashed = a.penalties.slashed;
}

-- The order of the first sort: highest stake first, ties by address.
abbrev pub stake_order : Validator → Validator → Bool
stake_order a b = if a.stake == b.stake then leb a.address b.address else ltb b.stake a.stake

abbrev pub address_order : Validator → Validator → Bool
address_order a b = leb a.address b.address

-- Above the cap only the highest stakes stay, in address order.
unfoldable pub cap_set : ℕ → List Validator → List Validator
cap_set height set =
    if leb validator_cap_activation_height height
    then (if ltb max_validators (length set)
        then sort_by address_order (take max_validators (sort_by stake_order set))
        else set)
    else set

-- `filter` and `map` over the staked accounts.
unfoldable pub active_validators : ℕ → Dict Account → List Validator
active_validators height [] = []
active_validators height ((k, a) ∷ d) =
    if is_active_validator height a
    then to_validator (k, a) ∷ active_validators height d
    else active_validators height d

unfoldable pub stake_from : ℕ → List Validator → ℕ
stake_from acc [] = acc
stake_from acc (v ∷ set) = stake_from (u128_add acc v.stake) set

unfoldable pub total_stake : List Validator → ℕ
unfolding stake_from
total_stake set = stake_from 0 set

-- The walk of the election: the first validator at which the cursor passes the draw; the last one
-- if none does.
unfoldable pub walk : ℕ → ℕ → List Validator → Option ℕ
walk drawn cursor [] = none
walk drawn cursor (v ∷ set) =
    let passed = u128_add cursor v.stake in
    let rest = walk drawn passed set in if ltb drawn passed then some v.address else rest

abbrev pub last_address : List Validator → Option ℕ
last_address [] = none
last_address (v ∷ []) = some v.address
last_address (v ∷ w ∷ set) = last_address (w ∷ set)

abbrev pub or_else : {A : Type 0} → Option A → Option A → Option A
or_else (some a) o = some a
or_else none o = o

-- `retain` over the unbonding entries: what is still locked, and the amount that was released.
unfoldable pub release_from : ℕ → ℕ → List Unbond → List Unbond × ℕ
release_from height released [] = ([], released)
release_from height released (u ∷ us) =
    let (kept, total) =
      release_from height
        (if leb u.release_height height then u128_add released u.amount else released) us in
    if leb u.release_height height then (kept, total) else (u ∷ kept, total)

module _ (env : Platform) where
  unfoldable pub validator_set_at : Store env → ℕ → List Validator
  unfolding active_validators cap_set
  validator_set_at s height = cap_set height (active_validators height (stake_accounts env s))

  unfoldable pub validator_set : Store env → List Validator
  validator_set s = validator_set_at s (u64_add (unwrap_or (tip_height env s) 0) 1)

  unfoldable pub elect_leader_attempt : List Validator → ℕ → ℕ → ℕ → Option ℕ
  unfolding total_stake walk
  elect_leader_attempt set height parent_hash attempt =
      let total = total_stake set in
      if length set == 0 || total == 0
      then none
      else or_else (walk (env.draw height parent_hash attempt % total) 0 set) (last_address set)

  unfoldable pub elect_leader : List Validator → ℕ → ℕ → Option ℕ
  unfolding elect_leader_attempt
  elect_leader set height parent_hash = elect_leader_attempt set height parent_hash 0

  unfoldable pub credit : Store env → ℕ → ℕ → Store env
  credit s address amount =
      let a = account env s address in
      set_account env s address
        (record a { balance = u128_add a.balance amount; rewards = u128_add a.rewards amount })

  -- The loop over the set: the store and the amount distributed so far.
  unfoldable pub share_out : ℕ → ℕ → List Validator → Store env → ℕ → Store env × ℕ
  unfolding credit
  share_out shared total [] s distributed = (s, distributed)
  share_out shared total (v ∷ set) s distributed =
      let cut = u128_mul shared v.stake / total in
      share_out shared total set (if cut == 0 then s else credit s v.address cut)
        (if cut == 0 then distributed else u128_add distributed cut)

  -- The leader's account with its fees, its part of the reward and one more block.
  abbrev pub paid : Account → ℕ → ℕ → Account
  paid a total reward = record a {
    balance = u128_add a.balance total;
    rewards = u128_add a.rewards reward;
    blocks_produced = u64_add a.blocks_produced 1;
  }

  unfoldable pub pay_rewards : Store env → ℕ → ℕ → Store env
  pay_rewards s leader fees =
      let set = validator_set s in
      let total = total_stake set in
      if length set == 0 || total == 0
      then set_account env s leader
          (paid (account env s leader) (u128_add fees block_reward) block_reward)
      else (let commission = u128_mul block_reward leader_commission_pct / 100 in
          let shared = u128_sub block_reward commission in
          let (s', distributed) = share_out shared total set s 0 in
          let dust = u128_sub shared distributed in
          set_account env s' leader (
            paid (account env s' leader) (u128_add (u128_add fees commission) dust)
              (u128_add commission dust)))

  -- The loop of `release_unbonded`, with the addresses that were unlocked.
  unfoldable pub release_accounts : ℕ → Dict Account → Store env → Store env × List ℕ
  release_accounts height [] s = (s, [])
  release_accounts height ((address, a) ∷ d) s =
      let (kept, released) = release_from height 0 a.unbonding in
      let changed = not (length kept == length a.unbonding) in
      let s₁ =
        if changed
        then set_account env s address
            (record a { unbonding = kept; balance = u128_add a.balance released })
        else s in
      let (s', unlocked) = release_accounts height d s₁ in
      (s', if changed then address ∷ unlocked else unlocked)

  unfoldable pub release_unbonded : Store env → ℕ → Store env × List ℕ
  release_unbonded s height = release_accounts height (stake_accounts env s) s
