-- ===== src/Tests/Staking.antt =====
-- The set, the election, the rewards and the releases of the two accounts.
use inazuma_core.Base.{
  ◌+◌, ◌≡◌, refl, some, [], ◌∷◌, arith, lookup, insert, remove, u128_add, u128_sub, u128_mul,
  u64_add,
}
use inazuma_core.Platform.Sample.{sample}
use inazuma_core.Types.{is_active_validator}
use inazuma_core.State.{account, set_account, stake_accounts, accounts_of, total_staked, tip_height}
use inazuma_core.State.Supply.{supply}
use inazuma_core.State.Index.{staked_sum, total_staked-eq}
use inazuma_core.Staking.{
  Validator, to_validator, active_validators, cap_set, validator_set_at, validator_set, total_stake,
  walk, elect_leader_attempt, pay_rewards, share_out, credit, release_unbonded, release_accounts,
  release_from, block_reward,
}
use inazuma_core.Staking.Election.{elect_leader_attempt_weighted}
use inazuma_core.Staking.Rewards.{supply-pay_rewards}
use inazuma_core.Tests.Stores.{validator, two_accounts, two_accounts-IsIndexed}

runs : Unit {0}
unfolding two_accounts validator_set_at validator_set active_validators cap_set total_stake walk
    elect_leader_attempt pay_rewards share_out credit release_unbonded release_accounts release_from
    account set_account stake_accounts accounts_of tip_height lookup insert remove u128_add u128_sub
    u128_mul u64_add staked_sum total_staked is_active_validator supply
runs = tt

-- The validator has 8,000,000 of the reward, and the leader 8 the fees and the commission.
pays :
    ((account sample (pay_rewards sample two_accounts 8 300) 7).balance ≡ 8_000_050)
    × ((account sample (pay_rewards sample two_accounts 8 300) 8).balance ≡ 2_005_300)
unfolding runs
pays = (refl, refl)

supply-pay_rewards_example :
    supply sample (pay_rewards sample two_accounts 8 300)
    ≡ supply sample two_accounts + 300 + block_reward
unfolding runs
supply-pay_rewards_example =
    supply-pay_rewards sample two_accounts 8 300 (omega arith) (omega arith)

releases : (release_unbonded sample two_accounts 20).1 ≡ 7 ∷ []
unfolding runs
releases = refl

total_staked-eq_example : total_staked sample two_accounts ≡ staked_sum sample two_accounts
unfolding runs
total_staked-eq_example = total_staked-eq sample two_accounts two_accounts-IsIndexed (omega arith)

abbrev small : Validator
small = to_validator (7, record validator { staked = 10 })

abbrev large : Validator
large = to_validator (9, record validator { staked = 90 })

-- The draw is 41 of 100: it falls on the second validator.
elect_leader_attempt_weighted_example :
    elect_leader_attempt sample (small ∷ large ∷ []) 5 2 0 ≡ some 9
elect_leader_attempt_weighted_example =
    elect_leader_attempt_weighted sample 5 2 0 (small ∷ []) large [] (omega arith) (omega arith)
      (omega arith)
