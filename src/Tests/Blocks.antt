-- ===== src/Tests/Blocks.antt =====
-- A block of the validator 7 with one transfer, on top of the block at height 4.
use inazuma_core.Base.{
  ◌*◌, ◌≡◌, ◌<◌, refl, false, some, [], ◌∷◌, arith, lookup, insert, remove, u64_add, u128_mod,
  u128_add, u128_mul, u128_sub, u128_saturating_add,
}
use inazuma_core.Platform.Sample.{sample}
use inazuma_core.Types.{min_stake, is_validator, is_active_validator, downtime_jail_enabled}
use inazuma_core.State.{account, set_account, stake_accounts, accounts_of, tip_height}
use inazuma_core.State.Supply.{supply}
use inazuma_core.Transactions.{Block, sender}
use inazuma_core.Staking.{
  validator_set, validator_set_at, active_validators, cap_set, release_unbonded, release_accounts,
  release_from,
}
use inazuma_core.Staking.Election.{stake_sum}
use inazuma_core.Liveness.{record_liveness}
use inazuma_core.Shielded.{shielded_pool_balance}
use inazuma_core.Execution.{apply_tx, check_tx, debit_of, collected_of, run_kind, deposit}
use inazuma_core.Execution.Coins.{coins}
use inazuma_core.Execution.Sample.{packages}
use inazuma_core.Mempool.{new}
use inazuma_core.Votes.{new_tracker}
use inazuma_core.Blocks.{Rules, Node, apply_all, account_block, import_block}
use inazuma_core.Blocks.Issuance.{ImportOutcome, import_block_lem}
use inazuma_core.Tests.Stores.{two_accounts, two_accounts_supply}
use inazuma_core.Tests.Execution.{transfer_tx}

abbrev pub rules : Rules
rules = record {
  chain_id = 1;
  block_time_ms = 400;
  shielded_activation = 0;
  slashing_activation = 0;
}

abbrev block_five : Block
block_five = record {
  height = 5;
  parent_hash = 0;
  timestamp_ms = 1_000;
  state_root = 0;
  txs_root = 0;
  producer = 7;
  producer_pubkey = 7;
  transactions = transfer_tx ∷ [];
  signature = 1_012;
  hash = 2_017;
}

abbrev pub node : Node sample
node = record { store = record two_accounts { tip = some 4 }; votes = new_tracker; mempool = new }

coins_fit : coins sample node.store * 100 < u128_mod
unfolding coins shielded_pool_balance two_accounts supply
coins_fit = omega (arith, two_accounts_supply)

unfoldable pub block_run : Unit {0}
unfolding apply_all apply_tx account_block record_liveness release_unbonded release_accounts
    release_from validator_set validator_set_at active_validators cap_set stake_accounts accounts_of
    tip_height account set_account lookup insert remove u64_add u128_add u128_mul u128_sub
    u128_saturating_add is_validator is_active_validator downtime_jail_enabled two_accounts sender
    check_tx debit_of collected_of run_kind deposit
block_run = tt

paid_stake :
    stake_sum (
      validator_set sample (
        account_block sample packages rules
          (apply_all sample packages rules node.store 5 0 block_five.transactions).1
          block_five))
    ≡ 2 * min_stake
unfolding block_run
paid_stake = refl

import_block_lem_example :
    ImportOutcome sample packages rules node block_five
      (import_block sample packages rules 2_000 false node block_five)
import_block_lem_example =
    import_block_lem sample packages rules 2_000 false node block_five coins_fit
      (omega (arith, paid_stake))
