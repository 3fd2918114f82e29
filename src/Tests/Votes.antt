-- ===== src/Tests/Votes.antt =====
-- The validator 7 votes for the block at height 9, and then for another.
use inazuma_core.Base.{
  ◌*◌, ◌≡◌, refl, true, some, [], arith, ok, err, lookup, insert, remove, u64_add, u128_add,
  u128_mul,
}
use inazuma_core.Platform.Sample.{sample}
use inazuma_core.Records.{Vote, vote}
use inazuma_core.Transactions.{Block}
use inazuma_core.Types.{min_stake, is_validator, is_active_validator, downtime_jail_enabled}
use inazuma_core.State.{
  Store, account, set_account, finalized_height, set_finalized_height, tip_height, stake_accounts,
  accounts_of,
}
use inazuma_core.Staking.{
  validator_set, validator_set_at, total_stake, stake_from, active_validators, cap_set,
}
use inazuma_core.Staking.Election.{stake_sum}
use inazuma_core.Slashing.{voter, verify_vote, verify_evidence}
use inazuma_core.Votes.{
  VoteTracker, new_tracker, first_vote, add, block_at, count_vote, hold_vote, place_vote,
  push_evidence, retain_heights, voted_from, replay, replay_pending, equivocating,
}
use inazuma_core.Votes.Counting.{IsCounted, finalizes}
use inazuma_core.Votes.Finality.{FinalityOutcome, add_finality}
use inazuma_core.Votes.Buffers.{IsBounded, buffers-IsBounded}
use inazuma_core.Votes.Equivocation.{is_kept, add_equivocation}
use inazuma_core.Tests.Stores.{two_accounts}

abbrev block_nine : Block
block_nine = record {
  height = 9;
  parent_hash = 0;
  timestamp_ms = 0;
  state_root = 0;
  txs_root = 0;
  producer = 7;
  producer_pubkey = 7;
  transactions = [];
  signature = 0;
  hash = 100;
}

abbrev nine_store : Store sample
nine_store = record two_accounts {
  blocks = sample.tree_insert Block two_accounts.blocks 9 block_nine;
}

abbrev first_ballot : Vote
first_ballot = record { height = 9; hash = 100; voter_pubkey = 7; signature = 116 }

abbrev second_ballot : Vote
second_ballot = record { height = 9; hash = 200; voter_pubkey = 7; signature = 216 }

new-IsCounted : IsCounted sample nine_store new_tracker
unfolding IsCounted new_tracker first_vote lookup
new-IsCounted h a v e = absurd (ground (arith, e))

votes_run : Unit {0}
unfolding add verify_vote voter lookup new_tracker finalized_height two_accounts insert
    validator_set validator_set_at u64_add tip_height stake_accounts remove is_active_validator
    account total_stake u128_add u128_mul active_validators cap_set stake_from accounts_of
    set_account set_finalized_height is_validator downtime_jail_enabled block_at count_vote
    first_vote hold_vote place_vote push_evidence retain_heights voted_from IsBounded replay
    replay_pending
votes_run = tt

set_stake : stake_sum (validator_set sample nine_store) ≡ 2 * min_stake
unfolding votes_run
set_stake = refl

add_finality_example :
    FinalityOutcome sample nine_store first_ballot (add sample nine_store new_tracker first_ballot)
    × IsCounted sample
        (add sample nine_store new_tracker first_ballot).2
        (add sample nine_store new_tracker first_ballot).1
add_finality_example =
    add_finality sample nine_store new_tracker first_ballot new-IsCounted (omega (arith, set_stake))
      (omega arith)

-- The vote of the only validator is enough.
nine_final : finalizes (add sample nine_store new_tracker first_ballot).0 ≡ some 9
unfolding votes_run
nine_final = refl

abbrev voted_tracker : VoteTracker
voted_tracker = (add sample nine_store new_tracker first_ballot).1

abbrev voted_store : Store sample
voted_store = (add sample nine_store new_tracker first_ballot).2

still_held : first_vote voted_tracker 9 7 ≡ some first_ballot
unfolding votes_run
still_held = refl

signed_again : verify_vote sample second_ballot ≡ true
unfolding verify_vote
signed_again = refl

by_seven : voter sample second_ballot ≡ some 7
unfolding voter
by_seven = refl

add_equivocation_example :
    ((add sample voted_store voted_tracker second_ballot).0 ≡ err equivocating)
    × ((add sample voted_store voted_tracker second_ballot).2 ≡ voted_store)
    × (is_kept sample
          (vote first_ballot second_ballot)
          (add sample voted_store voted_tracker second_ballot).1.evidence
        ≡ true)
    × (verify_evidence sample (vote first_ballot second_ballot) ≡ ok 7)
add_equivocation_example =
    add_equivocation sample voted_store voted_tracker first_ballot second_ballot 7
      add_finality_example.1 signed_again by_seven still_held (omega arith) refl (omega arith)

empty-IsBounded : IsBounded new_tracker
unfolding IsBounded new_tracker
empty-IsBounded = omega arith

buffers-IsBounded_example :
    IsBounded (add sample nine_store new_tracker first_ballot).1
    × IsBounded (replay_pending sample nine_store new_tracker 9).1
buffers-IsBounded_example =
    buffers-IsBounded sample nine_store new_tracker first_ballot 9 empty-IsBounded
