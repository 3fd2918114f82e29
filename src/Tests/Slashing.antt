-- ===== src/Tests/Slashing.antt =====
-- The validator 7 has voted twice at height 9; 8 reports it.
use inazuma_core.Base.{
  ◌≡◌, ◌⊎◌, some, refl, arith, ok, err, lookup, insert, remove, u128_add, u128_sub, u128_mul,
  u128_saturating_mul, u64_add,
}
use inazuma_core.Platform.Sample.{sample, sample_evidence}
use inazuma_core.Records.{SlashRecord}
use inazuma_core.Types.{default_penalties, unbonding_total, sum_from}
use inazuma_core.State.{
  Store, account, set_account, total_staked, slash, put_slash, stake_accounts, accounts_of,
}
use inazuma_core.Slashing.{
  apply_report, check_evidence, equivocation_burn_pct, apply_unjail, punish, verify_evidence,
  evidence_id, already_slashed, already_tombstoned,
}
use inazuma_core.Slashing.Report.{ReportOutcome, Convicts, apply_report_lem}
use inazuma_core.Slashing.Once.{apply_report_once}
use inazuma_core.Slashing.Unjail.{UnjailOutcome, apply_unjail_lem}
use inazuma_core.Tests.Stores.{validator, two_accounts, two_accounts_supply}

runs : Unit {0}
unfolding apply_report check_evidence apply_unjail punish verify_evidence evidence_id
    equivocation_burn_pct total_staked account set_account slash put_slash unbonding_total
    two_accounts lookup insert remove u128_add u128_sub u128_mul u128_saturating_mul u64_add
    stake_accounts accounts_of sum_from
runs = tt

apply_report_lem_example :
    ReportOutcome sample two_accounts (apply_report sample two_accounts 12 8 sample_evidence)
    × Convicts sample two_accounts 8 sample_evidence
        (apply_report sample two_accounts 12 8 sample_evidence)
apply_report_lem_example =
    apply_report_lem sample two_accounts 12 8 sample_evidence (omega (arith, two_accounts_supply))

abbrev slash_record : SlashRecord
slash_record = (punish sample two_accounts 12 8 sample_evidence 7).0

-- The only validator has all of the stake, so that all of it is burned, a tenth for the reporter.
burns_all :
    (r : SlashRecord) × ((apply_report sample two_accounts 12 8 sample_evidence).0 ≡ ok r)
    × (r.burned ≡ 1_800_000_000_900)
    × (r.bounty ≡ 200_000_000_100)
unfolding runs
burns_all = (slash_record, refl, refl, refl)

abbrev slashed_store : Store sample
slashed_store = (apply_report sample two_accounts 12 8 sample_evidence).1

-- The chain has gone on to height 12 since.
abbrev later_store : Store sample
later_store = record slashed_store { tip = some 12 }

apply_report_once_example :
    (apply_report sample later_store 13 9 sample_evidence ≡ (err already_slashed, later_store))
    × ((apply_report sample later_store 13 9 sample_evidence).1 ≡ later_store)
    × (((apply_report sample later_store 13 9 sample_evidence).0 ≡ err already_slashed)
        ⊎ ((apply_report sample later_store 13 9 sample_evidence).0 ≡ err already_tombstoned))
unfolding runs
apply_report_once_example =
    apply_report_once sample two_accounts 12 8 sample_evidence slash_record slashed_store
      later_store 13 9 sample_evidence (omega (arith, two_accounts_supply)) refl refl refl refl

-- A downtime jail of the validator, from before the liveness fork.
abbrev jailed_store : Store sample
jailed_store =
    set_account sample two_accounts 7
      (record validator { penalties = record default_penalties { jailed_until = 90 } })

leaves_jail : (apply_unjail sample jailed_store 90 7).0 ≡ ok tt
unfolding runs
leaves_jail = refl

apply_unjail_lem_example :
    UnjailOutcome sample jailed_store 90 7 (apply_unjail sample jailed_store 90 7)
apply_unjail_lem_example = apply_unjail_lem sample jailed_store 90 7
