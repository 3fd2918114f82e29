-- ===== src/Tests/Liveness.antt =====
-- Two validators, 7 and 9: one of them seals a block in the other's slot.
use inazuma_core.Base.{◌≡◌, ◌||◌, ◌==◌, refl, arith, lookup, insert, remove, u64_add}
use inazuma_core.Platform.Sample.{sample}
use inazuma_core.Types.{is_jailed, tombstone_height, downtime_jail_enabled}
use inazuma_core.State.{Store, account, set_account, slash}
use inazuma_core.State.Supply.{supply}
use inazuma_core.Liveness.{record_liveness, charge_miss, charged}
use inazuma_core.Liveness.Laws.{Sound, record_liveness_lem}
use inazuma_core.Liveness.Jails.{Unjailed, record_liveness_jails_nobody}
use inazuma_core.Tests.Stores.{validator, two_accounts}

unfoldable two_validators : Store sample
unfolding two_accounts set_account
two_validators = set_account sample two_accounts 9 validator

two_validators_supply : supply sample two_validators ≡ 4_000_000_007_100
unfolding two_validators two_accounts set_account supply insert
two_validators_supply = refl

record_liveness_lem_example :
    Sound sample two_validators (record_liveness sample 0 two_validators 12 3 7) 9
record_liveness_lem_example =
    record_liveness_lem sample 0 two_validators 12 3 7 9 (omega (arith, two_validators_supply))

-- The other validator misses a slot.
misses_a_slot :
    (account sample (charge_miss sample two_validators 12 9) 9).penalties.missed_slots ≡ 1
unfolding two_validators two_accounts set_account account charge_miss charged downtime_jail_enabled
    insert lookup remove u64_add
misses_a_slot = refl

record_liveness_jails_nobody_example :
    Unjailed
      (account sample two_validators 9)
      (account sample (record_liveness sample 0 two_validators 1_500_000 3 7) 9)
    × (slash sample (record_liveness sample 0 two_validators 1_500_000 3 7) 5
        ≡ slash sample two_validators 5)
    × (is_jailed 1_500_000
          (account sample (record_liveness sample 0 two_validators 1_500_000 3 7) 9)
        ≡ ((account sample two_validators 9).penalties.tombstoned
            || (account sample two_validators 9).penalties.jailed_until == tombstone_height))
record_liveness_jails_nobody_example =
    record_liveness_jails_nobody sample 1_500_000 (omega arith) 0 two_validators 3 7 9 5
