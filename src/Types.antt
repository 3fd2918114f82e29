-- ===== src/Types.antt =====
-- Accounts and the heights and limits of the protocol: the consensus constants and the records of
-- src/types.rs that execution reads and writes.
mod Tests
pub mod Laws
use inazuma_core.Base.{
  ℕ, ◌*◌, ◌-◌, ◌^◌, Bool, true, false, not, ◌&&◌, ◌||◌, List, [], ◌∷◌, if◌then◌else◌, ltb, leb,
  ◌==◌, u128_add, u64_mod,
}

abbrev pub rai_per_inaz : ℕ
rai_per_inaz = 1_000_000_000

abbrev pub min_fee : ℕ
min_fee = 1_000

abbrev pub min_stake : ℕ
min_stake = 1_000 * rai_per_inaz

abbrev pub unbonding_blocks : ℕ
unbonding_blocks = 300

abbrev pub equivocation_min_burn_pct : ℕ
equivocation_min_burn_pct = 5

abbrev pub equivocation_correlation_factor : ℕ
equivocation_correlation_factor = 3

abbrev pub reporter_bounty_pct : ℕ
reporter_bounty_pct = 10

abbrev pub downtime_jail_streak : ℕ
downtime_jail_streak = 50

abbrev pub downtime_jail_blocks : ℕ
downtime_jail_blocks = 10_000

abbrev pub downtime_repeat_burn_bps : ℕ
downtime_repeat_burn_bps = 10

abbrev pub evidence_max_age_blocks : ℕ
evidence_max_age_blocks = 100_000

abbrev pub tombstone_height : ℕ
tombstone_height = u64_mod - 1

abbrev pub no_downtime_jail_height : ℕ
no_downtime_jail_height = 1_400_000

abbrev pub inactivity_leak_activation_height : ℕ
inactivity_leak_activation_height = 2_000_000

abbrev pub inactivity_leak_streak : ℕ
inactivity_leak_streak = 50

abbrev pub inactivity_leak_bps : ℕ
inactivity_leak_bps = 5

unfoldable pub downtime_jail_enabled : ℕ → Bool
downtime_jail_enabled height = ltb height no_downtime_jail_height

unfoldable pub inactivity_leak_enabled : ℕ → Bool
inactivity_leak_enabled height = leb inactivity_leak_activation_height height

pub record Unbond : Type 0 where
  pub amount : ℕ
  pub release_height : ℕ

pub record Penalties : Type 0 where
  pub jailed_until : ℕ
  pub tombstoned : Bool
  pub slashed : ℕ
  pub missed_slots : ℕ
  pub missed_streak : ℕ
  pub downtime_jails : ℕ
  pub jail_fault : Bool
  pub leaked : ℕ

pub record Account : Type 0 where
  pub balance : ℕ
  pub nonce : ℕ
  pub staked : ℕ
  pub unbonding : List Unbond
  pub rewards : ℕ
  pub blocks_produced : ℕ
  pub penalties : Penalties

-- `Penalties::default()` and `Account::default()`
abbrev pub default_penalties : Penalties
default_penalties = record {
  jailed_until = 0;
  tombstoned = false;
  slashed = 0;
  missed_slots = 0;
  missed_streak = 0;
  downtime_jails = 0;
  jail_fault = false;
  leaked = 0;
}

abbrev pub default_account : Account
default_account = record {
  balance = 0;
  nonce = 0;
  staked = 0;
  unbonding = [];
  rewards = 0;
  blocks_produced = 0;
  penalties = default_penalties;
}

-- The `sum()` of the iterator, an addition of machine words from the left.
unfoldable pub sum_from : ℕ → List Unbond → ℕ
sum_from acc [] = acc
sum_from acc (u ∷ us) = sum_from (u128_add acc u.amount) us

unfoldable pub unbonding_total : Account → ℕ
unbonding_total a = sum_from 0 a.unbonding

unfoldable pub is_validator : Account → Bool
is_validator a = leb min_stake a.staked

unfoldable pub is_active_validator : ℕ → Account → Bool
unfolding is_validator downtime_jail_enabled
is_active_validator height a =
    if is_validator a && a.penalties.tombstoned
    then false
    else (if not (is_validator a)
        then false
        else (if not (downtime_jail_enabled height)
            then not (a.penalties.jailed_until == tombstone_height)
            else leb a.penalties.jailed_until height))

unfoldable pub is_jailed : ℕ → Account → Bool
unfolding downtime_jail_enabled
is_jailed height a =
    if a.penalties.tombstoned || a.penalties.jailed_until == tombstone_height
    then true
    else downtime_jail_enabled height && ltb height a.penalties.jailed_until
