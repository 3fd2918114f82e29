-- ===== src/Liveness.antt =====
-- The liveness ledger, `record_liveness` of src/slashing.rs: missed slots, downtime jails and the
-- inactivity leak. The `println!` lines are left out, and `slashing_activation()`, which the genesis
-- file sets, is the argument `activation`.
pub mod Laws
pub mod Jails
use inazuma_core.Base.{
  ℕ, zero, suc, ◌/◌, ◌+◌, Bool, true, false, not, ◌&&◌, ◌||◌, Option, none, some, List, [], ◌∷◌,
  ◌++◌, length, any, ltb, leb, ◌==◌, if◌then◌else◌, u64_add, u128_add, u128_sub, u128_mul,
}
use inazuma_core.Platform.{Platform}
use inazuma_core.Records.{SlashRecord, downtime}
use inazuma_core.State.{Store, account, set_account, put_slash}
use inazuma_core.Staking.{Validator, validator_set_at, elect_leader_attempt}
use inazuma_core.Types.{
  Account, Penalties, downtime_jail_enabled, inactivity_leak_enabled, downtime_jail_streak,
  downtime_jail_blocks, downtime_repeat_burn_bps, inactivity_leak_streak, inactivity_leak_bps,
  tombstone_height,
}

abbrev pub max_leader_attempts : ℕ
max_leader_attempts = 4096

-- One missed slot.
unfoldable pub charged : Account → Account
charged a = record a {
  penalties = record a.penalties {
    missed_slots = u64_add a.penalties.missed_slots 1;
    missed_streak = u64_add a.penalties.missed_streak 1;
  };
}

-- The inactivity leak of an account that already has its missed slot.
unfoldable pub leaked_account : ℕ → Account → Account
leaked_account height a =
    let decay = u128_mul a.staked inactivity_leak_bps / 10_000 in
    if inactivity_leak_enabled height
      && leb inactivity_leak_streak a.penalties.missed_streak
      && not a.penalties.tombstoned
      && ltb 0 decay
    then record a {
      staked = u128_sub a.staked decay;
      penalties = record a.penalties {
        leaked = u128_add a.penalties.leaked decay;
        slashed = u128_add a.penalties.slashed decay;
      };
    }
    else a

-- The burn of a downtime jail: none at the first one.
unfoldable pub downtime_burn : Account → ℕ
downtime_burn a =
    if ltb 1 (u64_add a.penalties.downtime_jails 1)
    then u128_mul a.staked downtime_repeat_burn_bps / 10_000
    else 0

-- The account after a downtime jail that starts at a height.
unfoldable pub jailed_account : ℕ → Account → Account
unfolding downtime_burn
jailed_account height a =
    let burned = downtime_burn a in
    record a {
      staked = u128_sub a.staked burned;
      penalties = record a.penalties {
        missed_streak = 0;
        downtime_jails = u64_add a.penalties.downtime_jails 1;
        jailed_until = u64_add height downtime_jail_blocks;
        jail_fault = false;
        slashed = u128_add a.penalties.slashed burned;
      };
    }

-- The account of the producer after its block.
unfoldable pub clears_jail : ℕ → Account → Bool
clears_jail height a =
    not (downtime_jail_enabled height)
    && not (a.penalties.jailed_until == 0)
    && not a.penalties.jail_fault
    && not a.penalties.tombstoned
    && not (a.penalties.jailed_until == tombstone_height)

unfoldable pub sealed_account : ℕ → Account → Account
unfolding clears_jail
sealed_account height a = record a {
  penalties = record a.penalties {
    missed_streak = 0;
    jailed_until = if clears_jail height a then 0 else a.penalties.jailed_until;
  };
}

-- `missed.contains(&leader)`
abbrev pub contains : ℕ → List ℕ → Bool
contains address missed = any (λ m. m == address) missed

module _ (env : Platform) where
  abbrev pub downtime_record : Store env → ℕ → ℕ → SlashRecord
  downtime_record s height address = record {
    id = env.downtime_key height address;
    offence = downtime;
    offender = address;
    offence_height = height;
    applied_height = height;
    burned = downtime_burn (account env s address);
    bounty = 0;
    reporter = env.empty_text;
    tombstoned = false;
    jailed_until = u64_add height downtime_jail_blocks;
  }

  -- The body of the loop over the missed validators.
  unfoldable pub charge_miss : Store env → ℕ → ℕ → Store env
  unfolding charged leaked_account jailed_account
  charge_miss s height address =
      let a = charged (account env s address) in
      if not (downtime_jail_enabled height)
      then set_account env s address (leaked_account height a)
      else (if leb downtime_jail_streak a.penalties.missed_streak && not a.penalties.tombstoned
          then put_slash env (set_account env s address (jailed_account height a))
              (downtime_record s height address)
          else set_account env s address a)

  unfoldable pub charge_all : List ℕ → Store env → ℕ → Store env
  unfolding charge_miss
  charge_all [] s height = s
  charge_all (m ∷ ms) s height = charge_all ms (charge_miss s height m) height

  -- The first attempt, of the `n` from `attempt` on, that elects the producer.
  unfoldable pub find_used : List Validator → ℕ → ℕ → ℕ → ℕ → ℕ → Option ℕ
  find_used set height parent_hash producer zero attempt = none
  find_used set height parent_hash producer (suc n) attempt =
      let later = find_used set height parent_hash producer n (attempt + 1) in
      elim (elect_leader_attempt env set height parent_hash attempt) [
        | none ↦ later
        | some leader ↦ if leader == producer then some attempt else later
      ]

  -- The leaders of the `n` attempts from `attempt` on that stayed silent, each once.
  unfoldable pub find_missed : List Validator → ℕ → ℕ → ℕ → ℕ → ℕ → List ℕ → List ℕ
  find_missed set height parent_hash producer zero attempt missed = missed
  find_missed set height parent_hash producer (suc n) attempt missed =
      find_missed set height parent_hash producer n (attempt + 1)
        (elim (elect_leader_attempt env set height parent_hash attempt) [
          | none ↦ missed
          | some leader ↦
              if not (leader == producer) && not (contains leader missed)
              then missed ++ leader ∷ []
              else missed
        ])

  -- Sealing a block clears the producer's streak.
  unfoldable pub clear_streak : Store env → ℕ → ℕ → Store env
  unfolding clears_jail sealed_account
  clear_streak s height producer =
      let p = account env s producer in
      if not (p.penalties.missed_streak == 0) || clears_jail height p
      then set_account env s producer (sealed_account height p)
      else s

  unfoldable pub record_liveness : ℕ → Store env → ℕ → ℕ → ℕ → Store env
  unfolding find_used find_missed charge_all clear_streak
  record_liveness activation s height parent_hash producer =
      let set = validator_set_at env s height in
      if ltb height activation || ltb (length set) 2
      then s
      else elim (find_used set height parent_hash producer max_leader_attempts 0) [
        | none ↦ s
        | some used ↦
            clear_streak
              (charge_all (find_missed set height parent_hash producer used 0 []) s height) height
              producer
      ]
