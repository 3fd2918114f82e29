-- ===== src/Types/Tests.antt =====
-- The account predicates at concrete accounts.
use inazuma_core.Base.{◌≡◌, refl, true, false}
use inazuma_core.Types.{
  Account, default_account, default_penalties, is_active_validator, is_jailed, min_stake,
  tombstone_height,
}

abbrev jailed : Account
jailed = record default_account {
  staked = min_stake;
  penalties = record default_penalties { jailed_until = 1_000 };
}

jail_expires : is_active_validator 999 jailed ≡ false
unfolding is_active_validator
jail_expires = refl

jail_expired : is_active_validator 1_000 jailed ≡ true
unfolding is_active_validator
jail_expired = refl

abbrev removed : Account
removed = record default_account {
  staked = min_stake;
  penalties = record default_penalties { jailed_until = tombstone_height };
}

removed-is_jailed : is_jailed 5_000_000 removed ≡ true
unfolding is_jailed
removed-is_jailed = refl
