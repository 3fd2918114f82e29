-- ===== src/Slashing/Unjail.antt =====
-- `apply_unjail` of src/slashing.rs.
use inazuma_core.Base.{
  ℕ, ◌≡◌, Bool, true, false, not, ◌&&◌, ◌||◌, ltb, leb, arith, ◌==◌, if◌then◌else◌, Result, ok, err,
}
use inazuma_core.Platform.{Platform}
use inazuma_core.Types.{Account, is_jailed, no_downtime_jail_height, downtime_jail_enabled}
use inazuma_core.State.{Store, account}
use inazuma_core.State.Accounts.{account-set_account}
use inazuma_core.State.Supply.{supply, supply-set_account}
use inazuma_core.Slashing.{SlashError, released, apply_unjail}

-- Who may leave a jail at a height: jailed, for no provable fault and not for good, and with the
-- term over, or past the fork that ends downtime jails.
abbrev pub may_leave : ℕ → Account → Bool
may_leave height a =
    not a.penalties.tombstoned
    && not a.penalties.jail_fault
    && ltb 0 a.penalties.jailed_until
    && (leb a.penalties.jailed_until height || leb no_downtime_jail_height height)

module _ (env : Platform) (s : Store env) (height address : ℕ) where
  -- How an attempt to leave a jail ends.
  abbrev pub UnjailOutcome : Result SlashError (Unit {0}) × Store env → Type 0
  UnjailOutcome (ok _, s') =
      (may_leave height (account env s address) ≡ true)
      × (is_jailed height (account env s' address) ≡ false)
      × (supply env s' ≡ supply env s)
      × ((b : ℕ)
          → account env s' b
            ≡ (if b == address then released env (account env s address) else account env s b))
  UnjailOutcome (err e, s') = (may_leave height (account env s address) ≡ false) × (s' ≡ s)

  -- An attempt to leave a jail succeeds exactly for a validator that is jailed, for no provable fault
  -- and not for good, and whose term is over, or at a height past the fork that ends downtime jails.
  -- Then the jail is lifted, and neither the supply nor another account changes. Otherwise it fails and
  -- writes nothing.
  pub apply_unjail_lem : UnjailOutcome (apply_unjail env s height address)
  unfolding apply_unjail is_jailed downtime_jail_enabled
  apply_unjail_lem =
      let a = account env s address in
      ground (
        arith,
        account-set_account env s address address (released env a),
        supply-set_account env s address (released env a),
        λ (b : ℕ). account-set_account env s address b (released env a),
      )
