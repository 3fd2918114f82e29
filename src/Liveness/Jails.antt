-- ===== src/Liveness/Jails.antt =====
-- `record_liveness` of src/slashing.rs past the liveness fork.
use inazuma_core.Base.{
  ℕ, ◌≤◌, ◌≡◌, ◌≢◌, ◌⊎◌, refl, ◌∙◌, Bool, ◌||◌, ◌==◌, List, [], ◌∷◌, arith, Option-cases, inl, inr,
}
use inazuma_core.Platform.{Platform}
use inazuma_core.Types.{
  Account, tombstone_height, downtime_jail_enabled, is_jailed, no_downtime_jail_height,
}
use inazuma_core.State.{Store, account, set_account, slash}
use inazuma_core.State.Accounts.{account-set_account}
use inazuma_core.Staking.{validator_set_at}
use inazuma_core.Liveness.{
  charged, leaked_account, clears_jail, sealed_account, charge_miss, charge_all, find_used,
  find_missed, clear_streak, record_liveness, max_leader_attempts,
}

-- The jails of an account: no new one, the term as it was or lifted, and lifted only where it is not
-- for good.
abbrev pub Unjailed : Account → Account → Type 0
Unjailed a b =
    (b.penalties.downtime_jails ≡ a.penalties.downtime_jails)
    × (b.penalties.tombstoned ≡ a.penalties.tombstoned)
    × ((b.penalties.jailed_until ≡ a.penalties.jailed_until)
        ⊎ ((b.penalties.jailed_until ≡ 0) × (a.penalties.jailed_until ≢ tombstone_height)))

abbrev for_good : Account → Bool
for_good a = a.penalties.tombstoned || a.penalties.jailed_until == tombstone_height

Unjailed-refl : (a : Account) → Unjailed a a
Unjailed-refl a = (refl, refl, inl refl)

Unjailed-trans : (a b c : Account) → Unjailed a b → Unjailed b c → Unjailed a c
Unjailed-trans a b c h k = ground arith

Unjailed-jailed :
    (height : ℕ) (a b : Account)
    → no_downtime_jail_height ≤ height
    → Unjailed a b
    → is_jailed height b ≡ for_good a
unfolding is_jailed downtime_jail_enabled
Unjailed-jailed height a b late h = ground arith

module _ (env : Platform) (height : ℕ) (late : no_downtime_jail_height ≤ height) where
  -- A step that leaves the slash records as they are, and the jails of an account.
  abbrev pub Spares : Store env → Store env → ℕ → ℕ → Type 0
  Spares s s' b id =
      Unjailed (account env s b) (account env s' b) × (slash env s' id ≡ slash env s id)

  slash-set_account :
      (s : Store env) (a : ℕ) (x : Account) (id : ℕ)
      → slash env (set_account env s a x) id ≡ slash env s id
  unfolding slash set_account
  slash-set_account s a x id = refl

  charge_miss-Spares :
      (s : Store env) (address b id : ℕ) → Spares s (charge_miss env s height address) b id
  unfolding charge_miss charged leaked_account downtime_jail_enabled
  charge_miss-Spares s address b id =
      let a = leaked_account height (charged (account env s address)) in
      ground (arith, late, account-set_account env s address b a, slash-set_account s address a id)

  charge_all-Spares :
      (ms : List ℕ) (s : Store env) (b id : ℕ) → Spares s (charge_all env ms s height) b id
  unfolding charge_all
  charge_all-Spares [] s b id = (Unjailed-refl (account env s b), refl)
  charge_all-Spares (m ∷ ms) s b id =
      let s₁ = charge_miss env s height m in
      let (first, kept) = charge_miss-Spares s m b id in
      let (later, still) = charge_all-Spares ms s₁ b id in
      (
        Unjailed-trans (account env s b) (account env s₁ b)
            (account env (charge_all env ms s₁ height) b) first later,
        still ∙ kept,
      )

  clear_streak-Spares :
      (s : Store env) (producer b id : ℕ) → Spares s (clear_streak env s height producer) b id
  unfolding clear_streak sealed_account clears_jail downtime_jail_enabled
  clear_streak-Spares s producer b id =
      let a = sealed_account height (account env s producer) in
      ground (arith, account-set_account env s producer b a, slash-set_account s producer a id)

  recorded :
      (activation : ℕ) (s : Store env) (parent_hash producer b id : ℕ)
      → Spares s (record_liveness env activation s height parent_hash producer) b id
  unfolding record_liveness
  recorded activation s parent_hash producer b id =
      let set = validator_set_at env s height in
      elim (Option-cases (find_used env set height parent_hash producer max_leader_attempts 0)) [
        | inr (used, e) ↦
            let ms = find_missed env set height parent_hash producer used 0 [] in
            let s₁ = charge_all env ms s height in
            let (first, kept) = charge_all-Spares ms s b id in
            let (later, still) = clear_streak-Spares s₁ producer b id in
            let both =
              Unjailed-trans (account env s b) (account env s₁ b)
                (account env (clear_streak env s₁ height producer) b) first later in
            ground (arith, e, both, still, kept)
        | inl e ↦ ground (arith, e)
      ]

  -- From the liveness fork on, missed slots jail nobody, however many there are: no account gets a
  -- further downtime jail, every jail term stays as it was or is lifted, no slash record is written or
  -- lost, and an account counts as jailed afterwards exactly if it was out for good before, tombstoned
  -- or jailed with no end.
  pub record_liveness_jails_nobody :
      (activation : ℕ) (s : Store env) (parent_hash producer b id : ℕ)
      → let s' = record_liveness env activation s height parent_hash producer in
        Unjailed (account env s b) (account env s' b)
        × (slash env s' id ≡ slash env s id)
        × (is_jailed height (account env s' b) ≡ (
            (account env s b).penalties.tombstoned
            || (account env s b).penalties.jailed_until == tombstone_height))
  record_liveness_jails_nobody activation s parent_hash producer b id =
      let (jails, kept) = recorded activation s parent_hash producer b id in
      let s' = record_liveness env activation s height parent_hash producer in
      (jails, kept, Unjailed-jailed height (account env s b) (account env s' b) late jails)
