-- ===== src/State/Supply.antt =====
-- The supply over the accounts of src/state.rs, and `total_supply`.
use inazuma_core.Base.{
  ℕ, ◌+◌, ◌≤◌, ◌<◌, ◌≡◌, refl, Option, none, some, [], ◌∷◌, Dict, sum_values, measure,
  sum_values-insert, measure-le-sum_values, arith, u128_mod, u128_add, u128_add-eq,
}
use inazuma_core.Platform.{Platform}
use inazuma_core.Types.{Account, default_account, unbonding_total}
use inazuma_core.Types.Laws.{unbonding_sum, unbonding_total-eq}
use inazuma_core.State.{Store, account, set_account, unwrap_or, supply_from, total_supply}

-- All the coins of an account, free, bonded and on their way out.
abbrev pub worth : Account → ℕ
worth a = a.balance + a.staked + unbonding_sum a.unbonding

module _ (env : Platform) where
  -- The exact supply, where `total_supply` adds machine words.
  unfoldable pub supply : Store env → ℕ
  supply s = sum_values worth (env.iter Account s.accounts)

  measure-worth : (o : Option Account) → measure worth o ≡ worth (unwrap_or o default_account)
  measure-worth none = omega arith
  measure-worth (some a) = refl

  -- A write moves the supply by what the account gains or loses.
  pub supply-set_account :
      (s : Store env) (a : ℕ) (x : Account)
      → supply (set_account env s a x) + worth (account env s a) ≡ supply s + worth x
  unfolding supply set_account account
  supply-set_account s a x =
      rw (env.iter-insert, env.get-iter, ← measure-worth)
        (sum_values-insert worth a x (env.iter Account s.accounts)
          (env.iter-ascending Account s.accounts))

  pub worth-le-supply : (s : Store env) (a : ℕ) → worth (account env s a) ≤ supply s
  unfolding supply account
  worth-le-supply s a =
      rw (env.get-iter, ← measure-worth)
        (measure-le-sum_values worth a (env.iter Account s.accounts))

  supply_from-eq :
      (acc : ℕ) (d : Dict Account)
      → acc + sum_values worth d < u128_mod
      → supply_from env acc d ≡ acc + sum_values worth d
  unfolding supply_from
  supply_from-eq acc [] h = omega arith
  supply_from-eq acc ((k, a) ∷ d) h =
      let t : unbonding_total a ≡ unbonding_sum a.unbonding = unbonding_total-eq a (omega arith) in
      let b : u128_add a.balance a.staked ≡ a.balance + a.staked = u128_add-eq _ _ (omega arith) in
      let w : u128_add (u128_add a.balance a.staked) (unbonding_total a) ≡ worth a =
        rw (b, t) (u128_add-eq _ _ (omega arith)) in
      let e : u128_add acc (worth a) ≡ acc + worth a = u128_add-eq _ _ (omega arith) in
      rw (w, e) (omega (arith, supply_from-eq (acc + worth a) d (omega arith)))

  -- As long as the supply fits a word, `total_supply` is exact.
  pub total_supply-eq : (s : Store env) → supply s < u128_mod → total_supply env s ≡ supply s
  unfolding total_supply supply
  total_supply-eq s h = omega (arith, supply_from-eq 0 (env.iter Account s.accounts) (omega arith))
