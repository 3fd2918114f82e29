-- ===== src/State/Accounts.antt =====
-- Reads after writes of accounts in src/state.rs.
use inazuma_core.Base.{ℕ, ◌≡◌, lookup-insert, ◌==◌, if◌then◌else◌, arith}
use inazuma_core.Platform.{Platform}
use inazuma_core.Types.{Account}
use inazuma_core.State.{Store, account, set_account}

module _ (env : Platform) where
  -- An account reads back as it was last written, and a write touches no other account.
  pub account-set_account :
      (s : Store env) (a b : ℕ) (x : Account)
      → account env (set_account env s a x) b ≡ (if b == a then x else account env s b)
  unfolding account set_account
  account-set_account s a b x = ground (
    arith,
    env.get-iter Account (env.tree_insert Account s.accounts a x) b,
    env.get-iter Account s.accounts b,
    env.iter-insert Account s.accounts a x,
    lookup-insert a b x (env.iter Account s.accounts),
  )
