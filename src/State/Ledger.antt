-- ===== src/State/Ledger.antt =====
-- The token ledger of src/state.rs: the registry, the balances, and the two operations that move
-- units in and out of an account. An operation returns its result beside the new store.
pub mod Balances
pub mod Invariant
pub mod Credit
pub mod Debit
use inazuma_core.Base.{
  ℕ, ◌-◌, Bool, true, false, ◌&&◌, Option, none, some, ltb, ◌==◌, if◌then◌else◌, u128_checked_add,
  u64_add, Result, ok, err,
}
use inazuma_core.Platform.{Platform, Leaf}
use inazuma_core.Records.{Token}
use inazuma_core.State.{
  Store, TokenError, balance_overflow, supply_overflow, insufficient_balance, unwrap_or, token_leaf,
}

-- The token record after a credit: `t.supply` is the sum that was checked.
abbrev pub credited : Token → ℕ → ℕ → ℕ → Token
credited t grown before amount = record t {
  supply = grown;
  holders = if before == 0 && ltb 0 amount then u64_add t.holders 1 else t.holders;
}

-- The token record after a debit. The subtractions saturate, as those on ℕ do.
abbrev pub debited : Token → ℕ → ℕ → Token
debited t after amount = record t {
  supply = t.supply - amount;
  holders = if after == 0 then t.holders - 1 else t.holders;
}

module _ (env : Platform) where
  abbrev pub Outcome : Type 0
  Outcome = Result TokenError (Unit {0}) × Store env

  unfoldable pub token : Store env → ℕ → Option Token
  token s id = env.get Token s.tokens id

  unfoldable pub set_token : Store env → Token → Store env
  set_token s t = record s {
    tokens = env.tree_insert Token s.tokens t.id t;
    smt_nodes = env.smt_set s.smt_nodes (token_leaf t);
  }

  unfoldable pub token_balance : Store env → ℕ → ℕ → ℕ
  token_balance s id address = unwrap_or (env.get ℕ s.token_balances (env.ledger_key id address)) 0

  unfoldable pub set_token_balance : Store env → ℕ → ℕ → ℕ → Store env
  set_token_balance s id address amount =
      let key = env.ledger_key id address in
      if amount == 0
      then record s {
        token_balances = env.tree_remove ℕ s.token_balances key;
        smt_nodes = env.smt_set s.smt_nodes (Leaf.token_bal key none);
      }
      else record s {
        token_balances = env.tree_insert ℕ s.token_balances key amount;
        smt_nodes = env.smt_set s.smt_nodes (Leaf.token_bal key (some amount));
      }

  unfoldable pub credit_token : Store env → ℕ → ℕ → ℕ → Outcome
  credit_token s id address amount =
      let before = token_balance s id address in
      elim (u128_checked_add before amount) [
        | none ↦ (err balance_overflow, s)
        | some after ↦ elim (token s id) [
          | none ↦ (ok tt, set_token_balance s id address after)
          | some t ↦ elim (u128_checked_add t.supply amount) [
            | none ↦ (err supply_overflow, s)
            | some grown ↦ (
              ok tt,
              set_token_balance (set_token s (credited t grown before amount)) id address after,
            )
          ]
        ]
      ]

  unfoldable pub debit_token : Store env → ℕ → ℕ → ℕ → Outcome
  debit_token s id address amount =
      let before = token_balance s id address in
      if ltb before amount
      then (err insufficient_balance, s)
      else (let after = before - amount in
          let s' = set_token_balance s id address after in
          elim (token s' id) [
            | none ↦ (ok tt, s')
            | some t ↦ (ok tt, set_token s' (debited t after amount))
          ])
