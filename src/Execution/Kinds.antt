-- ===== src/Execution/Kinds.antt =====
-- The `match` on the kind in src/chain.rs against the coins of the chain.
use inazuma_core.Base.{ℕ, ◌+◌, ◌*◌, ◌≤◌, ◌<◌, ◌≡◌, arith, ok, u128_mod}
use inazuma_core.Platform.{Platform}
use inazuma_core.State.{Store, account, set_account}
use inazuma_core.Transactions.{
  TxKind, Transaction, transfer, stake, unstake, report_equivocation, unjail, create_token,
  mint_token, token_transfer, burn_token, deploy_contract, call_contract, shield, private_transfer,
  unshield,
}
use inazuma_core.Tokens.{apply_create, apply_mint, apply_token_transfer, apply_burn}
use inazuma_core.Externals.{Externals}
use inazuma_core.Execution.{charged, run_kind}
use inazuma_core.Execution.Coins.{
  coins, apply_create-Keeps, apply_mint-Keeps, apply_token_transfer-Keeps, apply_burn-Keeps,
}
use inazuma_core.Execution.Calls.{apply_deploy_lem, apply_call_lem}
use inazuma_core.Execution.Moves.{
  worth-le-coins, gain, charged-coins, Moved, exactly, moved_shielded, unjailed, coins-Keeps,
  moved_transfer, moved_stake, moved_unstake, apply_evidence_lem,
}

module _ (env : Platform) (ext : Externals env) where
  pub run_kind_lem :
      (k : TxKind) (activation : ℕ) (s : Store env) (tx : Transaction) (height from debit : ℕ)
      → tx.kind ≡ k
      → coins env s * 100 < u128_mod
      → debit ≤ (account env s from).balance
      → gain env ext k tx.amount ≤ debit
      → (run_kind env ext activation s tx height from (charged (account env s from) debit)).0
        ≡ ok tt
      → Moved env ext k s
          (run_kind env ext activation s tx height from (charged (account env s from) debit)).1
          debit
          tx.amount
  unfolding run_kind
  run_kind_lem transfer activation s tx height from debit e fits paid room h =
      exactly env ext transfer s _ debit tx.amount
        (moved_transfer env ext s tx height from debit activation e fits paid room)
  run_kind_lem stake activation s tx height from debit e fits paid room h =
      exactly env ext stake s _ debit tx.amount
        (moved_stake env ext s tx height from debit activation e fits paid room)
  run_kind_lem unstake activation s tx height from debit e fits paid room h =
      exactly env ext unstake s _ debit tx.amount
        (omega (arith, moved_unstake env ext s tx height from debit activation e fits paid h))
  run_kind_lem report_equivocation activation s tx height from debit e fits paid room h =
      let s₁ = set_account env s from (charged (account env s from) debit) in
      let c = charged-coins env ext s from debit fits paid in
      ground (
        arith,
        e,
        h,
        c,
        fits,
        apply_evidence_lem env ext s₁ tx height from (omega (arith, c, fits)),
      )
  run_kind_lem unjail activation s tx height from debit e fits paid room h =
      let s₁ = set_account env s from (charged (account env s from) debit) in
      ground
        (arith, e, h, charged-coins env ext s from debit fits paid, unjailed env ext s₁ height from)
  run_kind_lem create_token activation s tx height from debit e fits paid room h =
      let s₁ = set_account env s from (charged (account env s from) debit) in
      ground (
        arith,
        e,
        charged-coins env ext s from debit fits paid,
        coins-Keeps env ext s₁ (apply_create env s₁ from tx.nonce tx.amount height tx.payload).1
            (apply_create-Keeps env s₁ from tx.nonce tx.amount height tx.payload),
      )
  run_kind_lem mint_token activation s tx height from debit e fits paid room h =
      let s₁ = set_account env s from (charged (account env s from) debit) in
      ground (
        arith,
        e,
        charged-coins env ext s from debit fits paid,
        coins-Keeps env ext s₁ (apply_mint env s₁ from tx.to tx.amount tx.payload).1
            (apply_mint-Keeps env s₁ from tx.to tx.amount tx.payload),
      )
  run_kind_lem token_transfer activation s tx height from debit e fits paid room h =
      let s₁ = set_account env s from (charged (account env s from) debit) in
      ground (
        arith,
        e,
        charged-coins env ext s from debit fits paid,
        coins-Keeps env ext s₁ (apply_token_transfer env s₁ from tx.to tx.amount tx.payload).1
            (apply_token_transfer-Keeps env s₁ from tx.to tx.amount tx.payload),
      )
  run_kind_lem burn_token activation s tx height from debit e fits paid room h =
      let s₁ = set_account env s from (charged (account env s from) debit) in
      ground (
        arith,
        e,
        charged-coins env ext s from debit fits paid,
        coins-Keeps env ext s₁ (apply_burn env s₁ from tx.amount tx.payload).1
            (apply_burn-Keeps env s₁ from tx.amount tx.payload),
      )
  run_kind_lem deploy_contract activation s tx height from debit e fits paid room h =
      let s₁ = set_account env s from (charged (account env s from) debit) in
      let c = charged-coins env ext s from debit fits paid in
      let small : coins env s₁ + tx.amount < u128_mod =
        omega (arith, c, fits, room, worth-le-coins env s from) in
      ground (arith, e, h, c, apply_deploy_lem env ext s₁ tx height from small)
  run_kind_lem call_contract activation s tx height from debit e fits paid room h =
      let s₁ = set_account env s from (charged (account env s from) debit) in
      let c = charged-coins env ext s from debit fits paid in
      let small : coins env s₁ + tx.amount < u128_mod =
        omega (arith, c, fits, room, worth-le-coins env s from) in
      ground (arith, e, h, c, apply_call_lem env ext s₁ tx height from small)
  run_kind_lem shield activation s tx height from debit e fits paid room h =
      let s₁ = set_account env s from (charged (account env s from) debit) in
      let c = charged-coins env ext s from debit fits paid in
      ground (
        arith,
        e,
        h,
        c,
        moved_shielded env ext shield activation s₁ tx height debit (coins env s) c.0 fits,
      )
  run_kind_lem private_transfer activation s tx height from debit e fits paid room h =
      let s₁ = set_account env s from (charged (account env s from) debit) in
      let c = charged-coins env ext s from debit fits paid in
      ground (
        arith,
        e,
        h,
        c,
        moved_shielded env ext private_transfer activation s₁ tx height debit (coins env s) c.0
            fits,
      )
  run_kind_lem unshield activation s tx height from debit e fits paid room h =
      let s₁ = set_account env s from (charged (account env s from) debit) in
      let c = charged-coins env ext s from debit fits paid in
      ground (
        arith,
        e,
        h,
        c,
        moved_shielded env ext unshield activation s₁ tx height debit (coins env s) c.0 fits,
      )
