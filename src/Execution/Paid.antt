-- ===== src/Execution/Paid.antt =====
-- A contract call in `apply_tx` of src/chain.rs, with the run in src/contracts.rs: a contract has the
-- coins that its transfers send.
use inazuma_core.Base.{
  ℕ, ◌+◌, ◌-◌, ◌≤◌, ◌<◌, ◌≡◌, refl, ap, Option, some, List, [], ◌∷◌, arith, ok, u128_mod,
  u128_add-eq, u128_sub-eq,
}
use inazuma_core.Platform.{Platform}
use inazuma_core.Records.{Contract}
use inazuma_core.State.{Store, account, set_account}
use inazuma_core.State.Supply.{worth-le-supply, supply-set_account}
use inazuma_core.State.Accounts.{account-set_account}
use inazuma_core.Transactions.{Transaction}
use inazuma_core.Guest.{Outcome}
use inazuma_core.Signing.Verify.{tx_hash}
use inazuma_core.Externals.{Externals}
use inazuma_core.Contracts.{
  put_receipt, check_call, code_at, decode_args, fuel_for_fee, receipt_of, set_contract_storage,
}
use inazuma_core.Contracts.Host.{execute}
use inazuma_core.Contracts.Within.{sent}
use inazuma_core.Contracts.Outcomes.{IsContained, execute-IsContained}
use inazuma_core.Execution.{
  deposit, attach, commit_writes, commit_transfers, finish_call, apply_call,
}
use inazuma_core.Execution.Coins.{
  coins, deposit_lem, pool-set_account, commit_writes-Keeps, put_receipt-Keeps,
}
use inazuma_core.Execution.Calls.{attach_lem, kept_once, account-put_receipt}

module _ (env : Platform) where
  account-commit_writes :
      (s : Store env) (a b : ℕ) (ws : List (ℕ × Option ℕ))
      → account env (commit_writes env s a ws) b ≡ account env s b
  unfolding commit_writes account set_contract_storage
  account-commit_writes s a b [] = refl
  account-commit_writes s a b ((k, v) ∷ ws) =
      account-commit_writes (set_contract_storage env s a k v) a b ws

  -- After one transfer the contract has the rest at least.
  remaining :
      (s : Store env) (a to x : ℕ)
      → coins env s < u128_mod
      → x ≤ (account env s a).balance
      → let paid =
          set_account env s a
            (record (account env s a) { balance = (account env s a).balance - x }) in
        ((account env s a).balance - x ≤ (account env (deposit env paid to x) a).balance)
        × (coins env (deposit env paid to x) < u128_mod)
  unfolding deposit coins
  remaining s a to x fits h =
      let c = account env s a in
      let there = record c { balance = c.balance - x } in
      let paid = set_account env s a there in
      let b = account env paid to in
      ground (
        arith,
        h,
        fits,
        worth-le-supply env s a,
        worth-le-supply env paid to,
        u128_add-eq b.balance x,
        supply-set_account env s a there,
        pool-set_account env s a there,
        deposit_lem env paid to x,
        account-set_account env s a a there,
        account-set_account env s a to there,
        account-set_account env paid to a (record b { balance = b.balance + x }),
      )

  -- Transfers that send no more than the contract has all go through.
  commit_transfers-ok :
      (s : Store env) (a : ℕ) (ts : List (ℕ × ℕ))
      → coins env s < u128_mod
      → sent ts ≤ (account env s a).balance
      → (commit_transfers env s a ts).0 ≡ ok tt
  unfolding commit_transfers coins
  commit_transfers-ok s a [] fits h = refl
  commit_transfers-ok s a ((to, x) ∷ ts) fits h =
      let c = account env s a in
      let paid = set_account env s a (record c { balance = c.balance - x }) in
      let (left, fits') = remaining s a to x fits (omega (arith, h)) in
      ground (
        arith,
        h,
        fits,
        worth-le-supply env s a,
        u128_sub-eq c.balance x,
        commit_transfers-ok (deposit env paid to x) a ts fits' (omega (arith, left, h)),
      )

  module _ (ext : Externals env) where
    finish_call-ok :
        (s : Store env) (tx : Transaction) (from : ℕ) (c : Contract) (o : Outcome)
        → coins env s < u128_mod
        → sent o.transfers ≤ (account env s tx.to).balance
        → (finish_call env ext s tx from c o).0 ≡ ok tt
    unfolding finish_call coins
    finish_call-ok s tx from c o fits h =
        let s₁ = commit_writes env s tx.to o.writes in
        ground (
          arith,
          h,
          fits,
          account-commit_writes s tx.to tx.to o.writes,
          commit_writes-Keeps env s tx.to o.writes,
          commit_transfers-ok s₁ tx.to o.transfers,
        )

    -- A contract call, whatever program runs, is executed without an error once its checks have passed:
    -- where the contract is there with its code and the arguments decode, and the coins of the chain
    -- with the attached amount fit in 128 bits, the transfers that the run asked for are all covered
    -- by the contract's balance.
    pub apply_call-ok :
        (s : Store env) (tx : Transaction) (height from : ℕ) (c : Contract) (code input : List ℕ)
        → coins env s + tx.amount < u128_mod
        → check_call env s tx.to ≡ ok c
        → code_at env s c.code_hash ≡ some code
        → decode_args env ext tx.payload ≡ ok input
        → (apply_call env ext s tx height from).0 ≡ ok tt
    unfolding apply_call IsContained
    apply_call-ok s tx height from c code input fits e f g =
        let s₁ = attach env s tx.to tx.amount in
        let o = execute env ext s₁ tx.to from code input tx.amount height (fuel_for_fee tx.fee) in
        let r = receipt_of o tx.to from height in
        let s₂ = put_receipt env s₁ (tx_hash env ext tx) r in
        let (there, covered) = attach_lem env s tx.to tx.amount fits in
        let contained =
          execute-IsContained env ext s₁ tx.to from code input tx.amount height
            (fuel_for_fee tx.fee) in
        let same : coins env s₂ ≡ coins env s₁ =
          kept_once env s₁ s₂ (put_receipt-Keeps env s₁ (tx_hash env ext tx) r) in
        rw (apply_call, e, f, g)
          (finish_call-ok s₂ tx from c o (omega (arith, same, there, fits)) (
            omega (
              arith,
              contained.4,
              ap (λ a. a.balance) (account-put_receipt env s₁ (tx_hash env ext tx) r tx.to),
            )))
