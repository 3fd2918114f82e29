-- ===== src/Execution/Calls.antt =====
-- Contracts in `apply_tx` of src/chain.rs: what a deployment and a call move.
use inazuma_core.Base.{
  ℕ, ◌+◌, ◌≤◌, ◌<◌, ◌≡◌, refl, length, arith, ok, u128_mod, u128_add-eq, Option-cases, Result-cases,
  inl, inr,
}
use inazuma_core.Platform.{Platform}
use inazuma_core.Records.{Contract, Receipt}
use inazuma_core.State.{Store, account}
use inazuma_core.State.Supply.{worth-le-supply}
use inazuma_core.State.Accounts.{account-set_account}
use inazuma_core.Transactions.{Transaction}
use inazuma_core.Guest.{Outcome}
use inazuma_core.Signing.Verify.{tx_hash}
use inazuma_core.Externals.{Externals}
use inazuma_core.Contracts.Host.{execute}
use inazuma_core.Contracts.{
  set_contract, put_code, put_receipt, check_call, code_at, decode_code, decode_args, fuel_for_fee,
  receipt_of,
}
use inazuma_core.Execution.{
  deposit, attach, commit_writes, commit_transfers, revert_call, finish_call, apply_deploy,
  apply_call, called,
}
use inazuma_core.Execution.Coins.{
  coins, Keeps, deposit_lem, set_contract-Keeps, put_code-Keeps, put_receipt-Keeps,
  commit_writes-Keeps, commit_transfers_lem, revert_call_lem,
}

module _ (env : Platform) where
  deposited :
      (s : Store env) (a x : ℕ)
      → coins env s + x < u128_mod
      → x ≤ (account env (deposit env s a x) a).balance
  unfolding deposit coins
  deposited s a x h =
      let b = account env s a in
      ground (
        arith,
        h,
        worth-le-supply env s a,
        u128_add-eq b.balance x,
        account-set_account env s a a (record b { balance = b.balance + x }),
      )

  pub attach_lem :
      (s : Store env) (a x : ℕ)
      → coins env s + x < u128_mod
      → (coins env (attach env s a x) ≡ coins env s + x)
        × (x ≤ (account env (attach env s a x) a).balance)
  unfolding attach coins
  attach_lem s a x h = ground (arith, h, deposit_lem env s a x h, deposited s a x h)

  pub account-put_receipt :
      (s : Store env) (h : ℕ) (r : Receipt) (a : ℕ)
      → account env (put_receipt env s h r) a ≡ account env s a
  unfolding account put_receipt
  account-put_receipt s h r a = refl

  pub kept_once : (s s' : Store env) → Keeps env s s' → coins env s' ≡ coins env s
  unfolding coins
  kept_once s s' h = ground (arith, h)

  kept : (s s' s'' : Store env) → Keeps env s s' → Keeps env s' s'' → coins env s'' ≡ coins env s
  unfolding coins
  kept s s' s'' h k = ground (arith, h, k)

  module _ (ext : Externals env) where
    pub apply_deploy_lem :
        (s : Store env) (tx : Transaction) (height from : ℕ)
        → coins env s + tx.amount < u128_mod
        → (apply_deploy env ext s tx height from).0 ≡ ok tt
        → coins env (apply_deploy env ext s tx height from).1 ≡ coins env s + tx.amount
    unfolding apply_deploy
    apply_deploy_lem s tx height from fits h =
        elim (Result-cases (decode_code env ext tx.payload)) [
          | inr (x, e) ↦ absurd (ground (arith, e, h))
          | inl (code, e) ↦
              let hash = ext.code_hash code in
              let address = ext.contract_address from tx.nonce hash in
              let put = put_code env s hash code in
              let c : Contract = record {
                address = address;
                code_hash = hash;
                code_size = length code;
                creator = from;
                created_height = height;
                calls = 0;
              } in
              let registered = set_contract env put c in
              let same : coins env registered ≡ coins env s =
                kept s put registered (put_code-Keeps env s hash code)
                  (set_contract-Keeps env put c) in
              ground (arith, e, h, same, attach_lem registered address tx.amount)
        ]

    finish_call_lem :
        (s : Store env) (tx : Transaction) (from : ℕ) (c : Contract) (o : Outcome)
        → coins env s < u128_mod
        → tx.amount ≤ (account env s tx.to).balance
        → (finish_call env ext s tx from c o).0 ≡ ok tt
        → coins env (finish_call env ext s tx from c o).1 ≡ coins env s
    unfolding finish_call coins
    finish_call_lem s tx from c o fits k h =
        let s₁ = commit_writes env s tx.to o.writes in
        let r = commit_transfers env s₁ tx.to o.transfers in
        let back = revert_call env s tx.to from tx.amount in
        ground (
          arith,
          h,
          fits,
          k,
          revert_call_lem env s tx.to from tx.amount,
          set_contract-Keeps env back (called env c),
          commit_writes-Keeps env s tx.to o.writes,
          commit_transfers_lem env s₁ tx.to o.transfers,
          set_contract-Keeps env r.1 (called env c),
        )

    pub apply_call_lem :
        (s : Store env) (tx : Transaction) (height from : ℕ)
        → coins env s + tx.amount < u128_mod
        → (apply_call env ext s tx height from).0 ≡ ok tt
        → coins env (apply_call env ext s tx height from).1 ≡ coins env s + tx.amount
    unfolding apply_call
    apply_call_lem s tx height from fits h = elim (Result-cases (check_call env s tx.to)) [
      | inr (x, e) ↦ absurd (ground (arith, e, h))
      | inl (c, e) ↦ elim (Option-cases (code_at env s c.code_hash)) [
        | inl f ↦ absurd (ground (arith, e, f, h))
        | inr (code, f) ↦ elim (Result-cases (decode_args env ext tx.payload)) [
          | inr (x, g) ↦ absurd (ground (arith, e, f, g, h))
          | inl (input, g) ↦
              let s₁ = attach env s tx.to tx.amount in
              let o =
                execute env ext s₁ tx.to from code input tx.amount height (fuel_for_fee tx.fee) in
              let r = receipt_of o tx.to from height in
              let s₂ = put_receipt env s₁ (tx_hash env ext tx) r in
              let (there, covered) = attach_lem s tx.to tx.amount fits in
              let same : coins env s₂ ≡ coins env s₁ =
                kept_once s₁ s₂ (put_receipt-Keeps env s₁ (tx_hash env ext tx) r) in
              ground (
                arith,
                e,
                f,
                g,
                h,
                there,
                covered,
                same,
                account-put_receipt s₁ (tx_hash env ext tx) r tx.to,
                finish_call_lem s₂ tx from c o (omega (arith, same, there, fits)),
              )
        ]
      ]
    ]
