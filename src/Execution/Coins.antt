-- ===== src/Execution/Coins.antt =====
-- The coins of the chain, in the accounts of src/state.rs and in its shielded pool, and the single steps
-- of execution in src/chain.rs.
use inazuma_core.Base.{
  ℕ, ◌+◌, ◌-◌, ◌≤◌, ◌<◌, ◌≡◌, refl, Option, none, some, List, [], ◌∷◌, arith, Option-cases, inl,
  inr, u128_mod, u128_add-eq, u128_sub-eq,
}
use inazuma_core.Platform.{Platform}
use inazuma_core.Records.{Payload, Contract, Receipt, Evidence, Token}
use inazuma_core.Types.{Account}
use inazuma_core.State.{Store, account, set_account, put_slash}
use inazuma_core.State.Supply.{supply, worth, supply-set_account, worth-le-supply}
use inazuma_core.State.Ledger.{token, set_token, set_token_balance, credit_token, debit_token}
use inazuma_core.Slashing.{apply_report, apply_unjail, punish, pay_bounty}
use inazuma_core.Tokens.{apply_create, apply_mint, apply_token_transfer, apply_burn}
use inazuma_core.Contracts.{set_contract, put_code, set_contract_storage, put_receipt}
use inazuma_core.Shielded.{shielded_pool_balance}
use inazuma_core.Execution.{deposit, commit_writes, commit_transfers, revert_call}

module _ (env : Platform) where
  unfoldable pub coins : Store env → ℕ
  coins s = supply env s + shielded_pool_balance env s

  -- The coins stay where they are.
  abbrev pub Keeps : Store env → Store env → Type 0
  Keeps s s' =
      (supply env s' ≡ supply env s) × (shielded_pool_balance env s' ≡ shielded_pool_balance env s)

  pub pool-set_account :
      (s : Store env) (a : ℕ) (x : Account)
      → shielded_pool_balance env (set_account env s a x) ≡ shielded_pool_balance env s
  unfolding shielded_pool_balance set_account
  pool-set_account s a x = refl

  pub set_contract-Keeps : (s : Store env) (c : Contract) → Keeps s (set_contract env s c)
  unfolding supply shielded_pool_balance set_contract
  set_contract-Keeps s c = (refl, refl)

  pub put_code-Keeps : (s : Store env) (h : ℕ) (c : List ℕ) → Keeps s (put_code env s h c)
  unfolding supply shielded_pool_balance put_code
  put_code-Keeps s h c = (refl, refl)

  pub put_receipt-Keeps : (s : Store env) (h : ℕ) (r : Receipt) → Keeps s (put_receipt env s h r)
  unfolding supply shielded_pool_balance put_receipt
  put_receipt-Keeps s h r = (refl, refl)

  storage-Keeps :
      (s : Store env) (a k : ℕ) (v : Option ℕ) → Keeps s (set_contract_storage env s a k v)
  unfolding supply shielded_pool_balance set_contract_storage
  storage-Keeps s a k v = (refl, refl)

  pub commit_writes-Keeps :
      (s : Store env) (a : ℕ) (ws : List (ℕ × Option ℕ)) → Keeps s (commit_writes env s a ws)
  unfolding commit_writes
  commit_writes-Keeps s a [] = (refl, refl)
  commit_writes-Keeps s a ((k, v) ∷ ws) =
      ground
        (arith, storage-Keeps s a k v, commit_writes-Keeps (set_contract_storage env s a k v) a ws)

  set_token-Keeps : (s : Store env) (t : Token) → Keeps s (set_token env s t)
  unfolding supply shielded_pool_balance set_token
  set_token-Keeps s t = (refl, refl)

  token_balance-Keeps : (s : Store env) (t a x : ℕ) → Keeps s (set_token_balance env s t a x)
  unfolding supply shielded_pool_balance set_token_balance
  token_balance-Keeps s t a x = ground arith

  credit_token-Keeps : (s : Store env) (t a x : ℕ) → Keeps s (credit_token env s t a x).1
  unfolding supply shielded_pool_balance credit_token set_token set_token_balance
  credit_token-Keeps s t a x = ground arith

  debit_token-Keeps : (s : Store env) (t a x : ℕ) → Keeps s (debit_token env s t a x).1
  unfolding supply shielded_pool_balance debit_token set_token set_token_balance
  debit_token-Keeps s t a x = ground arith

  pub apply_create-Keeps :
      (s : Store env) (from n x h : ℕ) (p : Option Payload)
      → Keeps s (apply_create env s from n x h p).1
  unfolding apply_create supply shielded_pool_balance credit_token set_token set_token_balance
  apply_create-Keeps s from n x h none = (refl, refl)
  apply_create-Keeps s from n x h (some p) = ground arith

  pub apply_mint-Keeps :
      (s : Store env) (from to x : ℕ) (p : Option Payload)
      → Keeps s (apply_mint env s from to x p).1
  unfolding apply_mint supply shielded_pool_balance credit_token set_token set_token_balance
  apply_mint-Keeps s from to x none = (refl, refl)
  apply_mint-Keeps s from to x (some p) = ground arith

  pub apply_token_transfer-Keeps :
      (s : Store env) (from to x : ℕ) (p : Option Payload)
      → Keeps s (apply_token_transfer env s from to x p).1
  unfolding apply_token_transfer
  apply_token_transfer-Keeps s from to x none = (refl, refl)
  apply_token_transfer-Keeps s from to x (some p) = elim (Option-cases (token env s p.token)) [
    | inl e ↦ ground (arith, e)
    | inr (t, e) ↦ ground (
      arith,
      e,
      debit_token-Keeps s t.id from x,
      credit_token-Keeps (debit_token env s t.id from x).1 t.id to x,
    )
  ]

  pub apply_burn-Keeps :
      (s : Store env) (from x : ℕ) (p : Option Payload) → Keeps s (apply_burn env s from x p).1
  unfolding apply_burn supply shielded_pool_balance debit_token set_token set_token_balance
  apply_burn-Keeps s from x none = (refl, refl)
  apply_burn-Keeps s from x (some p) = ground arith

  pub pool-apply_report :
      (s : Store env) (h r : ℕ) (e : Evidence)
      → shielded_pool_balance env (apply_report env s h r e).1 ≡ shielded_pool_balance env s
  unfolding apply_report punish pay_bounty put_slash set_account shielded_pool_balance
  pool-apply_report s h r e = ground arith

  pub pool-apply_unjail :
      (s : Store env) (h a : ℕ)
      → shielded_pool_balance env (apply_unjail env s h a).1 ≡ shielded_pool_balance env s
  unfolding apply_unjail set_account shielded_pool_balance
  pool-apply_unjail s h a = ground arith

  -- Coins arrive.
  pub deposit_lem :
      (s : Store env) (a x : ℕ)
      → coins s + x < u128_mod
      → (supply env (deposit env s a x) ≡ supply env s + x)
        × (shielded_pool_balance env (deposit env s a x) ≡ shielded_pool_balance env s)
  unfolding deposit coins
  deposit_lem s a x h =
      let b = account env s a in
      ground (
        arith,
        h,
        worth-le-supply env s a,
        u128_add-eq b.balance x,
        supply-set_account env s a (record b { balance = b.balance + x }),
        pool-set_account s a (record b { balance = b.balance + x }),
      )

  pub withdraw_lem :
      (s : Store env) (a : ℕ) (x : Account)
      → worth x ≤ worth (account env s a)
      → (supply env (set_account env s a x) + (worth (account env s a) - worth x) ≡ supply env s)
        × (shielded_pool_balance env (set_account env s a x) ≡ shielded_pool_balance env s)
  withdraw_lem s a x h = (omega (arith, supply-set_account env s a x, h), pool-set_account s a x)

  pub commit_transfers_lem :
      (s : Store env) (a : ℕ) (ts : List (ℕ × ℕ))
      → coins s < u128_mod
      → coins (commit_transfers env s a ts).1 ≡ coins s
  unfolding commit_transfers coins
  commit_transfers_lem s a [] h = refl
  commit_transfers_lem s a ((to, x) ∷ ts) h =
      let c = account env s a in
      let paid = set_account env s a (record c { balance = c.balance - x }) in
      ground (
        arith,
        h,
        u128_sub-eq c.balance x,
        worth-le-supply env s a,
        supply-set_account env s a (record c { balance = c.balance - x }),
        pool-set_account s a (record c { balance = c.balance - x }),
        deposit_lem paid to x,
        commit_transfers_lem (deposit env paid to x) a ts,
      )

  pub revert_call_lem :
      (s : Store env) (a from x : ℕ)
      → coins s < u128_mod
      → x ≤ (account env s a).balance
      → (supply env (revert_call env s a from x) ≡ supply env s)
        × (shielded_pool_balance env (revert_call env s a from x) ≡ shielded_pool_balance env s)
  unfolding revert_call coins
  revert_call_lem s a from x h k =
      let c = account env s a in
      let paid = set_account env s a (record c { balance = c.balance - x }) in
      ground (
        arith,
        h,
        k,
        worth-le-supply env s a,
        supply-set_account env s a (record c { balance = c.balance - x }),
        pool-set_account s a (record c { balance = c.balance - x }),
        deposit_lem paid from x,
      )
