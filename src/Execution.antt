-- ===== src/Execution.antt =====
-- Execution of one transaction, `apply_tx` of src/chain.rs. An error comes with the store as it was
-- left half-way; the caller undoes it. A section parameter `activation` is the height of the shielded
-- pool.
pub mod Coins
pub mod Pool
pub mod Calls
pub mod Paid
pub mod Moves
pub mod Kinds
pub mod Conservation
pub mod Sample
use inazuma_core.Base.{
  ℕ, ◌*◌, ◌-◌, Bool, true, false, not, Option, none, some, List, [], ◌∷◌, ◌++◌, length, ltb, ◌==◌,
  if◌then◌else◌, Result, ok, err, u64_add, u128_add, u128_sub, u128_saturating_add, is_some,
}
use inazuma_core.Platform.{Platform}
use inazuma_core.Records.{Payload, Contract}
use inazuma_core.Types.{Account, Unbond, rai_per_inaz, unbonding_blocks}
use inazuma_core.State.{Store, account, set_account}
use inazuma_core.Slashing.{SlashError, check_report, apply_report, apply_unjail, no_evidence}
use inazuma_core.Tokens
use inazuma_core.Tokens.{
  check_create, check_mint, check_token_transfer, check_burn, apply_create, apply_mint,
  apply_token_transfer, apply_burn,
}
use inazuma_core.Transactions.{TxKind, Transaction, sender}
use inazuma_core.Guest.{Outcome}
use inazuma_core.Signing.Verify.{tx_hash}
use inazuma_core.Externals.{Externals}
use inazuma_core.Contracts.Host.{execute}
use inazuma_core.Contracts.{
  ContractError, contract, set_contract, put_code, code_at, set_contract_storage, put_receipt,
  check_call, decode_code, decode_args, check_deploy, fuel_for_fee, receipt_of, deploy_fee,
}
use inazuma_core.Shielded.{ShieldedError, apply_shielded}

abbrev pub token_creation_fee : ℕ
token_creation_fee = 10 * rai_per_inaz

pub data ChainError : Type 0 where
  bad_sender stale_nonce insufficient_balance not_enough_staked : ChainError
  contract_exists code_missing overspent : ChainError
  in_token : Tokens.Error → ChainError
  in_slashing : SlashError → ChainError
  in_contract : ContractError → ChainError
  in_shielded : ShieldedError → ChainError

-- What the sender pays, and what of it the block collects.
unfoldable pub debit_of : Transaction → ℕ
debit_of tx = elim tx.kind [
  | TxKind.unstake ↦ tx.fee
  | TxKind.report_equivocation ↦ tx.fee
  | TxKind.unjail ↦ tx.fee
  | TxKind.create_token ↦ u128_saturating_add tx.fee token_creation_fee
  | TxKind.mint_token ↦ tx.fee
  | TxKind.token_transfer ↦ tx.fee
  | TxKind.burn_token ↦ tx.fee
  | TxKind.deploy_contract ↦ u128_saturating_add (u128_saturating_add tx.fee deploy_fee) tx.amount
  | TxKind.private_transfer ↦ tx.fee
  | TxKind.unshield ↦ tx.fee
  | _ ↦ u128_saturating_add tx.amount tx.fee
]

unfoldable pub collected_of : Transaction → ℕ
collected_of tx = elim tx.kind [
  | TxKind.create_token ↦ u128_saturating_add tx.fee token_creation_fee
  | TxKind.deploy_contract ↦ u128_saturating_add tx.fee deploy_fee
  | _ ↦ tx.fee
]

-- The sender's account after it has paid.
abbrev pub charged : Account → ℕ → Account
charged a debit = record a { balance = u128_sub a.balance debit; nonce = u64_add a.nonce 1 }

-- The account after an unstake; the coins wait at the end of the queue.
abbrev pub unstaked : Account → ℕ → ℕ → Account
unstaked a amount height = record a {
  staked = u128_sub a.staked amount;
  unbonding =
      a.unbonding
      ++ record { amount = amount; release_height = u64_add height unbonding_blocks } ∷ [];
}

module _ (env : Platform) where
  abbrev pub Done : Type 0
  Done = Result ChainError (Unit {0}) × Store env

  -- `?` on a step of execution: the rest runs on the store that it leaves.
  abbrev pub and_then :
      {A : Type 0}
      → Done
      → (Store env → Result ChainError A × Store env)
      → Result ChainError A × Store env
  and_then (ok u, s) f = f s
  and_then (err e, s) f = (err e, s)

  -- `?` on the operations of the parts, which leave their store.
  abbrev pub of_token : Result Tokens.Error (Unit {0}) × Store env → Done
  of_token (ok u, s) = (ok tt, s)
  of_token (err e, s) = (err (in_token e), s)

  abbrev pub of_shielded : Result ShieldedError (Unit {0}) × Store env → Done
  of_shielded (ok u, s) = (ok tt, s)
  of_shielded (err e, s) = (err (in_shielded e), s)

  abbrev pub of_slashing : {A : Type 0} → Result SlashError A × Store env → Done
  of_slashing (ok a, s) = (ok tt, s)
  of_slashing (err e, s) = (err (in_slashing e), s)

  -- Coins arrive at an account.
  unfoldable pub deposit : Store env → ℕ → ℕ → Store env
  deposit s address amount =
      let a = account env s address in
      set_account env s address (record a { balance = u128_add a.balance amount })

  -- Only a positive amount is attached to a contract.
  unfoldable pub attach : Store env → ℕ → ℕ → Store env
  unfolding deposit
  attach s address amount = if ltb 0 amount then deposit s address amount else s

  -- The loops over the writes and the transfers of a contract that has run.
  unfoldable pub commit_writes : Store env → ℕ → List (ℕ × Option ℕ) → Store env
  commit_writes s address [] = s
  commit_writes s address ((key, value) ∷ ws) =
      commit_writes (set_contract_storage env s address key value) address ws

  unfoldable pub commit_transfers : Store env → ℕ → List (ℕ × ℕ) → Done
  unfolding deposit
  commit_transfers s address [] = (ok tt, s)
  commit_transfers s address ((to, amount) ∷ ts) =
      let c = account env s address in
      let paid = set_account env s address (record c { balance = u128_sub c.balance amount }) in
      let rest = commit_transfers (deposit paid to amount) address ts in
      if ltb c.balance amount then (err overspent, s) else rest

  -- One more call of a contract.
  abbrev pub called : Contract → Contract
  called c = record c { calls = u64_add c.calls 1 }

  -- A call that reverts hands the attached value back.
  unfoldable pub revert_call : Store env → ℕ → ℕ → ℕ → Store env
  unfolding deposit
  revert_call s address sender amount =
      if ltb 0 amount
      then (let c = account env s address in
          deposit (set_account env s address (record c { balance = c.balance - amount })) sender
            amount)
      else s

  module _ (ext : Externals env) where
    -- The checks before anything is written.
    unfoldable pub check_tx : Store env → Transaction → ℕ → Result ChainError (Unit {0})
    check_tx s tx from = elim tx.kind [
      | TxKind.create_token ↦ (of_token (check_create env s from tx.nonce tx.payload, s)).0
      | TxKind.mint_token ↦ (of_token (check_mint env s from tx.to tx.amount tx.payload, s)).0
      | TxKind.token_transfer ↦
          (of_token (check_token_transfer env s from tx.to tx.amount tx.payload, s)).0
      | TxKind.burn_token ↦ (of_token (check_burn env s from tx.amount tx.payload, s)).0
      | TxKind.deploy_contract ↦ elim (decode_code env ext tx.payload) [
        | err e ↦ err (in_contract e)
        | ok code ↦ elim (check_deploy env ext code) [ err e ↦ err (in_contract e) | ok u ↦ ok tt ]
      ]
      | TxKind.call_contract ↦ elim (check_call env s tx.to) [
        | err e ↦ err (in_contract e)
        | ok c ↦ elim (decode_args env ext tx.payload) [
          | err e ↦ err (in_contract e)
          | ok args ↦ ok tt
        ]
      ]
      | _ ↦ ok tt
    ]

    unfoldable pub apply_deploy : Store env → Transaction → ℕ → ℕ → Done
    unfolding attach
    apply_deploy s tx height from = elim (decode_code env ext tx.payload) [
      | err e ↦ (err (in_contract e), s)
      | ok code ↦
          let hash = ext.code_hash code in
          let address = ext.contract_address from tx.nonce hash in
          let c : Contract = record {
            address = address;
            code_hash = hash;
            code_size = length code;
            creator = from;
            created_height = height;
            calls = 0;
          } in
          if is_some (contract env s address)
          then (err contract_exists, s)
          else (ok tt, attach (set_contract env (put_code env s hash code) c) address tx.amount)
    ]

    -- A run of a contract that is over: its effects, or their absence, and its count of calls.
    unfoldable pub finish_call : Store env → Transaction → ℕ → Contract → Outcome → Done
    unfolding revert_call commit_writes commit_transfers
    finish_call s tx from c o =
        if not o.is_ok
        then (ok tt, set_contract env (revert_call s tx.to from tx.amount) (called c))
        else and_then (commit_transfers (commit_writes s tx.to o.writes) tx.to o.transfers)
            (λ s'. (ok tt, set_contract env s' (called c)))

    unfoldable pub apply_call : Store env → Transaction → ℕ → ℕ → Done
    unfolding attach finish_call
    apply_call s tx height from = elim (check_call env s tx.to) [
      | err e ↦ (err (in_contract e), s)
      | ok c ↦ elim (code_at env s c.code_hash) [
        | none ↦ (err code_missing, s)
        | some code ↦ elim (decode_args env ext tx.payload) [
          | err e ↦ (err (in_contract e), s)
          | ok input ↦
              let s₁ = attach s tx.to tx.amount in
              let o =
                execute env ext s₁ tx.to from code input tx.amount height (fuel_for_fee tx.fee) in
              finish_call (put_receipt env s₁ (tx_hash env ext tx) (receipt_of o tx.to from height))
                tx from c o
        ]
      ]
    ]

    -- The report rides in the payload's `args`.
    unfoldable pub apply_evidence : Store env → Transaction → ℕ → ℕ → Done
    apply_evidence s tx height from = elim tx.payload [
      | none ↦ (err (in_slashing no_evidence), s)
      | some p ↦ elim (check_report env s height p.args) [
        | err e ↦ (err (in_slashing e), s)
        | ok evidence ↦ of_slashing (apply_report env s height from evidence)
      ]
    ]

    -- The `match` on the kind: `from` is the sender, `a` its account after it has paid, which most
    -- kinds store first.
    unfoldable pub run_kind : ℕ → Store env → Transaction → ℕ → ℕ → Account → Done
    unfolding deposit apply_evidence apply_deploy apply_call
    run_kind activation s tx height from a =
        let s₁ = set_account env s from a in
        elim tx.kind [
          | TxKind.shield ↦ of_shielded (apply_shielded env ext activation s₁ tx height)
          | TxKind.private_transfer ↦ of_shielded (apply_shielded env ext activation s₁ tx height)
          | TxKind.unshield ↦ of_shielded (apply_shielded env ext activation s₁ tx height)
          | TxKind.transfer ↦
              if tx.to == from
              then (
                ok tt,
                set_account env s from (record a { balance = u128_add a.balance tx.amount }),
              )
              else (ok tt, deposit s₁ tx.to tx.amount)
          | TxKind.stake ↦
              (ok tt, set_account env s from (record a { staked = u128_add a.staked tx.amount }))
          | TxKind.report_equivocation ↦ apply_evidence s₁ tx height from
          | TxKind.unjail ↦ of_slashing (apply_unjail env s₁ height from)
          | TxKind.unstake ↦
              if ltb a.staked tx.amount
              then (err not_enough_staked, s)
              else (ok tt, set_account env s from (unstaked a tx.amount height))
          | TxKind.create_token ↦
              of_token (apply_create env s₁ from tx.nonce tx.amount height tx.payload)
          | TxKind.mint_token ↦ of_token (apply_mint env s₁ from tx.to tx.amount tx.payload)
          | TxKind.token_transfer ↦
              of_token (apply_token_transfer env s₁ from tx.to tx.amount tx.payload)
          | TxKind.burn_token ↦ of_token (apply_burn env s₁ from tx.amount tx.payload)
          | TxKind.deploy_contract ↦ apply_deploy s₁ tx height from
          | TxKind.call_contract ↦ apply_call s₁ tx height from
        ]

    unfoldable pub apply_tx : ℕ → Store env → Transaction → ℕ → Result ChainError ℕ × Store env
    unfolding check_tx debit_of collected_of run_kind
    apply_tx activation s tx height = elim (sender env tx) [
      | none ↦ (err bad_sender, s)
      | some from ↦ elim (check_tx s tx from) [
        | err e ↦ (err e, s)
        | ok u ↦
            let a = account env s from in
            if not (tx.nonce == a.nonce)
            then (err stale_nonce, s)
            else (if ltb a.balance (debit_of tx)
                then (err insufficient_balance, s)
                else and_then (run_kind activation s tx height from (charged a (debit_of tx)))
                    (λ s'. (ok (collected_of tx), s')))
      ]
    ]
