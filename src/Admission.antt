-- ===== src/Admission.antt =====
-- Admission of a transaction to the pool, `precheck_tx` and `admit` of src/chain.rs. The caller holds
-- both locks; the event that is published is left out.
pub mod Bounds
use inazuma_core.Base.{
  ℕ, Bool, true, false, not, ◌&&◌, ◌||◌, Option, none, some, ltb, leb, ◌==◌, if◌then◌else◌, Result,
  ok, err, u64_add, u128_saturating_add, is_some,
}
use inazuma_core.Platform.{Platform}
use inazuma_core.Types.{min_fee, downtime_jail_enabled}
use inazuma_core.State.{Store, account, tip_height, unwrap_or}
use inazuma_core.Transactions.{TxKind, Transaction, sender}
use inazuma_core.Mempool.{Mempool, contains, pending_for, is_full, evict_cheapest_below, insert_tx}
use inazuma_core.Slashing.{SlashError, check_report, no_evidence}
use inazuma_core.Signing.Verify.{tx_hash, verify_signature}
use inazuma_core.Externals.{Externals}
use inazuma_core.Contracts.{deploy_fee}
use inazuma_core.Shielded.{ShieldedError, check_shielded_shape}
use inazuma_core.Execution.{ChainError, check_tx, token_creation_fee}
use inazuma_core.Blocks.{Rules, tx_height}

pub data AdmitError : Type 0 where
  wrong_chain fee_below_minimum bad_signature bad_sender fee_below_base not_active bad_recipient :
      AdmitError
  no_amount not_enough_staked tombstoned not_jailed still_jailed bad_nonce insufficient_balance :
      AdmitError
  too_many_pending duplicate pool_full : AdmitError
  in_shielded : ShieldedError → AdmitError
  in_slashing : SlashError → AdmitError
  in_chain : ChainError → AdmitError

abbrev pub max_pending_per_sender : ℕ
max_pending_per_sender = 64

-- What an account must have; a private transfer and an unshield fall under the last arm.
unfoldable pub required_balance : Transaction → ℕ
required_balance tx = elim tx.kind [
  | TxKind.unstake ↦ tx.fee
  | TxKind.report_equivocation ↦ tx.fee
  | TxKind.unjail ↦ tx.fee
  | TxKind.create_token ↦ u128_saturating_add tx.fee token_creation_fee
  | TxKind.mint_token ↦ tx.fee
  | TxKind.token_transfer ↦ tx.fee
  | TxKind.burn_token ↦ tx.fee
  | TxKind.deploy_contract ↦ u128_saturating_add (u128_saturating_add tx.fee deploy_fee) tx.amount
  | _ ↦ u128_saturating_add tx.amount tx.fee
]

module _ (env : Platform) (ext : Externals env) (rules : Rules) where
  unfoldable pub precheck_tx : Transaction → Result AdmitError (Transaction × ℕ × ℕ)
  precheck_tx tx =
      if not (tx.chain_id == rules.chain_id)
      then err wrong_chain
      else (if ltb tx.fee min_fee
          then err fee_below_minimum
          else (if not (verify_signature env ext tx)
              then err bad_signature
              else elim (sender env tx) [
                | none ↦ err bad_sender
                | some from ↦ ok (tx, tx_hash env ext tx, from)
              ]))

  abbrev pub next_height : Store env → ℕ
  next_height s = u64_add (unwrap_or (tip_height env s) 0) 1

  abbrev pub shielded_admitted : Store env → Transaction → Result AdmitError (Unit {0})
  shielded_admitted s tx =
      if ltb (next_height s) rules.shielded_activation
      then err not_active
      else elim (check_shielded_shape env ext tx) [ err e ↦ err (in_shielded e) | ok u ↦ ok tt ]

  -- The arms for tokens and contracts are the checks that execution makes too.
  abbrev pub rechecked : Store env → Transaction → ℕ → Result AdmitError (Unit {0})
  rechecked s tx from = elim (check_tx env ext s tx from) [
    | err e ↦ err (in_chain e)
    | ok u ↦ ok tt
  ]

  -- The `match` on the kind.
  unfoldable pub admit_kind : Store env → Transaction → ℕ → Result AdmitError (Unit {0})
  admit_kind s tx from =
      let a = account env s from in
      elim tx.kind [
        | TxKind.shield ↦ shielded_admitted s tx
        | TxKind.private_transfer ↦ shielded_admitted s tx
        | TxKind.unshield ↦ shielded_admitted s tx
        | TxKind.transfer ↦ if not (env.is_valid_address tx.to) then err bad_recipient else ok tt
        | TxKind.stake ↦ if tx.amount == 0 then err no_amount else ok tt
        | TxKind.unstake ↦
            if tx.amount == 0
            then err no_amount
            else (if ltb a.staked tx.amount then err not_enough_staked else ok tt)
        | TxKind.report_equivocation ↦ elim tx.payload [
          | none ↦ err (in_slashing no_evidence)
          | some p ↦ elim (check_report env s (next_height s) p.args) [
            | err e ↦ err (in_slashing e)
            | ok evidence ↦ ok tt
          ]
        ]
        | TxKind.unjail ↦
            if a.penalties.tombstoned
            then err tombstoned
            else (if a.penalties.jailed_until == 0
                then err not_jailed
                else (if ltb (next_height s) a.penalties.jailed_until
                      && downtime_jail_enabled (next_height s)
                    then err still_jailed
                    else ok tt))
        | _ ↦ rechecked s tx from
      ]

  abbrev pub Admitted : Type 0
  Admitted = Result AdmitError ℕ × Mempool

  -- The end of admission: a full pool makes way for a transaction that pays more.
  unfoldable pub enqueue : Mempool → Transaction → ℕ → ℕ → Admitted
  enqueue pool tx hash from =
      let (evicted, room) = evict_cheapest_below pool tx.fee in
      if not (is_full pool)
      then (ok hash, insert_tx pool tx hash from)
      else (if is_some evicted
          then (ok hash, insert_tx room tx hash from)
          else (err pool_full, room))

  unfoldable pub admit : Store env → Mempool → Transaction → ℕ → ℕ → ℕ → Admitted
  admit s pool tx hash from floor =
      let a = account env s from in
      let pending = pending_for pool from in
      if ltb tx.fee floor then (err fee_below_base, pool) else elim (admit_kind s tx from) [
        | err e ↦ (err e, pool)
        | ok u ↦
            if not (tx.nonce == u64_add a.nonce pending)
            then (err bad_nonce, pool)
            else (if ltb a.balance (required_balance tx)
                then (err insufficient_balance, pool)
                else (if leb max_pending_per_sender pending
                    then (err too_many_pending, pool)
                    else (if is_some (tx_height env ext rules s hash) || contains pool hash
                        then (err duplicate, pool)
                        else enqueue pool tx hash from)))
      ]
