-- ===== src/Execution/Conservation.antt =====
-- `apply_tx` of src/chain.rs against all the coins of the chain.
use inazuma_core.Base.{
  ℕ, ◌+◌, ◌-◌, ◌*◌, ◌≤◌, ◌<◌, ◌≡◌, ◌⊎◌, refl, none, some, arith, ok, u128_mod, u128_saturating_add,
  Option-cases, Result-cases, inl, inr,
}
use inazuma_core.Platform.{Platform}
use inazuma_core.State.{Store, account}
use inazuma_core.Transactions.{
  TxKind, Transaction, sender, transfer, stake, unstake, report_equivocation, unjail, create_token,
  mint_token, token_transfer, burn_token, deploy_contract, call_contract, shield, private_transfer,
  unshield,
}
use inazuma_core.Externals.{Externals}
use inazuma_core.Execution.{debit_of, collected_of, charged, check_tx, run_kind, apply_tx}
use inazuma_core.Execution.Coins.{coins}
use inazuma_core.Execution.Moves.{worth-le-coins, gain, Moved}
use inazuma_core.Execution.Kinds.{run_kind_lem}

module _ (env : Platform) where
  -- The coins after a transaction from which the block collects a fee: only a punished
  -- equivocation burns some.
  abbrev pub Accounted : Store env → TxKind → ℕ → Store env → Type 0
  Accounted s kind fee s' =
      (burned : ℕ) × (coins env s' + fee + burned ≡ coins env s)
      × ((burned ≡ 0) ⊎ (kind ≡ report_equivocation))

  module _ (ext : Externals env) where
    -- What a transaction pays is what the block collects and what it moves elsewhere.
    debit_split :
        (k : TxKind) (tx : Transaction)
        → tx.kind ≡ k
        → debit_of tx < u128_mod - 1
        → debit_of tx ≡ collected_of tx + gain env ext k tx.amount
    unfolding debit_of collected_of u128_saturating_add
    debit_split transfer tx e h = ground (arith, e, h)
    debit_split stake tx e h = ground (arith, e, h)
    debit_split unstake tx e h = ground (arith, e, h)
    debit_split report_equivocation tx e h = ground (arith, e, h)
    debit_split unjail tx e h = ground (arith, e, h)
    debit_split create_token tx e h = ground (arith, e, h)
    debit_split mint_token tx e h = ground (arith, e, h)
    debit_split token_transfer tx e h = ground (arith, e, h)
    debit_split burn_token tx e h = ground (arith, e, h)
    debit_split deploy_contract tx e h = ground (arith, e, h)
    debit_split call_contract tx e h = ground (arith, e, h)
    debit_split shield tx e h = ground (arith, e, h)
    debit_split private_transfer tx e h = ground (arith, e, h)
    debit_split unshield tx e h = ground (arith, e, h)

    -- A transaction that goes through was affordable, and ran.
    abbrev Ran : ℕ → Store env → Transaction → ℕ → ℕ → ℕ → Type 0
    Ran activation s tx height from fee =
        let r =
          run_kind env ext activation s tx height from
            (charged (account env s from) (debit_of tx)) in
        (debit_of tx ≤ (account env s from).balance)
        × (fee ≡ collected_of tx)
        × (r.0 ≡ ok tt)
        × ((apply_tx env ext activation s tx height).1 ≡ r.1)

    apply_tx-Ran :
        (activation : ℕ) (s : Store env) (tx : Transaction) (height from fee : ℕ)
        → sender env tx ≡ some from
        → (apply_tx env ext activation s tx height).0 ≡ ok fee
        → Ran activation s tx height from fee
    unfolding apply_tx
    apply_tx-Ran activation s tx height from fee e h =
        elim (Result-cases (check_tx env ext s tx from)) [
          | inr (x, f) ↦ absurd (ground (arith, e, f, h))
          | inl (u, f) ↦ ground (arith, e, f, h)
        ]

    unsent_fails :
        (activation : ℕ) (s : Store env) (tx : Transaction) (height fee : ℕ)
        → sender env tx ≡ none
        → (apply_tx env ext activation s tx height).0 ≡ ok fee
        → ⊥
    unfolding apply_tx
    unsent_fails activation s tx height fee e h = ground (arith, e, h)

    accounted :
        (s s' : Store env) (k : TxKind) (debit x fee : ℕ)
        → Moved env ext k s s' debit x
        → debit ≡ fee + gain env ext k x
        → Accounted s k fee s'
    accounted s s' k debit x fee (le, inl e) d = (0, omega (arith, e, d), inl refl)
    accounted s s' k debit x fee (le, inr e) d =
        (coins env s - (coins env s' + fee), omega (arith, le, d), inr e)

    -- Where a hundred times the coins of the chain fit a 128-bit word, a transaction that goes
    -- through takes exactly the fee that its block collects out of the coins in the accounts and the
    -- shielded pool together. Only a report of an equivocation burns coins beside.
    pub apply_tx_lem :
        (activation : ℕ) (s : Store env) (tx : Transaction) (height fee : ℕ)
        → coins env s * 100 < u128_mod
        → (apply_tx env ext activation s tx height).0 ≡ ok fee
        → Accounted s tx.kind fee (apply_tx env ext activation s tx height).1
    apply_tx_lem activation s tx height fee fits h = elim (Option-cases (sender env tx)) [
      | inl e ↦ absurd (unsent_fails activation s tx height fee e h)
      | inr (from, e) ↦
          let (afford, collected, ran, same) = apply_tx-Ran activation s tx height from fee e h in
          let split =
            debit_split tx.kind tx refl (omega (arith, afford, fits, worth-le-coins env s from)) in
          rw same (
            accounted s _ tx.kind (debit_of tx) tx.amount fee
              (run_kind_lem env ext tx.kind activation s tx height from (debit_of tx) refl fits
                afford (omega (arith, split)) ran)
              (omega (arith, split, collected)))
    ]
