-- ===== src/Execution/Moves.antt =====
-- What the kinds of transaction in src/chain.rs do to the coins of the chain, one by one.
use inazuma_core.Base.{
  ℕ, ◌+◌, ◌-◌, ◌*◌, ◌≤◌, ◌<◌, ◌≡◌, ◌⊎◌, [], ◌∷◌, arith, ok, u128_mod, u128_sub, u128_add-eq,
  u128_sub-eq, Option-cases, Result-cases, inl, inr, sum_by-append, u64_add,
}
use inazuma_core.Platform.{Platform}
use inazuma_core.Types.{Account, Unbond, unbonding_blocks}
use inazuma_core.State.{Store, account, set_account}
use inazuma_core.State.Supply.{worth, supply-set_account, worth-le-supply}
use inazuma_core.Transactions.{
  TxKind, Transaction, transfer, stake, unstake, report_equivocation, deploy_contract,
  call_contract, shield,
}
use inazuma_core.Slashing.{check_report, apply_unjail}
use inazuma_core.Slashing.Report.{apply_report_lem}
use inazuma_core.Slashing.Unjail.{apply_unjail_lem}
use inazuma_core.Externals.{Externals}
use inazuma_core.Shielded.{apply_shielded}
use inazuma_core.Execution.{charged, unstaked, deposit, apply_evidence, run_kind}
use inazuma_core.Execution.Coins.{
  coins, Keeps, pool-set_account, deposit_lem, pool-apply_report, pool-apply_unjail,
}
use inazuma_core.Execution.Pool.{apply_shielded_lem, shield_in}

module _ (env : Platform) where
  -- A write of an account moves the coins by what the account gains or loses.
  pub coins-set_account :
      (s : Store env) (a : ℕ) (x : Account)
      → coins env (set_account env s a x) + worth (account env s a) ≡ coins env s + worth x
  unfolding coins
  coins-set_account s a x = omega (arith, supply-set_account env s a x, pool-set_account env s a x)

  coins-deposit :
      (s : Store env) (a x : ℕ)
      → coins env s + x < u128_mod
      → coins env (deposit env s a x) ≡ coins env s + x
  unfolding coins
  coins-deposit s a x h = omega (arith, deposit_lem env s a x h)

  pub worth-le-coins : (s : Store env) (a : ℕ) → worth (account env s a) ≤ coins env s
  unfolding coins
  worth-le-coins s a = omega (arith, worth-le-supply env s a)

  module _ (ext : Externals env) where
    pub apply_evidence_lem :
        (s : Store env) (tx : Transaction) (height from : ℕ)
        → coins env s * 100 < u128_mod
        → (apply_evidence env ext s tx height from).0 ≡ ok tt
        → coins env (apply_evidence env ext s tx height from).1 ≤ coins env s
    unfolding apply_evidence coins
    apply_evidence_lem s tx height from fits h = elim (Option-cases tx.payload) [
      | inl e ↦ absurd (ground (arith, e, h))
      | inr (p, e) ↦ elim (Result-cases (check_report env s height p.args)) [
        | inr (x, f) ↦ absurd (ground (arith, e, f, h))
        | inl (evidence, f) ↦ ground (
          arith,
          e,
          f,
          h,
          fits,
          apply_report_lem env s height from evidence (omega (arith, fits)),
          pool-apply_report env s height from evidence,
        )
      ]
    ]

    -- One lemma for each kind: what its part of execution adds to what the sender has paid.
    abbrev pub gain : TxKind → ℕ → ℕ
    gain transfer x = x
    gain stake x = x
    gain deploy_contract x = x
    gain call_contract x = x
    gain shield x = x
    gain _ x = 0

    pub charged-coins :
        (s : Store env) (from debit : ℕ)
        → coins env s * 100 < u128_mod
        → debit ≤ (account env s from).balance
        → (coins env (set_account env s from (charged (account env s from) debit)) + debit
            ≡ coins env s)
          × (worth (charged (account env s from) debit) + debit ≡ worth (account env s from))
          × ((charged (account env s from) debit).balance + debit ≡ (account env s from).balance)
    charged-coins s from debit fits paid =
        let a = account env s from in
        let e : u128_sub a.balance debit ≡ a.balance - debit =
          u128_sub-eq a.balance debit paid (omega (arith, worth-le-coins s from)) in
        omega (arith, e, coins-set_account s from (charged a debit), worth-le-coins s from)

    -- What the sender has paid comes back as far as the kind moves it elsewhere.
    abbrev pub Moved : TxKind → Store env → Store env → ℕ → ℕ → Type 0
    Moved k s s' debit x =
        (coins env s' + debit ≤ coins env s + gain k x)
        × ((coins env s' + debit ≡ coins env s + gain k x) ⊎ (k ≡ report_equivocation))

    pub exactly :
        (k : TxKind) (s s' : Store env) (debit x : ℕ)
        → coins env s' + debit ≡ coins env s + gain k x
        → Moved k s s' debit x
    exactly k s s' debit x h = (omega (arith, h), inl h)

    pub moved_shielded :
        (k : TxKind) (activation : ℕ) (s : Store env) (tx : Transaction) (height debit before : ℕ)
        → coins env s + debit ≡ before
        → before * 100 < u128_mod
        → (apply_shielded env ext activation s tx height).0 ≡ ok tt
        → coins env (apply_shielded env ext activation s tx height).1 + debit
          ≡ before + shield_in env ext tx
    moved_shielded k activation s tx height debit before c fits h =
        omega
          (arith, c, apply_shielded_lem env ext activation s tx height (omega (arith, c, fits)) h)

    pub unjailed :
        (s : Store env) (height from : ℕ)
        → (apply_unjail env s height from).0 ≡ ok tt
        → coins env (apply_unjail env s height from).1 ≡ coins env s
    unfolding coins
    unjailed s height from h =
        ground (arith, h, apply_unjail_lem env s height from, pool-apply_unjail env s height from)

    pub coins-Keeps : (s s' : Store env) → Keeps env s s' → coins env s' ≡ coins env s
    unfolding coins
    coins-Keeps s s' h = omega (arith, h)

    pub moved_transfer :
        (s : Store env) (tx : Transaction) (height from debit : ℕ) (activation : ℕ)
        → tx.kind ≡ transfer
        → coins env s * 100 < u128_mod
        → debit ≤ (account env s from).balance
        → tx.amount ≤ debit
        → coins env
              (run_kind env ext activation s tx height from (charged (account env s from) debit)).1
            + debit
          ≡ coins env s + tx.amount
    unfolding run_kind
    moved_transfer s tx height from debit activation e fits paid room =
        let a = charged (account env s from) debit in
        let s₁ = set_account env s from a in
        let b = record a { balance = a.balance + tx.amount } in
        ground (
          arith,
          e,
          fits,
          charged-coins s from debit fits paid,
          worth-le-coins s from,
          u128_add-eq a.balance tx.amount,
          coins-set_account s from b,
          coins-deposit s₁ tx.to tx.amount,
        )

    pub moved_stake :
        (s : Store env) (tx : Transaction) (height from debit : ℕ) (activation : ℕ)
        → tx.kind ≡ stake
        → coins env s * 100 < u128_mod
        → debit ≤ (account env s from).balance
        → tx.amount ≤ debit
        → coins env
              (run_kind env ext activation s tx height from (charged (account env s from) debit)).1
            + debit
          ≡ coins env s + tx.amount
    unfolding run_kind
    moved_stake s tx height from debit activation e fits paid room =
        let a = charged (account env s from) debit in
        ground (
          arith,
          e,
          fits,
          charged-coins s from debit fits paid,
          worth-le-coins s from,
          u128_add-eq a.staked tx.amount,
          coins-set_account s from (record a { staked = a.staked + tx.amount }),
        )

    worth-unstaked :
        (a : Account) (x height : ℕ)
        → x ≤ a.staked
        → a.staked < u128_mod
        → worth (unstaked a x height) ≡ worth a
    worth-unstaked a x height h k = omega (
      arith,
      u128_sub-eq a.staked x h k,
      sum_by-append (λ (u : Unbond). u.amount) a.unbonding
          (record { amount = x; release_height = u64_add height unbonding_blocks } ∷ []),
    )

    pub moved_unstake :
        (s : Store env) (tx : Transaction) (height from debit : ℕ) (activation : ℕ)
        → tx.kind ≡ unstake
        → coins env s * 100 < u128_mod
        → debit ≤ (account env s from).balance
        → (run_kind env ext activation s tx height from (charged (account env s from) debit)).0
          ≡ ok tt
        → coins env
              (run_kind env ext activation s tx height from (charged (account env s from) debit)).1
            + debit
          ≡ coins env s
    unfolding run_kind
    moved_unstake s tx height from debit activation e fits paid h =
        let a = charged (account env s from) debit in
        ground (
          arith,
          e,
          h,
          fits,
          charged-coins s from debit fits paid,
          worth-le-coins s from,
          worth-unstaked a tx.amount height,
          coins-set_account s from (unstaked a tx.amount height),
        )
