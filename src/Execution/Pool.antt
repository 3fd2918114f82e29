-- ===== src/Execution/Pool.antt =====
-- The shielded pool of src/chain.rs against the accounts: what `apply_shielded` moves.
use inazuma_core.Base.{
  ℕ, ◌+◌, ◌-◌, ◌≤◌, ◌<◌, ◌≡◌, ◌⊎◌, refl, ◌∙◌, List, [], ◌∷◌, arith, ok, u128_mod, u128_add-eq,
  u128_sub-eq, u128_checked_add, Option-cases, inl, inr,
}
use inazuma_core.Platform.{Platform}
use inazuma_core.State.{Store, account}
use inazuma_core.State.Supply.{supply, supply-set_account, worth-le-supply}
use inazuma_core.Transactions.{Transaction, ShieldedData, shield}
use inazuma_core.Externals.{Externals}
use inazuma_core.Shielded.{
  shielded_pool_balance, shielded_set_pool_balance, shielded_append, shielded_burn_nullifier,
  burn_all, append_all, pay_out, settle, spend_key, apply_shield, apply_spend, apply_shielded,
  shielded_set_verifying_key,
}
use inazuma_core.Shielded.Spends.{spend-Settles}
use inazuma_core.Execution.Coins.{coins, Keeps, pool-set_account}

first_cases : (xs : List ℕ) → (xs ≡ []) ⊎ ((c : ℕ) × (cs : List ℕ) × (xs ≡ c ∷ cs))
first_cases [] = inl refl
first_cases (c ∷ cs) = inr (c, cs, refl)

module _ (env : Platform) where
  append-Keeps : (s : Store env) (c : ℕ) → Keeps env s (shielded_append env s c)
  unfolding supply shielded_pool_balance shielded_append
  append-Keeps s c = (refl, refl)

  append_all-Keeps : (s : Store env) (cs : List ℕ) → Keeps env s (append_all env s cs)
  unfolding append_all
  append_all-Keeps s [] = (refl, refl)
  append_all-Keeps s (c ∷ cs) =
      ground (arith, append-Keeps s c, append_all-Keeps (shielded_append env s c) cs)

  burn-Keeps : (s : Store env) (n h : ℕ) → Keeps env s (shielded_burn_nullifier env s n h).1
  unfolding supply shielded_pool_balance shielded_burn_nullifier
  burn-Keeps s n h = ground arith

  burn_all-Keeps : (s : Store env) (h : ℕ) (ns : List ℕ) → Keeps env s (burn_all env s h ns).1
  unfolding burn_all
  burn_all-Keeps s h [] = (refl, refl)
  burn_all-Keeps s h (n ∷ ns) =
      ground (arith, burn-Keeps s n h, burn_all-Keeps (shielded_burn_nullifier env s n h).1 h ns)

  pool-set :
      (s : Store env) (b : ℕ) → shielded_pool_balance env (shielded_set_pool_balance env s b) ≡ b
  unfolding shielded_pool_balance shielded_set_pool_balance
  pool-set s b = refl

  supply-set_pool :
      (s : Store env) (b : ℕ) → supply env (shielded_set_pool_balance env s b) ≡ supply env s
  unfolding supply shielded_set_pool_balance
  supply-set_pool s b = refl

  pay_out_lem :
      (ext : Externals env) (s : Store env) (to out : ℕ)
      → coins env s < u128_mod
      → out ≤ shielded_pool_balance env s
      → coins env (pay_out env ext s to out) ≡ coins env s
  unfolding pay_out coins
  pay_out_lem ext s to out h k =
      let b = shielded_pool_balance env s in
      let s' = shielded_set_pool_balance env s (b - out) in
      let a = account env s' to in
      ground (
        arith,
        h,
        k,
        u128_sub-eq b out,
        pool-set s (b - out),
        supply-set_pool s (b - out),
        worth-le-supply env s' to,
        u128_add-eq a.balance out,
        supply-set_account env s' to (record a { balance = a.balance + out }),
        pool-set_account env s' to (record a { balance = a.balance + out }),
      )

  module _ (ext : Externals env) where
    -- A shield's amount leaves the accounts before; the pool takes it.
    abbrev pub shield_in : Transaction → ℕ
    shield_in tx = elim tx.kind [ shield ↦ tx.amount | _ ↦ 0 ]

    apply_shield_lem :
        (s : Store env) (x : ℕ) (d : ShieldedData)
        → (apply_shield env ext s x d).0 ≡ ok tt
        → coins env (apply_shield env ext s x d).1 ≡ coins env s + x
    unfolding apply_shield coins u128_checked_add
    apply_shield_lem s x d h = elim (first_cases d.commitments) [
      | inl e ↦ absurd (ground (arith, e, h))
      | inr (c, cs, e) ↦
          let s₁ = shielded_append env s c in
          let b = shielded_pool_balance env s₁ + x in
          ground (arith, e, h, append-Keeps s c, pool-set s₁ b, supply-set_pool s₁ b)
    ]

    settle_lem :
        (s : Store env) (tx : Transaction) (height : ℕ) (d : ShieldedData) (out : ℕ)
        → coins env s < u128_mod
        → out ≤ shielded_pool_balance env s
        → (settle env ext s tx height d out).0 ≡ ok tt
        → coins env (settle env ext s tx height d out).1 ≡ coins env s
    unfolding settle coins
    settle_lem s tx height d out fits k h =
        let burned = (burn_all env s height d.nullifiers).1 in
        let s' = append_all env burned d.commitments in
        ground (
          arith,
          h,
          burn_all-Keeps s height d.nullifiers,
          append_all-Keeps burned d.commitments,
          pay_out_lem ext s' tx.to out,
        )

    spend_key-Keeps : (s : Store env) → Keeps env s (spend_key env ext s).1
    unfolding spend_key supply shielded_pool_balance shielded_set_verifying_key
    spend_key-Keeps s = ground arith

    spend_covered :
        (s : Store env) (out : ℕ)
        → coins env s < u128_mod
        → out ≤ shielded_pool_balance env s
        → (coins env (spend_key env ext s).1 ≡ coins env s)
          × (out ≤ shielded_pool_balance env (spend_key env ext s).1)
    unfolding coins
    spend_covered s out fits k = ground (arith, fits, k, spend_key-Keeps s)

    apply_spend_lem :
        (s : Store env) (tx : Transaction) (height : ℕ) (d : ShieldedData)
        → coins env s < u128_mod
        → (apply_spend env ext s tx height d).0 ≡ ok tt
        → coins env (apply_spend env ext s tx height d).1 ≡ coins env s
    apply_spend_lem s tx height d fits h =
        let (out, (k, settles, done)) = spend-Settles env ext s tx height d h in
        let (same, k') = spend_covered s out fits k in
        rw settles (
          settle_lem (spend_key env ext s).1 tx height d out (omega (arith, same, fits)) k' done
          ∙ same)

    -- What a shielded transaction that goes through moves between the pool and the accounts.
    pub apply_shielded_lem :
        (activation : ℕ) (s : Store env) (tx : Transaction) (height : ℕ)
        → coins env s < u128_mod
        → (apply_shielded env ext activation s tx height).0 ≡ ok tt
        → coins env (apply_shielded env ext activation s tx height).1 ≡ coins env s + shield_in tx
    unfolding apply_shielded
    apply_shielded_lem activation s tx height fits h = elim (Option-cases tx.shielded) [
      | inl e ↦ absurd (ground (arith, e, h))
      | inr (d, e) ↦
          ground (arith, e, h, apply_shield_lem s tx.amount d, apply_spend_lem s tx height d fits)
    ]
