-- ===== src/Shielded/Spends.antt =====
-- A spend of src/chain.rs that goes through: it has an amount, the pool covers it, and the notes were
-- settled.
use inazuma_core.Base.{ℕ, ◌≤◌, ◌≡◌, sym, ap, ◌∙◌, none, some, arith, ok, Option-cases, inl, inr}
use inazuma_core.Platform.{Platform}
use inazuma_core.State.{Store}
use inazuma_core.Transactions.{Transaction, ShieldedData}
use inazuma_core.Externals.{Externals}
use inazuma_core.Shielded.{
  Done, shielded_pool_balance, unshield_out, spend_key, settle, apply_spend,
}

module _ (env : Platform) (ext : Externals env) (s : Store env) (tx : Transaction) (height : ℕ)
    (d : ShieldedData) where
  settles_for :
      (out : ℕ)
      → unshield_out env ext tx d ≡ some out
      → (apply_spend env ext s tx height d).0 ≡ ok tt
      → (out ≤ shielded_pool_balance env s)
        × (apply_spend env ext s tx height d
            ≡ settle env ext (spend_key env ext s).1 tx height d out)
  unfolding apply_spend
  settles_for out e h = ground (arith, e, h)

  no_amount_fails :
      unshield_out env ext tx d ≡ none → (apply_spend env ext s tx height d).0 ≡ ok tt → ⊥
  unfolding apply_spend
  no_amount_fails e h = ground (arith, e, h)

  abbrev pub Settles : ℕ → Type 0
  Settles out =
      (out ≤ shielded_pool_balance env s)
      × (apply_spend env ext s tx height d ≡ settle env ext (spend_key env ext s).1 tx height d out)
      × ((settle env ext (spend_key env ext s).1 tx height d out).0 ≡ ok tt)

  pub spend-Settles : (apply_spend env ext s tx height d).0 ≡ ok tt → (out : ℕ) × Settles out
  spend-Settles h = elim (Option-cases (unshield_out env ext tx d)) [
    | inl e ↦ absurd (no_amount_fails e h)
    | inr (out, e) ↦
        let (covered, same) = settles_for out e h in
        (out, (covered, same, sym (ap (λ (r : Done env ext). r.0) same) ∙ h))
  ]
