-- ===== src/Shielded/Nullifiers.antt =====
-- The nullifiers of src/state.rs under the spends of src/chain.rs.
use inazuma_core.Base.{
  ℕ, ◌≡◌, ◌≢◌, refl, Bool, true, false, not, List, [], ◌∷◌, arith, any, ◌==◌, if◌then◌else◌, ok,
  lookup-insert, ◌∙◌,
}
use inazuma_core.Platform.{Platform}
use inazuma_core.State.{Store, set_account}
use inazuma_core.Transactions.{Transaction, ShieldedData}
use inazuma_core.Externals.{Externals}
use inazuma_core.Shielded.Spends.{spend-Settles}
use inazuma_core.Shielded.{
  shielded_nullifier_seen, shielded_burn_nullifier, shielded_append, shielded_set_pool_balance,
  shielded_set_verifying_key, burn_all, append_all, pay_out, spend_key, settle, apply_spend,
}

abbrev pub has : ℕ → List ℕ → Bool
has n ns = any (λ m. m == n) ns

module _ (env : Platform) where
  abbrev burned : Store env → ℕ → ℕ → Store env
  burned s n height = (shielded_burn_nullifier env s n height).1

  pub seen-burned :
      (s : Store env) (n height m : ℕ)
      → shielded_nullifier_seen env s n ≡ false
      → shielded_nullifier_seen env (burned s n height) m
        ≡ (if m == n then true else shielded_nullifier_seen env s m)
  unfolding shielded_nullifier_seen shielded_burn_nullifier
  seen-burned s n height m h = ground (
    arith,
    h,
    env.get-iter ℕ (env.tree_insert ℕ s.nulls n height) m,
    env.get-iter ℕ s.nulls m,
    env.iter-insert ℕ s.nulls n height,
    lookup-insert n m height (env.iter ℕ s.nulls),
  )

  burn-fresh :
      (s : Store env) (n height : ℕ)
      → (shielded_burn_nullifier env s n height).0 ≡ not (shielded_nullifier_seen env s n)
  unfolding shielded_burn_nullifier
  burn-fresh s n height = ground arith

  -- A burn of a list goes through for new nullifiers alone, and adds them all.
  pub seen-burn_all :
      (s : Store env) (height : ℕ) (ns : List ℕ) (m : ℕ)
      → (burn_all env s height ns).0 ≡ true
      → shielded_nullifier_seen env (burn_all env s height ns).1 m
        ≡ (if has m ns then true else shielded_nullifier_seen env s m)
  unfolding burn_all
  seen-burn_all s height [] m h = refl
  seen-burn_all s height (n ∷ ns) m h = ground (
    arith,
    h,
    burn-fresh s n height,
    seen-burned s n height m,
    seen-burn_all (burned s n height) height ns m,
  )

  pub burn_all-seen :
      (s : Store env) (height : ℕ) (ns : List ℕ) (m : ℕ)
      → has m ns ≡ true
      → shielded_nullifier_seen env s m ≡ true
      → (burn_all env s height ns).0 ≡ false
  unfolding burn_all
  burn_all-seen s height [] m k h = ground (arith, k)
  burn_all-seen s height (n ∷ ns) m k h = ground (
    arith,
    k,
    h,
    burn-fresh s n height,
    seen-burned s n height m,
    burn_all-seen (burned s n height) height ns m,
  )

  seen-append :
      (s : Store env) (c m : ℕ)
      → shielded_nullifier_seen env (shielded_append env s c) m ≡ shielded_nullifier_seen env s m
  unfolding shielded_nullifier_seen shielded_append
  seen-append s c m = refl

  pub seen-append_all :
      (s : Store env) (cs : List ℕ) (m : ℕ)
      → shielded_nullifier_seen env (append_all env s cs) m ≡ shielded_nullifier_seen env s m
  unfolding append_all
  seen-append_all s [] m = refl
  seen-append_all s (c ∷ cs) m = seen-append_all (shielded_append env s c) cs m ∙ seen-append s c m

  module _ (ext : Externals env) where
    pub seen-pay_out :
        (s : Store env) (to out m : ℕ)
        → shielded_nullifier_seen env (pay_out env ext s to out) m ≡ shielded_nullifier_seen env s m
    unfolding shielded_nullifier_seen pay_out set_account shielded_set_pool_balance
    seen-pay_out s to out m = ground arith

    pub seen-spend_key :
        (s : Store env) (m : ℕ)
        → shielded_nullifier_seen env (spend_key env ext s).1 m ≡ shielded_nullifier_seen env s m
    unfolding shielded_nullifier_seen spend_key shielded_set_verifying_key
    seen-spend_key s m = ground arith

    seen-settle :
        (s : Store env) (tx : Transaction) (height : ℕ) (d : ShieldedData) (out m : ℕ)
        → (settle env ext s tx height d out).0 ≡ ok tt
        → shielded_nullifier_seen env (settle env ext s tx height d out).1 m
          ≡ (if has m d.nullifiers then true else shielded_nullifier_seen env s m)
    unfolding settle
    seen-settle s tx height d out m h =
        let s₁ = (burn_all env s height d.nullifiers).1 in
        let s₂ = append_all env s₁ d.commitments in
        ground (
          arith,
          h,
          seen-burn_all s height d.nullifiers m,
          seen-append_all s₁ d.commitments m,
          seen-pay_out s₂ tx.to out m,
        )

    settle-seen :
        (s : Store env) (tx : Transaction) (height : ℕ) (d : ShieldedData) (out m : ℕ)
        → has m d.nullifiers ≡ true
        → shielded_nullifier_seen env s m ≡ true
        → (settle env ext s tx height d out).0 ≢ ok tt
    unfolding settle
    settle-seen s tx height d out m k h =
        λ e. ground (arith, e, burn_all-seen s height d.nullifiers m k h)

    spends_once :
        (s : Store env) (tx : Transaction) (height : ℕ) (d : ShieldedData) (m : ℕ)
        → has m d.nullifiers ≡ true
        → shielded_nullifier_seen env s m ≡ true
        → (apply_spend env ext s tx height d).0 ≢ ok tt
    spends_once s tx height d m k h = λ e.
        let (out, (covered, same, done)) = spend-Settles env ext s tx height d e in
        settle-seen (spend_key env ext s).1 tx height d out m k (seen-spend_key s m ∙ h) done

    -- A nullifier that a spend has burned is never burned again: no later spend that names the same
    -- text goes through, whatever its proof, and the second one may come after other transactions,
    -- as long as what was burned is still there.
    pub apply_spend_once :
        (s later : Store env) (tx tx' : Transaction) (height height' : ℕ) (d d' : ShieldedData)
        (m : ℕ)
        → (apply_spend env ext s tx height d).0 ≡ ok tt
        → has m d.nullifiers ≡ true
        → shielded_nullifier_seen env later m
          ≡ shielded_nullifier_seen env (apply_spend env ext s tx height d).1 m
        → has m d'.nullifiers ≡ true
        → (apply_spend env ext later tx' height' d').0 ≢ ok tt
    apply_spend_once s later tx tx' height height' d d' m h k same k' =
        let (out, (covered, settles, done)) = spend-Settles env ext s tx height d h in
        let s' = (spend_key env ext s).1 in
        spends_once later tx' height' d' m k'
          (same ∙ rw settles (ground (arith, k, seen-settle s' tx height d out m done)))
