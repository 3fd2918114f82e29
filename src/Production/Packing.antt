-- ===== src/Production/Packing.antt =====
-- The loop of `produce_block` in src/chain.rs over the batch.
use inazuma_core.Base.{
  ℕ, ◌≤◌, ◌≡◌, refl, ◌∙◌, List, [], ◌∷◌, length, arith, ok, err, Result-cases, inl, inr, u128_add,
}
use inazuma_core.Platform.{Platform}
use inazuma_core.State.{Store}
use inazuma_core.Transactions.{Transaction}
use inazuma_core.Externals.{Externals}
use inazuma_core.Execution.{ChainError, apply_tx}
use inazuma_core.Blocks.{Rules, apply_all}
use inazuma_core.Production.{pack}

module _ (env : Platform) (ext : Externals env) (rules : Rules) where
  pack_none :
      (s : Store env) (height fees : ℕ)
      → let (included, total, s') = pack env ext rules s height fees [] in
        apply_all env ext rules s height fees included ≡ (ok total, s')
  unfolding pack apply_all
  pack_none s height fees = refl

  -- One round of either loop.
  pack_taken :
      (s : Store env) (height fees fee : ℕ) (tx : Transaction) (txs : List Transaction)
      → (apply_tx env ext rules.shielded_activation s tx height).0 ≡ ok fee
      → pack env ext rules s height fees (tx ∷ txs) ≡ (
          let (included, total, s') =
            pack env ext rules
              (apply_tx env ext rules.shielded_activation s tx height).1
              height
              (u128_add fees fee)
              txs in
          (tx ∷ included, total, s'))
  unfolding pack
  pack_taken s height fees fee tx txs k = rw (pack, k) refl

  pack_dropped :
      (s : Store env) (height fees : ℕ) (e : ChainError) (tx : Transaction) (txs : List Transaction)
      → (apply_tx env ext rules.shielded_activation s tx height).0 ≡ err e
      → pack env ext rules s height fees (tx ∷ txs) ≡ pack env ext rules s height fees txs
  unfolding pack
  pack_dropped s height fees e tx txs k = rw (pack, k) refl

  apply_all_ok :
      (s : Store env) (height fees fee : ℕ) (tx : Transaction) (txs : List Transaction)
      → (apply_tx env ext rules.shielded_activation s tx height).0 ≡ ok fee
      → apply_all env ext rules s height fees (tx ∷ txs)
        ≡ apply_all env ext rules
            (apply_tx env ext rules.shielded_activation s tx height).1
            height
            (u128_add fees fee)
            txs
  unfolding apply_all
  apply_all_ok s height fees fee tx txs k = rw (apply_all, k) refl

  -- The transactions that a producer includes run through, one after the other, on the store
  -- before the block, with the producer's fees and the producer's store: a transaction that failed
  -- leaves no trace.
  pub pack-apply_all :
      (s : Store env) (height fees : ℕ) (txs : List Transaction)
      → let (included, total, s') = pack env ext rules s height fees txs in
        apply_all env ext rules s height fees included ≡ (ok total, s')
  pack-apply_all s height fees [] = pack_none s height fees
  pack-apply_all s height fees (tx ∷ txs) =
      let (r, s') = apply_tx env ext rules.shielded_activation s tx height in
      elim (Result-cases r) [
        | inr (e, k) ↦ rw (pack_dropped s height fees e tx txs k) (pack-apply_all s height fees txs)
        | inl (fee, k) ↦
            let rest = pack env ext rules s' height (u128_add fees fee) txs in
            rw (pack_taken s height fees fee tx txs k) (
              apply_all_ok s height fees fee tx rest.0 k
              ∙ pack-apply_all s' height (u128_add fees fee) txs)
      ]

  -- No more transactions are included than were drained.
  pub pack-length :
      (s : Store env) (height fees : ℕ) (txs : List Transaction)
      → length (pack env ext rules s height fees txs).0 ≤ length txs
  unfolding pack
  pack-length s height fees [] = omega arith
  pack-length s height fees (tx ∷ txs) =
      let (r, s') = apply_tx env ext rules.shielded_activation s tx height in
      elim (Result-cases r) [
        | inr (e, k) ↦
            rw (pack_dropped s height fees e tx txs k)
              (omega (arith, pack-length s height fees txs))
        | inl (fee, k) ↦
            rw (pack_taken s height fees fee tx txs k)
              (omega (arith, pack-length s' height (u128_add fees fee) txs))
      ]
