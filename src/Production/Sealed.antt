-- ===== src/Production/Sealed.antt =====
-- The tests and the run of a block in `import_block` of src/chain.rs, step by step.
use inazuma_core.Base.{
  ℕ, ◌≤◌, ◌<◌, ◌≡◌, refl, ap, true, false, some, List, length, arith, leb, ◌==◌, Result, ok,
  u64_add,
}
use inazuma_core.Platform.{Platform}
use inazuma_core.State.{Store, tip_height}
use inazuma_core.Transactions.{Transaction, Block, header_text, compute_hash, verify_producer}
use inazuma_core.Timing.{check_timestamp}
use inazuma_core.Externals.{Externals}
use inazuma_core.Execution.{ChainError}
use inazuma_core.Blocks.{
  Rules, Node, max_txs_per_block, tip_hash, parent_time, is_elected, check_txs, check_block,
  apply_all, account_block, execute_block, store_block, import_block_inner, import_block,
  state_root_at, root_of_txs,
}
use inazuma_core.Blocks.Issuance.{imported_ok}
use inazuma_core.Production.{Duty, Signer, finish_store, seal_block}

module _ (env : Platform) where
  -- A sealed header is signed by the key whose address it names.
  pub seal_block-verifies :
      (ext : Externals env) (rules : Rules) (duty : Duty) (signer : Signer env) (s : Store env)
      (height parent_hash : ℕ) (txs : List Transaction)
      → verify_producer env (seal_block env ext rules duty signer s height parent_hash txs) ≡ true
  unfolding verify_producer seal_block compute_hash header_text
  seal_block-verifies ext rules duty signer s height parent_hash txs =
      let sealed = seal_block env ext rules duty signer s height parent_hash txs in
      ground (
        arith,
        signer.hex_decode-pubkey,
        signer.raw-length,
        signer.sign-verifies (header_text env sealed),
      )

  module _ (ext : Externals env) (rules : Rules) where
    pub check_block_last :
        (now : ℕ) (s : Store env) (tip : ℕ) (b : Block)
        → b.height ≡ u64_add tip 1
        → b.parent_hash ≡ tip_hash env ext rules s
        → verify_producer env b ≡ true
        → length b.transactions ≤ max_txs_per_block
        → root_of_txs env ext rules b.transactions ≡ b.txs_root
        → check_timestamp (parent_time env ext rules s tip) b.timestamp_ms now ≡ ok tt
        → is_elected env ext rules now s tip b ≡ true
        → check_block env ext rules now s tip b ≡ check_txs env ext rules s b
    unfolding check_block
    check_block_last now s tip b h₁ h₂ h₃ h₄ h₅ h₆ h₇ = ground (arith, h₁, h₂, h₃, h₄, h₅, h₆, h₇)

    pub execute_block_ok :
        (s s' : Store env) (b : Block) (fees : ℕ)
        → apply_all env ext rules s b.height 0 b.transactions ≡ (ok fees, s')
        → execute_block env ext rules s b
          ≡ (ok tt, finish_store env ext rules s' b.height b.parent_hash b.producer fees)
    unfolding execute_block account_block finish_store
    execute_block_ok s s' b fees h =
        rw (execute_block, ap (λ (r : Result ChainError ℕ × Store env). r.0) h)
          (ap
            (λ (r : Result ChainError ℕ × Store env).
              (ok tt, finish_store env ext rules r.1 b.height b.parent_hash b.producer fees))
            h)

    pub import_block_ok :
        (now : ℕ) (node : Node env) (b : Block) (tip : ℕ)
        → tip_height env node.store ≡ some tip
        → tip < b.height
        → check_block env ext rules now node.store tip b ≡ ok tt
        → (execute_block env ext rules node.store b).0 ≡ ok tt
        → (state_root_at env ext rules (execute_block env ext rules node.store b).1 b.height
            == b.state_root)
          ≡ true
        → import_block env ext rules now false node b
          ≡ (ok true, store_block env ext rules node (execute_block env ext rules node.store b).1 b)
    unfolding import_block_inner
    import_block_ok now node b tip t above k ran root =
        let young : leb b.height tip ≡ false = ground (arith, above) in
        let node' = store_block env ext rules node (execute_block env ext rules node.store b).1 b in
        imported_ok env ext rules now node node' b true
          (rw (import_block_inner, t, young, k, ran, root) refl)
