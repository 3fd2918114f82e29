-- ===== src/Production/Agreement.antt =====
-- What `produce_block` of src/chain.rs seals, `import_block` of the same file takes.
use inazuma_core.Base.{
  ℕ, suc, ◌≤◌, ◌<◌, ◌≡◌, ◌≢◌, refl, ap, sym, ◌∙◌, true, false, ◌||◌, Option, some, length, arith,
  leb, ◌==◌, Result, ok, err, Bool-cases, inl, inr, u64_mod, u64_add, ==_refl,
}
use inazuma_core.Platform.{Platform}
use inazuma_core.State.{Store, tip_height}
use inazuma_core.Transactions.{Block}
use inazuma_core.Staking.{validator_set, total_stake, elect_leader_attempt}
use inazuma_core.Staking.Election.{elect_leader_attempt_member}
use inazuma_core.Liveness.{max_leader_attempts}
use inazuma_core.Timing.{check_timestamp, leader_attempt_window}
use inazuma_core.Mempool.{Mempool, remove_hashes}
use inazuma_core.Mempool.Batch.{take_batch}
use inazuma_core.Mempool.Batch.Limit.{take_batch-le}
use inazuma_core.Externals.{Externals}
use inazuma_core.Signguard.{Format, SignGuard}
use inazuma_core.Execution.{ChainError}
use inazuma_core.Blocks.{
  BlockError, Rules, Node, max_txs_per_block, tip_hash, parent_time, is_elected, check_txs,
  check_block, execute_block, store_block, import_block_inner, import_block, state_root_at,
  hashes_of,
}
use inazuma_core.Production.{
  Duty, Signer, address, current_attempt, pack, declines, finish_store, seal_block, keep_block,
  seal_next, produce_block,
}
use inazuma_core.Production.Packing.{pack-apply_all, pack-length}
use inazuma_core.Production.Elected.{elected_at, from_zero, attempt-window}
use inazuma_core.Production.Sealed.{
  seal_block-verifies, check_block_last, execute_block_ok, import_block_ok,
}

module _ (env : Platform) (ext : Externals env) (rules : Rules) where
  module _ (format : Format) (duty : Duty) (signer : Signer env) (guard : Option SignGuard)
      (node : Node env) where
    -- What a producer that seals has gone through.
    pub produced :
        (tip : ℕ) (b : Block)
        → tip_height env node.store ≡ some tip
        → (produce_block env ext rules format duty signer guard node).0 ≡ ok (some b)
        → let (sealed, node', guard') = seal_next env ext rules format duty signer guard node tip in
          (declines env ext rules duty signer guard node.store tip ≡ false)
          × (b ≡ sealed)
          × ((produce_block env ext rules format duty signer guard node).1 ≡ node')
          × ((produce_block env ext rules format duty signer guard node).2 ≡ guard')
    unfolding produce_block
    produced tip b t h = elim (Bool-cases (duty.serving_only || duty.halted)) [
      | inl e ↦ absurd (ground (arith, e, h))
      | inr e ↦ elim (Bool-cases (declines env ext rules duty signer guard node.store tip)) [
        | inl d ↦ absurd (ground (arith, e, t, d, h))
        | inr d ↦ (
          d,
          ground (arith, e, t, d, h),
          rw (produce_block, e, t, d) refl,
          rw (produce_block, e, t, d) refl,
        )
      ]
    ]

    -- A producer that goes ahead in company is the leader of its attempt.
    leads :
        (tip : ℕ)
        → duty.solo ≡ false
        → total_stake (validator_set env node.store) ≢ 0
        → declines env ext rules duty signer guard node.store tip ≡ false
        → elect_leader_attempt env
            (validator_set env node.store)
            (u64_add tip 1)
            (tip_hash env ext rules node.store)
            (current_attempt env ext rules node.store duty)
          ≡ some (address env signer)
    unfolding declines
    leads tip alone stake d =
        let set = validator_set env node.store in
        let hash = tip_hash env ext rules node.store in
        let attempt = current_attempt env ext rules node.store duty in
        let here : length set ≢ 0 = λ e. ground (arith, alone, d, e) in
        let (leader, e, member) =
          elect_leader_attempt_member env (u64_add tip 1) hash attempt set here stake in
        let own : leader ≡ address env signer = ground (arith, alone, d, e) in e ∙ ap some own

    abbrev after : ℕ → Store env
    after tip =
        let (included, fees, s) =
          pack env ext rules node.store (u64_add tip 1) 0
            (take_batch max_txs_per_block node.mempool).0 in
        finish_store env ext rules s (u64_add tip 1) (tip_hash env ext rules node.store)
          (address env signer) fees

    abbrev sealed : ℕ → Block
    sealed tip =
        seal_block env ext rules duty signer (after tip) (u64_add tip 1)
          (tip_hash env ext rules node.store)
          (pack env ext rules node.store (u64_add tip 1) 0
            (take_batch max_txs_per_block node.mempool).0).0

    seal_next_lem :
        (tip : ℕ)
        → let (b, node', guard') = seal_next env ext rules format duty signer guard node tip in
          (b ≡ sealed tip)
          × (node' ≡ record (keep_block env ext rules node (after tip) (sealed tip)) {
            mempool = (take_batch max_txs_per_block node.mempool).1;
          })
    unfolding seal_next keep_block
    seal_next_lem tip = (refl, refl)

    -- The block that a producer seals runs on its store, and gives the store that it kept.
    sealed_runs :
        (tip : ℕ) → execute_block env ext rules node.store (sealed tip) ≡ (ok tt, after tip)
    unfolding seal_block
    sealed_runs tip =
        let batch = (take_batch max_txs_per_block node.mempool).0 in
        let packed = pack env ext rules node.store (u64_add tip 1) 0 batch in
        execute_block_ok env ext rules node.store packed.2 (sealed tip) packed.1
          (pack-apply_all env ext rules node.store (u64_add tip 1) 0 batch)

    sealed_root :
        (tip : ℕ)
        → (sealed tip).state_root ≡ state_root_at env ext rules (after tip) (sealed tip).height
    unfolding seal_block
    sealed_root tip = refl

    sealed_tested :
        (tip now : ℕ)
        → tip_height env node.store ≡ some tip
        → duty.solo ≡ false
        → total_stake (validator_set env node.store) ≢ 0
        → declines env ext rules duty signer guard node.store tip ≡ false
        → current_attempt env ext rules node.store duty ≤ max_leader_attempts
        → duty.now ≤ duty.sealed_at
        → duty.now ≤ now
        → duty.sealed_at < u64_mod
        → check_timestamp (parent_time env ext rules node.store tip) duty.sealed_at now ≡ ok tt
        → check_block env ext rules now node.store tip (sealed tip)
          ≡ check_txs env ext rules node.store (sealed tip)
    unfolding seal_block is_elected
    sealed_tested tip now t alone stake d most order later fits time =
        let batch = (take_batch max_txs_per_block node.mempool).0 in
        let attempt = current_attempt env ext rules node.store duty in
        let window =
          leader_attempt_window (parent_time env ext rules node.store tip) duty.sealed_at now
            rules.block_time_ms in
        let found =
          elected_at env (validator_set env node.store) (sealed tip) (suc window) attempt 0
            (omega
              (arith, attempt-window env ext rules node.store tip duty now t most order later fits))
            (ap
                (elect_leader_attempt env (validator_set env node.store) (u64_add tip 1)
                  (tip_hash env ext rules node.store))
                (from_zero env attempt)
              ∙ leads tip alone stake d) in
        check_block_last env ext rules now node.store tip (sealed tip) refl refl
          (seal_block-verifies env ext rules duty signer (after tip) (u64_add tip 1)
            (tip_hash env ext rules node.store) (sealed tip).transactions)
          (omega (
            arith,
            pack-length env ext rules node.store (u64_add tip 1) 0 batch,
            take_batch-le max_txs_per_block node.mempool,
          ))
          refl time (ground (arith, found))

    store_block-keep :
        (pool : Mempool) (s : Store env) (b : Block)
        → store_block env ext rules (record node { mempool = pool }) s b
          ≡ record (keep_block env ext rules node s b) {
            mempool = remove_hashes pool (hashes_of env ext rules b.transactions);
          }
    unfolding store_block keep_block
    store_block-keep pool s b = refl

    sealed_imports :
        (tip now : ℕ) (pool : Mempool)
        → tip_height env node.store ≡ some tip
        → tip < u64_add tip 1
        → check_block env ext rules now node.store tip (sealed tip) ≡ ok tt
        → import_block env ext rules now false (record node { mempool = pool }) (sealed tip) ≡ (
          ok true,
          record (keep_block env ext rules node (after tip) (sealed tip)) {
            mempool = remove_hashes pool (hashes_of env ext rules (sealed tip).transactions);
          },
        )
    unfolding seal_block
    sealed_imports tip now pool t above k =
        let ran = sealed_runs tip in
        let peer : Node env = record node { mempool = pool } in
        let root : (state_root_at env ext rules
                (execute_block env ext rules node.store (sealed tip)).1 (sealed tip).height
              == (sealed tip).state_root)
            ≡ true =
          rw (ap (λ (r : Result ChainError (Unit {0}) × Store env). r.1) ran)
            (==_refl (state_root_at env ext rules (after tip) (u64_add tip 1))) in
        import_block_ok env ext rules now peer (sealed tip) tip t above k
          (ap (λ (r : Result ChainError (Unit {0}) × Store env). r.0) ran) root
        ∙ ap
            (λ (r : Result ChainError (Unit {0}) × Store env).
              (ok true, store_block env ext rules peer r.1 (sealed tip)))
            ran
        ∙ ap (λ n. (ok true, n)) (store_block-keep pool (after tip) (sealed tip))

    sealed_refused :
        (tip now : ℕ) (pool : Mempool) (e : BlockError)
        → tip_height env node.store ≡ some tip
        → tip < u64_add tip 1
        → check_block env ext rules now node.store tip (sealed tip) ≡ err e
        → import_block env ext rules now false (record node { mempool = pool }) (sealed tip)
          ≡ (err e, record node { mempool = pool })
    unfolding seal_block import_block import_block_inner
    sealed_refused tip now pool e t above k =
        let young : leb (u64_add tip 1) tip ≡ false = ground (arith, above) in
        rw (import_block, import_block_inner, t, young, k) refl

    -- What a producer in company seals and keeps, every peer takes that is in the same state and whose
    -- clock is not behind: where the validators have stake, the attempt is at most the 4,096th, the
    -- clock fits 64 bits, the peer accepts the timestamp, and the included transactions pass the
    -- peer's tests of chain id, fee and signature, the peer ends in the producer's store with the
    -- producer's votes.
    pub produced-imported :
        (tip now : ℕ) (pool : Mempool) (b : Block)
        → (produce_block env ext rules format duty signer guard node).0 ≡ ok (some b)
        → tip_height env node.store ≡ some tip
        → tip < u64_add tip 1
        → duty.solo ≡ false
        → total_stake (validator_set env node.store) ≢ 0
        → current_attempt env ext rules node.store duty ≤ max_leader_attempts
        → duty.now ≤ duty.sealed_at
        → duty.now ≤ now
        → duty.sealed_at < u64_mod
        → check_timestamp (parent_time env ext rules node.store tip) duty.sealed_at now ≡ ok tt
        → check_txs env ext rules node.store b ≡ ok tt
        → import_block env ext rules now false (record node { mempool = pool }) b ≡ (
          ok true,
          record (produce_block env ext rules format duty signer guard node).1 {
            mempool = remove_hashes pool (hashes_of env ext rules b.transactions);
          },
        )
    produced-imported tip now pool b h t above alone stake most order later fits time txs =
        let (d, same, left, guarded) = produced tip b t h in
        let (own, kept) = seal_next_lem tip in
        let here : b ≡ sealed tip = same ∙ own in
        let passed : check_block env ext rules now node.store tip (sealed tip) ≡ ok tt =
          sealed_tested tip now t alone stake d most order later fits time
          ∙ ap (check_txs env ext rules node.store) (sym here)
          ∙ txs in
        let moved = left ∙ kept in
        let gone = hashes_of env ext rules (sealed tip).transactions in
        rw here (
          sealed_imports tip now pool t above passed
          ∙ ap (λ (n : Node env). (ok true, record n { mempool = remove_hashes pool gone }))
              (sym moved))

    -- What such a producer seals is refused by every such peer where an included transaction fails
    -- the peer's tests of chain id, fee and signature, with the error of that test.
    pub produced-refused :
        (tip now : ℕ) (pool : Mempool) (b : Block) (e : BlockError)
        → (produce_block env ext rules format duty signer guard node).0 ≡ ok (some b)
        → tip_height env node.store ≡ some tip
        → tip < u64_add tip 1
        → duty.solo ≡ false
        → total_stake (validator_set env node.store) ≢ 0
        → current_attempt env ext rules node.store duty ≤ max_leader_attempts
        → duty.now ≤ duty.sealed_at
        → duty.now ≤ now
        → duty.sealed_at < u64_mod
        → check_timestamp (parent_time env ext rules node.store tip) duty.sealed_at now ≡ ok tt
        → check_txs env ext rules node.store b ≡ err e
        → import_block env ext rules now false (record node { mempool = pool }) b
          ≡ (err e, record node { mempool = pool })
    produced-refused tip now pool b e h t above alone stake most order later fits time txs =
        let (d, same, left, guarded) = produced tip b t h in
        let here : b ≡ sealed tip = same ∙ (seal_next_lem tip).0 in
        let failed : check_block env ext rules now node.store tip (sealed tip) ≡ err e =
          sealed_tested tip now t alone stake d most order later fits time
          ∙ ap (check_txs env ext rules node.store) (sym here)
          ∙ txs in
        rw here (sealed_refused tip now pool e t above failed)
