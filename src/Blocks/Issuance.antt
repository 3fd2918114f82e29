-- ===== src/Blocks/Issuance.antt =====
-- What importing a block of src/chain.rs adds to the coins of the chain.
use inazuma_core.Base.{
  ℕ, ◌+◌, ◌*◌, ◌≤◌, ◌<◌, ◌≡◌, ◌⊎◌, refl, ap, ◌∙◌, Bool, true, false, none, some, List, [], ◌∷◌,
  arith, leb, ◌==◌, Result, ok, err, Result-cases, Option-cases, Bool-cases, inl, inr, ==_iff,
  u128_mod, u128_add, length, u128_add-eq, u64_add,
}
use inazuma_core.Platform.{Platform}
use inazuma_core.State.{Store, stake_accounts, tip_height, set_base_fee, base_fee}
use inazuma_core.State.Supply.{supply}
use inazuma_core.Transactions.{Transaction, Block}
use inazuma_core.Staking.{validator_set, release_unbonded, pay_rewards, block_reward}
use inazuma_core.Staking.Election.{stake_sum}
use inazuma_core.Staking.Rewards.{supply-pay_rewards}
use inazuma_core.Staking.Release.{supply-release_unbonded}
use inazuma_core.Liveness.{record_liveness}
use inazuma_core.Liveness.Laws.{record_liveness_lem}
use inazuma_core.Externals.{Externals}
use inazuma_core.Shielded.{
  shielded_pool_balance, seal_shielded_root, shielded_seal_into_state,
  shielded_set_last_sealed_count, shielded_seal_root,
}
use inazuma_core.Execution.{apply_tx}
use inazuma_core.Execution.Coins.{coins}
use inazuma_core.Execution.Conservation.{apply_tx_lem}
use inazuma_core.Fees.{next_base_fee}
use inazuma_core.Blocks.Kept.{
  Pools, Settles, pool-release_accounts, pool-record_liveness, pool-pay_rewards,
  replay_pending-Settles,
}
use inazuma_core.Blocks.{
  invalid_tx, bad_state_root, not_initialized, halted, Rules, Node, BlockError, put_block,
  check_block, apply_all, account_block, execute_block, store_block, import_block_inner,
  import_block, state_root_at,
}

module _ (env : Platform) (ext : Externals env) (rules : Rules) where
  coins-seal :
      (s : Store env) (height : ℕ)
      → coins env (seal_shielded_root env ext rules.shielded_activation s height) ≡ coins env s
  unfolding seal_shielded_root shielded_seal_into_state shielded_set_last_sealed_count
      shielded_seal_root supply shielded_pool_balance coins
  coins-seal s height = ground arith

  pool-account_block : (s : Store env) (b : Block) → Pools env s (account_block env ext rules s b)
  unfolding account_block record_liveness release_unbonded
  pool-account_block s b =
      let s' = (release_unbonded env s b.height).0 in
      pool-record_liveness env rules.slashing_activation s' b.height b.parent_hash b.producer
      ∙ pool-release_accounts env b.height (stake_accounts env s) s

  coins-pay_rewards :
      (s : Store env) (leader fees : ℕ)
      → coins env s + fees + block_reward < u128_mod
      → block_reward * stake_sum (validator_set env s) < u128_mod
      → coins env (pay_rewards env s leader fees) ≡ coins env s + fees + block_reward
  unfolding coins
  coins-pay_rewards s leader fees fits stake = omega (
    arith,
    pool-pay_rewards env s leader fees,
    supply-pay_rewards env s leader fees (omega (arith, fits)) stake,
  )

  -- The transactions of a block take their fees out of the coins, and create none.
  apply_all_lem :
      (s : Store env) (height fees total : ℕ) (txs : List Transaction)
      → coins env s * 100 < u128_mod
      → fees + coins env s < u128_mod
      → (apply_all env ext rules s height fees txs).0 ≡ ok total
      → coins env (apply_all env ext rules s height fees txs).1 + total ≤ coins env s + fees
  unfolding apply_all
  apply_all_lem s height fees total [] fits room h = ground (arith, h)
  apply_all_lem s height fees total (tx ∷ txs) fits room h =
      let (r, s') = apply_tx env ext rules.shielded_activation s tx height in
      elim (Result-cases r) [
        | inr (e, k) ↦ absurd (ground (arith, k, h))
        | inl (fee, k) ↦
            let (burned, took, why) =
              apply_tx_lem env ext rules.shielded_activation s tx height fee fits k in
            let sum : u128_add fees fee ≡ fees + fee =
              u128_add-eq fees fee (omega (arith, took, room)) in
            let later =
              apply_all_lem s' height (u128_add fees fee) total txs (omega (arith, took, fits))
                (omega (arith, sum, took, room)) (rw (apply_all, k) at h) in
            rw (apply_all, k) (omega (arith, sum, took, later))
      ]

  account_block_lem :
      (s : Store env) (b : Block)
      → coins env s < u128_mod
      → coins env (account_block env ext rules s b) ≤ coins env s
  unfolding account_block coins
  account_block_lem s b fits =
      let s' = (release_unbonded env s b.height).0 in
      let same = supply-release_unbonded env s b.height (omega (arith, fits)) in
      let less =
        record_liveness_lem env rules.slashing_activation s' b.height b.parent_hash b.producer 0
          (omega (arith, same, fits)) in
      omega (arith, same, less.0, pool-account_block s b)

  -- A block whose transactions go through adds its reward to the coins at most.
  execute_block_lem :
      (s : Store env) (b : Block)
      → coins env s * 100 < u128_mod
      → block_reward
          * stake_sum (
              validator_set env (
                account_block env ext rules
                  (apply_all env ext rules s b.height 0 b.transactions).1
                  b))
        < u128_mod
      → (execute_block env ext rules s b).0 ≡ ok tt
      → coins env (execute_block env ext rules s b).1 ≤ coins env s + block_reward
  unfolding execute_block
  execute_block_lem s b fits stake h =
      let (r, s') = apply_all env ext rules s b.height 0 b.transactions in
      elim (Result-cases r) [
        | inr (e, k) ↦ absurd (ground (arith, k, h))
        | inl (fees, k) ↦
            let took =
              apply_all_lem s b.height 0 fees b.transactions fits (omega (arith, fits)) k in
            let less = account_block_lem s' b (omega (arith, took, fits)) in
            let ready = account_block env ext rules s' b in
            let paid_out =
              coins-pay_rewards ready b.producer fees (omega (arith, took, less, fits)) stake in
            let sealed = coins-seal (pay_rewards env ready b.producer fees) b.height in
            rw (execute_block, k) (omega (arith, took, less, paid_out, sealed))
      ]

  put_block-coins :
      (s : Store env) (b : Block) (fee : ℕ)
      → (coins env (set_base_fee env (put_block env ext rules s b) fee) ≡ coins env s)
        × (tip_height env (set_base_fee env (put_block env ext rules s b) fee) ≡ some b.height)
  unfolding put_block set_base_fee coins supply shielded_pool_balance tip_height
  put_block-coins s b fee = (refl, refl)

  coins-Settles : (s s' : Store env) → Settles env s s' → coins env s' ≡ coins env s
  unfolding coins
  coins-Settles s s' h = omega (arith, h.0)

  -- Storing a block moves the tip to it and no coins.
  store_block_lem :
      (node : Node env) (s : Store env) (b : Block)
      → (coins env (store_block env ext rules node s b).store ≡ coins env s)
        × (tip_height env (store_block env ext rules node s b).store ≡ some b.height)
  unfolding store_block
  store_block_lem node s b =
      let stored = put_block env ext rules s b in
      let fee = next_base_fee (base_fee env stored) (length b.transactions) in
      let s' = set_base_fee env stored fee in
      let kept = replay_pending-Settles env s' node.votes b.height in
      let (same, tip) = put_block-coins s b fee in (coins-Settles s' _ kept ∙ same, kept.1 ∙ tip)

  -- The node as an import leaves it: refused and untouched, an old block and untouched, or the block
  -- right above the tip.
  abbrev pub ImportOutcome : Node env → Block → Result BlockError Bool × Node env → Type 0
  ImportOutcome node b r =
      ((e : BlockError) × (r.0 ≡ err e) × (r.1 ≡ node))
      ⊎ ((r.0 ≡ ok false) × (r.1 ≡ node))
      ⊎ ((tip : ℕ) × (r.0 ≡ ok true)
          × (tip_height env node.store ≡ some tip)
          × (b.height ≡ u64_add tip 1)
          × (tip_height env r.1.store ≡ some b.height)
          × (coins env r.1.store ≤ coins env node.store + block_reward))

  check_block-height :
      (now : ℕ) (s : Store env) (tip : ℕ) (b : Block)
      → check_block env ext rules now s tip b ≡ ok tt
      → b.height ≡ u64_add tip 1
  unfolding check_block
  check_block-height now s tip b h = elim (Bool-cases (b.height == u64_add tip 1)) [
    | inl e ↦ (==_iff b.height (u64_add tip 1)).0 e
    | inr e ↦ absurd (ground (arith, e, h))
  ]

  -- A block that went through its tests and ran, or what stopped it.
  inner_cases :
      (now : ℕ) (node : Node env) (b : Block) (tip : ℕ)
      → tip_height env node.store ≡ some tip
      → ((e : BlockError) × ((import_block_inner env ext rules now node b).0 ≡ err e))
        ⊎ (import_block_inner env ext rules now node b ≡ (ok false, node))
        ⊎ ((b.height ≡ u64_add tip 1)
            × ((execute_block env ext rules node.store b).0 ≡ ok tt)
            × (import_block_inner env ext rules now node b ≡ (
              ok true,
              store_block env ext rules node (execute_block env ext rules node.store b).1 b,
            )))
  unfolding import_block_inner
  inner_cases now node b tip t = elim (Bool-cases (leb b.height tip)) [
    | inl old ↦ inr (inl (rw (import_block_inner, t, old) refl))
    | inr old ↦ elim (Result-cases (check_block env ext rules now node.store tip b)) [
      | inr (e, k) ↦ inl (e, rw (import_block_inner, t, old, k) refl)
      | inl (u, k) ↦ elim (Result-cases (execute_block env ext rules node.store b).0) [
        | inr (e, l) ↦ inl (invalid_tx e, rw (import_block_inner, t, old, k, l) refl)
        | inl (v, l) ↦
            elim (Bool-cases (
              state_root_at env ext rules (execute_block env ext rules node.store b).1 b.height
              == b.state_root)) [
                | inr m ↦ inl (bad_state_root, rw (import_block_inner, t, old, k, l, m) refl)
                | inl m ↦ inr (
                    inr (
                      check_block-height now node.store tip b k,
                      l,
                      rw (import_block_inner, t, old, k, l, m) refl,
                    ))
              ]
      ]
    ]
  ]

  no_tip_fails :
      (now : ℕ) (node : Node env) (b : Block)
      → tip_height env node.store ≡ none
      → (import_block_inner env ext rules now node b).0 ≡ err not_initialized
  unfolding import_block_inner
  no_tip_fails now node b t = rw (import_block_inner, t) refl

  imported_err :
      (now : ℕ) (node : Node env) (b : Block) (e : BlockError)
      → (import_block_inner env ext rules now node b).0 ≡ err e
      → ImportOutcome node b (import_block env ext rules now false node b)
  unfolding import_block
  imported_err now node b e h = inl (e, rw (import_block, h) refl, rw (import_block, h) refl)

  pub imported_ok :
      (now : ℕ) (node node' : Node env) (b : Block) (applied : Bool)
      → import_block_inner env ext rules now node b ≡ (ok applied, node')
      → import_block env ext rules now false node b ≡ (ok applied, node')
  unfolding import_block
  imported_ok now node node' b applied h =
      rw (import_block, ap (λ (r : Result BlockError Bool × Node env). r.0) h)
        (ap (λ (r : Result BlockError Bool × Node env). (ok applied, r.1)) h)

  -- Where a hundred times the coins and the reward times the paid stake fit a word, importing a
  -- block refuses it and leaves the node as it was, or skips an old block and leaves the node as it
  -- was, or takes the block right above the tip, moves the tip to it, and adds at most the block
  -- reward to all coins. The paid stake is that of the validator set after the
  -- block's transactions, releases and penalties.
  pub import_block_lem :
      (now : ℕ) (halt : Bool) (node : Node env) (b : Block)
      → coins env node.store * 100 < u128_mod
      → block_reward
          * stake_sum (
              validator_set env (
                account_block env ext rules
                  (apply_all env ext rules node.store b.height 0 b.transactions).1
                  b))
        < u128_mod
      → ImportOutcome node b (import_block env ext rules now halt node b)
  unfolding import_block
  import_block_lem now true node b fits stake = inl (halted, refl, refl)
  import_block_lem now false node b fits stake = elim (Option-cases (tip_height env node.store)) [
    | inl t ↦ imported_err now node b not_initialized (no_tip_fails now node b t)
    | inr (tip, t) ↦ elim (inner_cases now node b tip t) [
      | inl (e, h) ↦ imported_err now node b e h
      | inr (inl h) ↦ inr (inl (rw (imported_ok now node node b false h) (refl, refl)))
      | inr (inr (next, ran, h)) ↦
          let s = (execute_block env ext rules node.store b).1 in
          let node' = store_block env ext rules node s b in
          let (same, moved) = store_block_lem node s b in
          let grown = execute_block_lem node.store b fits stake ran in
          inr (
            inr (
              rw (imported_ok now node node' b true h)
                (tip, refl, t, next, moved, omega (arith, same, grown))))
    ]
  ]
