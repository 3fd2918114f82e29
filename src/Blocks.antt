-- ===== src/Blocks.antt =====
-- Importing a block, `import_block` of src/chain.rs, with `put_block` of src/state.rs. The undo log
-- around an import is the module Journal: here an import that fails returns the node as it was.
-- `now` is the clock; what only reports or flushes is left out.
pub mod Kept
pub mod Issuance
use inazuma_core.Base.{
  ℕ, zero, suc, ◌+◌, Bool, true, false, not, ◌&&◌, ◌||◌, Option, none, some, List, [], ◌∷◌, Dict,
  insert, length, map, ltb, leb, ◌==◌, if◌then◌else◌, Result, ok, err, u64_add, u128_add,
}
use inazuma_core.TxsRoot.{txs_root}
use inazuma_core.Platform.{Platform}
use inazuma_core.Types.{min_fee}
use inazuma_core.State.{Store, tip_height, base_fee, set_base_fee, unwrap_or}
use inazuma_core.Transactions.{Transaction, Block, verify_producer}
use inazuma_core.Staking.{
  Validator, validator_set, elect_leader_attempt, release_unbonded, pay_rewards,
}
use inazuma_core.Liveness.{record_liveness}
use inazuma_core.Fees.{required_fee, next_base_fee, fee_market_activation_height}
use inazuma_core.Timing.{check_timestamp, leader_attempt_window}
use inazuma_core.Mempool.{Mempool, remove_hashes}
use inazuma_core.Signing.Verify.{tx_hash, verify_signature}
use inazuma_core.Externals.{Externals}
use inazuma_core.Shielded.{seal_shielded_root}
use inazuma_core.Execution.{ChainError, apply_tx}
use inazuma_core.Votes.{VoteTracker, block_at, replay_pending}

abbrev pub state_root_v2_activation_height : ℕ
state_root_v2_activation_height = 200_000

abbrev pub max_txs_per_block : ℕ
max_txs_per_block = 5_000

pub data BlockError : Type 0 where
  halted not_initialized out_of_order wrong_parent bad_producer too_many_txs bad_txs_root :
      BlockError
  bad_timestamp not_elected other_chain fee_below_minimum fee_below_base bad_tx_signature :
      BlockError
  bad_state_root : BlockError
  invalid_tx : ChainError → BlockError

-- What the genesis file and the environment fix: the chain id, the slot, and the heights at which
-- the shielded pool and slashing for downtime begin.
pub record Rules : Type 0 where
  pub chain_id : ℕ
  pub block_time_ms : ℕ
  pub shielded_activation : ℕ
  pub slashing_activation : ℕ

-- The checks of one transaction's header in a block.
abbrev pub check_fees : Rules → ℕ → ℕ → List Transaction → Result BlockError (Unit {0})
check_fees rules height floor [] = ok tt
check_fees rules height floor (tx ∷ txs) =
    let rest = check_fees rules height floor txs in
    if not (tx.chain_id == rules.chain_id)
    then err other_chain
    else (if ltb tx.fee min_fee
        then err fee_below_minimum
        else (if leb fee_market_activation_height height && ltb tx.fee floor
            then err fee_below_base
            else rest))

module _ (env : Platform) where
  -- The parts of `Node` that an import moves.
  pub record Node : Type 0 where
    pub store : Store env
    pub votes : VoteTracker
    pub mempool : Mempool

  -- Whether one of the `n` attempts from `attempt` on elects the producer.
  unfoldable pub elected : List Validator → Block → ℕ → ℕ → Bool
  elected set b zero attempt = false
  elected set b (suc n) attempt =
      let later = elected set b n (attempt + 1) in
      elim (elect_leader_attempt env set b.height b.parent_hash attempt) [
        | none ↦ later
        | some leader ↦ leader == b.producer || later
      ]

  module _ (ext : Externals env) (rules : Rules) where
    abbrev pub verify_signatures : List Transaction → Bool
    verify_signatures [] = true
    verify_signatures (tx ∷ txs) = verify_signature env ext tx && verify_signatures txs

    abbrev pub index_txs : env.Tree ℕ → ℕ → List Transaction → env.Tree ℕ
    index_txs d height [] = d
    index_txs d height (tx ∷ txs) =
        index_txs (env.tree_insert ℕ d (tx_hash env ext tx) height) height txs

    unfoldable pub put_block : Store env → Block → Store env
    put_block s b = record s {
      blocks = env.tree_insert Block s.blocks b.height b;
      txs = index_txs s.txs b.height b.transactions;
      tip = some b.height;
      tip_text = some b.hash;
    }

    unfoldable pub tx_height : Store env → ℕ → Option ℕ
    tx_height s hash = env.get ℕ s.txs hash

    unfoldable pub tip_hash : Store env → ℕ
    tip_hash s = unwrap_or s.tip_text env.empty_text

    unfoldable pub state_root_at : Store env → ℕ → ℕ
    state_root_at s height =
        if ltb height state_root_v2_activation_height then ext.state_root s else ext.merkle_root s

    abbrev pub parent_time : Store env → ℕ → ℕ
    parent_time s tip = elim (block_at env s tip) [ none ↦ 0 | some p ↦ p.timestamp_ms ]

    abbrev pub tx_hashes : List Transaction → List ℕ
    tx_hashes txs = map (tx_hash env ext) txs

    abbrev pub root_of_txs : List Transaction → ℕ
    root_of_txs txs =
        txs_root ext.sha256_pair ext.sha256_text ext.hex_digest ext.empty_root (tx_hashes txs)

    -- The tests of the transactions as they stand in the block, before one runs.
    unfoldable pub check_txs : Store env → Block → Result BlockError (Unit {0})
    check_txs s b =
        elim (check_fees rules b.height (required_fee b.height (base_fee env s)) b.transactions) [
          | err e ↦ err e
          | ok u ↦ if not (verify_signatures b.transactions) then err bad_tx_signature else ok tt
        ]

    -- The producer is a leader that the time since the parent allows.
    unfoldable pub is_elected : ℕ → Store env → ℕ → Block → Bool
    unfolding elected block_at
    is_elected now s tip b =
        let set = validator_set env s in
        let window =
          leader_attempt_window (parent_time s tip) b.timestamp_ms now rules.block_time_ms in
        length set == 0 || elected set b (suc window) 0

    -- The tests before a transaction runs.
    unfoldable pub check_block : ℕ → Store env → ℕ → Block → Result BlockError (Unit {0})
    unfolding block_at tip_hash is_elected check_txs verify_producer
    check_block now s tip b =
        if not (b.height == u64_add tip 1)
        then err out_of_order
        else (if not (b.parent_hash == tip_hash s)
            then err wrong_parent
            else (if not (verify_producer env b)
                then err bad_producer
                else (if ltb max_txs_per_block (length b.transactions)
                    then err too_many_txs
                    else (if not (root_of_txs b.transactions == b.txs_root)
                        then err bad_txs_root
                        else elim (check_timestamp (parent_time s tip) b.timestamp_ms now) [
                          | err e ↦ err bad_timestamp
                          | ok u ↦
                              if not (is_elected now s tip b)
                              then err not_elected
                              else check_txs s b
                        ]))))

    -- The loop over the transactions, with the fees so far.
    unfoldable pub apply_all :
        Store env → ℕ → ℕ → List Transaction → Result ChainError ℕ × Store env
    apply_all s height fees [] = (ok fees, s)
    apply_all s height fees (tx ∷ txs) =
        let (r, s') = apply_tx env ext rules.shielded_activation s tx height in
        elim r [ err e ↦ (err e, s') | ok fee ↦ apply_all s' height (u128_add fees fee) txs ]

    -- What a block does after its transactions, up to the payment of the reward.
    unfoldable pub account_block : Store env → Block → Store env
    account_block s b =
        record_liveness env rules.slashing_activation (release_unbonded env s b.height).0 b.height
          b.parent_hash b.producer

    unfoldable pub execute_block : Store env → Block → Result ChainError (Unit {0}) × Store env
    execute_block s b =
        let (r, s') = apply_all s b.height 0 b.transactions in
        elim r [
          | err e ↦ (err e, s')
          | ok fees ↦ (
            ok tt,
            seal_shielded_root env ext rules.shielded_activation
                (pay_rewards env (account_block s' b) b.producer fees) b.height,
          )
        ]

    abbrev pub hashes_of : List Transaction → Dict (Unit {0})
    hashes_of [] = []
    hashes_of (tx ∷ txs) = insert (tx_hash env ext tx) tt (hashes_of txs)

    -- The end of an import: the block and the new base fee are stored, waiting votes are counted, and
    -- its transactions leave the pool.
    unfoldable pub store_block : Node → Store env → Block → Node
    store_block node s b =
        let stored = put_block s b in
        let s' =
          set_base_fee env stored (next_base_fee (base_fee env stored) (length b.transactions)) in
        let (final, votes, s'') = replay_pending env s' node.votes b.height in
        record {
          store = s'';
          votes = votes;
          mempool = remove_hashes node.mempool (hashes_of b.transactions);
        }

    unfoldable pub import_block_inner : ℕ → Node → Block → Result BlockError Bool × Node
    import_block_inner now node b = elim (tip_height env node.store) [
      | none ↦ (err not_initialized, node)
      | some tip ↦
          if leb b.height tip then (ok false, node) else elim (check_block now node.store tip b) [
            | err e ↦ (err e, node)
            | ok u ↦
                let (r, s) = execute_block node.store b in
                elim r [
                  | err e ↦ (err (invalid_tx e), record node { store = s })
                  | ok v ↦
                      if not (state_root_at s b.height == b.state_root)
                      then (err bad_state_root, record node { store = s })
                      else (ok true, store_block node s b)
                ]
          ]
    ]

    unfoldable pub import_block : ℕ → Bool → Node → Block → Result BlockError Bool × Node
    import_block now halt node b =
        if halt
        then (err halted, node)
        else (let (r, node') = import_block_inner now node b in
            elim r [ ok applied ↦ (ok applied, node') | err e ↦ (err e, node) ])
