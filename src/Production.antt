-- ===== src/Production.antt =====
-- Producing a block, `produce_block` of src/chain.rs with `current_attempt`. A transaction that fails is
-- undone, which is the module Journal: here the packing goes on with the store before it. What only
-- reports or flushes is left out, as in Blocks.
pub mod Packing
pub mod Elected
pub mod Sealed
pub mod Agreement
pub mod Guarded
use inazuma_core.Base.{
  ℕ, ◌-◌, ◌/◌, ◌%◌, ◌≡◌, Bool, true, false, not, ◌&&◌, ◌||◌, Option, none, some, List, [], ◌∷◌,
  length, ltb, ◌==◌, if◌then◌else◌, Result, ok, err, min, max, u64_mod, u64_add, u128_add,
}
use inazuma_core.Platform.{Platform}
use inazuma_core.State.{Store, tip_height, base_fee, set_base_fee}
use inazuma_core.Transactions.{Transaction, Block, header_text, compute_hash}
use inazuma_core.Staking.{validator_set, elect_leader_attempt, release_unbonded, pay_rewards}
use inazuma_core.Liveness.{record_liveness, max_leader_attempts}
use inazuma_core.Fees.{next_base_fee}
use inazuma_core.Mempool.Batch.{take_batch}
use inazuma_core.Externals.{Externals}
use inazuma_core.Shielded.{seal_shielded_root}
use inazuma_core.Execution.{apply_tx}
use inazuma_core.Votes.{replay_pending}
use inazuma_core.Signguard.{Format, SignGuard, Write, may_sign, record_height}
use inazuma_core.Blocks.{
  BlockError, not_initialized, max_txs_per_block, Rules, Node, put_block, tip_hash, state_root_at,
  parent_time, root_of_txs,
}

-- How far a producer may be behind the peers.
abbrev pub produce_lag_tolerance : ℕ
produce_lag_tolerance = 2

-- What a producer reads beside its state: its switches, the best height among the peers, when it saw
-- the tip, the clock at the attempt and at the seal, and what becomes of the guard's file.
pub record Duty : Type 0 where
  pub serving_only : Bool
  pub halted : Bool
  pub solo : Bool
  pub best_peer_height : ℕ
  pub tip_seen_ms : ℕ
  pub now : ℕ
  pub sealed_at : ℕ
  pub written : Write

-- The producer's key of the package `ed25519-dalek`: what it signs verifies.
pub record Signer (env : Platform) : Type 0 where
  pub pubkey : ℕ
  pub raw : List ℕ
  pub sign : ℕ → ℕ
  pub hex_decode-pubkey : env.hex_decode pubkey ≡ some raw
  pub raw-length : length raw ≡ 32
  pub sign-verifies : (text : ℕ) → env.sig_verify pubkey text (sign text) ≡ true

module _ (env : Platform) where
  abbrev pub address : Signer env → ℕ
  address signer = env.address_from_pubkey signer.raw

  module _ (ext : Externals env) (rules : Rules) where
    unfoldable pub current_attempt : Store env → Duty → ℕ
    current_attempt s duty =
        let parent_ts : ℕ = elim (tip_height env s) [
          | none ↦ 0
          | some tip ↦ parent_time env ext rules s tip
        ] in
        let slot = max rules.block_time_ms 1 in
        if parent_ts == 0
        then min ((duty.now - duty.tip_seen_ms) % u64_mod / slot) max_leader_attempts
        else (duty.now - parent_ts) % u64_mod / slot - 1

    -- The loop over the batch: the transactions that went through, their fees and the store.
    unfoldable pub pack : Store env → ℕ → ℕ → List Transaction → List Transaction × ℕ × Store env
    pack s height fees [] = ([], fees, s)
    pack s height fees (tx ∷ txs) =
        let (r, s') = apply_tx env ext rules.shielded_activation s tx height in
        elim r [
          | err e ↦ pack s height fees txs
          | ok fee ↦
              let (included, total, s'') = pack s' height (u128_add fees fee) txs in
              (tx ∷ included, total, s'')
        ]

    -- The tests after which the slot is left to others.
    unfoldable pub declines : Duty → Signer env → Option SignGuard → Store env → ℕ → Bool
    unfolding may_sign tip_hash current_attempt
    declines duty signer guard s tip =
        let height = u64_add tip 1 in
        let set = validator_set env s in
        let lags = not duty.solo && ltb (u64_add tip produce_lag_tolerance) duty.best_peer_height in
        let signed : Bool = elim guard [ none ↦ false | some g ↦ not (may_sign g height) ] in
        let others : Bool =
          elim (elect_leader_attempt env set height (tip_hash env ext rules s)
            (current_attempt s duty)) [
              | none ↦ false
              | some leader ↦ not (leader == address signer) && not duty.solo
            ] in
        lags || signed || others || length set == 0 && not duty.solo

    -- The block's effects after its transactions.
    unfoldable pub finish_store : Store env → ℕ → ℕ → ℕ → ℕ → Store env
    finish_store s height parent_hash producer fees =
        let released = (release_unbonded env s height).0 in
        let charged =
          record_liveness env rules.slashing_activation released height parent_hash producer in
        seal_shielded_root env ext rules.shielded_activation (pay_rewards env charged producer fees)
          height

    unfoldable pub seal_block : Duty → Signer env → Store env → ℕ → ℕ → List Transaction → Block
    unfolding header_text compute_hash state_root_at
    seal_block duty signer s height parent_hash included =
        let unsigned : Block = record {
          height = height;
          parent_hash = parent_hash;
          timestamp_ms = duty.sealed_at;
          state_root = state_root_at env ext rules s height;
          txs_root = root_of_txs env ext rules included;
          producer = address signer;
          producer_pubkey = signer.pubkey;
          transactions = included;
          signature = env.empty_text;
          hash = env.empty_text;
        } in
        let signed = record unsigned { signature = signer.sign (header_text env unsigned) } in
        record signed { hash = compute_hash env signed }

    -- The block and the new base fee are stored, and waiting votes are counted.
    unfoldable pub keep_block : Node env → Store env → Block → Node env
    unfolding put_block
    keep_block node s b =
        let stored = put_block env ext rules s b in
        let s' =
          set_base_fee env stored (next_base_fee (base_fee env stored) (length b.transactions)) in
        let (final, votes, s'') = replay_pending env s' node.votes b.height in
        record node { store = s''; votes = votes }

    module _ (format : Format) where
      unfoldable pub seal_next :
          Duty → Signer env → Option SignGuard → Node env → ℕ → Block × Node env × Option SignGuard
      unfolding pack finish_store seal_block keep_block record_height tip_hash
      seal_next duty signer guard node tip =
          let height = u64_add tip 1 in
          let parent_hash = tip_hash env ext rules node.store in
          let (batch, pool) = take_batch max_txs_per_block node.mempool in
          let (included, fees, s) = pack node.store height 0 batch in
          let s' = finish_store s height parent_hash (address signer) fees in
          let b = seal_block duty signer s' height parent_hash included in
          let guard' : Option SignGuard = elim guard [
            | none ↦ none
            | some g ↦ some (record_height format g height duty.written)
          ] in
          (b, keep_block (record node { mempool = pool }) s' b, guard')

      unfoldable pub produce_block :
          Duty
          → Signer env
          → Option SignGuard
          → Node env
          → Result BlockError (Option Block) × Node env × Option SignGuard
      unfolding declines seal_next
      produce_block duty signer guard node =
          if duty.serving_only || duty.halted
          then (ok none, node, guard)
          else elim (tip_height env node.store) [
            | none ↦ (err not_initialized, node, guard)
            | some tip ↦
                if declines duty signer guard node.store tip
                then (ok none, node, guard)
                else (let (b, node', guard') = seal_next duty signer guard node tip in
                    (ok (some b), node', guard'))
          ]
