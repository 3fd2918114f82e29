-- ===== src/Tests/Production.antt =====
-- The validator 7 packs the pool on top of the block at height 4: a transfer of 8, and one with a
-- stale nonce, which is left out.
use inazuma_core.Base.{◌+◌, ◌≡◌, List, refl, true, false, some, none, [], ◌∷◌, arith, ok, err}
use inazuma_core.Platform.Sample.{sample, raw_key}
use inazuma_core.Transactions.{Transaction, Block, header_text, compute_hash, is_shielded}
use inazuma_core.Staking.{elect_leader_attempt, total_stake, stake_from, walk}
use inazuma_core.Execution.Sample.{packages}
use inazuma_core.Mempool.{new, insert_tx, pending_for, decrement, remove_hashes}
use inazuma_core.Mempool.Batch.{
  take_batch, select_rounds, select_pass, select_one, split_ranked, batch_order, rank_of,
}
use inazuma_core.Signguard.{SignGuard, saved, may_sign, record_height, open_guard, parse}
use inazuma_core.Signguard.History.{Synced, rising}
use inazuma_core.Signing.Verify.{verify_signature}
use inazuma_core.TxsRoot.{txs_root, fold_level}
use inazuma_core.Fees.{required_fee}
use inazuma_core.Timing.{check_timestamp}
use inazuma_core.State.{base_fee}
use inazuma_core.Blocks.{
  Node, tip_hash, state_root_at, import_block, hashes_of, check_txs, fee_below_base,
}
use inazuma_core.Production.{
  Duty, Signer, produce_block, declines, current_attempt, seal_next, pack, seal_block,
}
use inazuma_core.Production.Agreement.{produced-imported, produced-refused}
use inazuma_core.Production.Guarded.{Turn, produce, restart, sealed, sealed-rising}
use inazuma_core.Platform.Pairs.{pair, left_of, right_of, left_of-pair, right_of-pair}
use inazuma_core.Tests.Stores.{two_accounts}
use inazuma_core.Votes.{block_at}
use inazuma_core.Tests.Execution.{transfer_tx}
use inazuma_core.Tests.Blocks.{rules, node, block_run}
use inazuma_core.Tests.Signguard.{format}

abbrev signer : Signer sample
signer = record {
  pubkey = 7;
  raw = raw_key 7;
  sign = λ text. 7 + text;
  hex_decode-pubkey = refl;
  raw-length = refl;
  sign-verifies = λ text. ground arith;
}

abbrev duty : Duty
duty = record {
  serving_only = false;
  halted = false;
  solo = false;
  best_peer_height = 5;
  tip_seen_ms = 1_000;
  now = 1_300;
  sealed_at = 1_310;
  written = saved;
}

abbrev guard : SignGuard
guard = record { address = 7; highest = 4; file = none }

abbrev paid_tx : Transaction
paid_tx = record transfer_tx { fee = 1_000 }

abbrev stale_tx : Transaction
stale_tx = record transfer_tx { nonce = 3; from_pubkey = 9 }

abbrev producer_node : Node sample
producer_node = record node { mempool = insert_tx (insert_tx new paid_tx 11 8) stale_tx 12 9 }

abbrev five : Block
five = record {
  height = 5;
  parent_hash = 0;
  timestamp_ms = 1_310;
  state_root = 0;
  txs_root = 0;
  producer = 7;
  producer_pubkey = 7;
  transactions = paid_tx ∷ [];
  signature = 1_322;
  hash = 2_637;
}

production_run : Unit {0}
unfolding block_run produce_block declines current_attempt seal_next pack seal_block take_batch
    may_sign tip_hash insert_tx header_text compute_hash state_root_at elect_leader_attempt
    total_stake stake_from walk select_rounds select_pass select_one split_ranked batch_order
    decrement rank_of pending_for block_at txs_root fold_level verify_signature is_shielded
production_run = tt

produces :
    (produce_block sample packages rules format duty signer (some guard) producer_node).0
    ≡ ok (some five)
unfolding production_run
produces = refl

produced-imported_example :
    import_block sample packages rules 1_400 false (record producer_node { mempool = new }) five ≡ (
      ok true,
      record (produce_block sample packages rules format duty signer (some guard) producer_node).1 {
        mempool = remove_hashes new (hashes_of sample packages rules five.transactions);
      },
    )
unfolding production_run check_timestamp check_txs required_fee base_fee
produced-imported_example =
    produced-imported sample packages rules format duty signer (some guard) producer_node 4 1_400
      new five produces refl (omega arith) refl (omega arith) (omega arith) (omega arith)
      (omega arith) (omega arith) refl refl

-- The base fee has risen to 5,000 since the transfer was queued.
abbrev dear_node : Node sample
dear_node = record producer_node {
  store = record two_accounts { tip = some 199_999; fee = some 5_000 };
}

abbrev cheap_block : Block
cheap_block = record five { height = 200_000; signature = 201_317; hash = 402_627 }

produces_cheap :
    (produce_block sample packages rules format duty signer (some guard) dear_node).0
    ≡ ok (some cheap_block)
unfolding production_run
produces_cheap = refl

produced-refused_example :
    import_block sample packages rules 1_400 false (record dear_node { mempool = new }) cheap_block
    ≡ (err fee_below_base, record dear_node { mempool = new })
unfolding production_run check_timestamp check_txs required_fee base_fee
produced-refused_example =
    produced-refused sample packages rules format duty signer (some guard) dear_node 199_999 1_400
      new cheap_block fee_below_base produces_cheap refl (omega arith) refl (omega arith)
      (omega arith) (omega arith) (omega arith) (omega arith) refl refl

abbrev later_node : Node sample
later_node = record producer_node { store = record two_accounts { tip = some 9 }; mempool = new }

-- A guard whose file says what it remembers.
abbrev kept_guard : SignGuard
kept_guard = record guard { file = some (pair 7 4) }

kept_guard-Synced : Synced format kept_guard
unfolding open_guard parse
kept_guard-Synced = record { remembers = ground (arith, left_of-pair 7 4, right_of-pair 7 4) }

-- The producer seals on the block at height 4, is restarted, is asked again on the same state, and
-- then on a later one.
abbrev history : List (Turn sample packages rules format)
history =
    produce duty signer producer_node
    ∷ restart
    ∷ produce duty signer producer_node
    ∷ produce duty signer later_node
    ∷ []

seals_twice : sealed sample packages rules format kept_guard history ≡ 5 ∷ 10 ∷ []
unfolding production_run record_height sealed open_guard parse pair left_of right_of
seals_twice = refl

sealed-rising_example : rising 4 (sealed sample packages rules format kept_guard history) ≡ true
sealed-rising_example =
    sealed-rising sample packages rules format kept_guard history kept_guard-Synced
