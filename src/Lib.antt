-- ===== src/Lib.antt =====
-- Inazuma Core, the node of a proof-of-stake chain: the rules that decide accounts, stake, slashing,
-- tokens, fees and finality-critical signing, as functions over explicit state.
--
-- How the program is built. A node executes transactions and blocks (src/chain.rs) against a store
-- (src/state.rs) that keeps accounts, an index of the accounts with stake, a token ledger, slashes and
-- a few meta entries in the trees of a sled database, and writes every change of the consensus trees
-- through an undo log (src/journal.rs). Validators are the accounts with enough stake
-- (src/staking.rs); they are elected by a draw over their stake, paid for blocks, charged for the
-- slots they miss, and slashed when they sign twice (src/slashing.rs). Tokens (src/tokens.rs), contracts
-- (src/contracts.rs), the shielded pool and the fee market (src/fees.rs) are rules over the same
-- store. The store's leaves are committed to by a sparse Merkle tree (src/smt.rs), and the votes of the
-- validators make blocks final (src/consensus.rs). Before a transaction reaches a block it
-- waits in the pool (src/mempool.rs). The elected validator packs the pool into a block, which the
-- other nodes import by running it again. A key signs behind a guard with a file of its own
-- (src/signguard.rs), and the listeners count connections and score peers (src/limits.rs).
--
-- What models what:
--   Base (Tests, Lists, Words, Maps, Sums, Entries): Boolean tests, results, machine words, and maps
--     as ascending lists of entries, with their lemmas.
--   Platform: what the node calls and what stays opaque; Platform.Sample is a concrete instance.
--   Types, Records, Transactions: the structs and constants of src/types.rs, src/consensus.rs,
--     src/slashing.rs and src/tokens.rs.
--   State: `Store`, with Accounts, Supply, Index and Ledger. `set_account` writes the account, its
--     Merkle leaf and the staker index as the code does; `credit_token` and `debit_token` return their
--     result beside the new store.
--   Staking: `validator_set_at`, `elect_leader_attempt`, `pay_rewards`, `release_unbonded`.
--   Slashing: `Evidence::verify` is verify_evidence, `check_report` splits off check_evidence, and
--     the part of `apply_report` that writes is punish.
--   Liveness: `record_liveness`, its loops find_used, find_missed and charge_all; Liveness.charge_miss
--     is the body of the last one.
--   Tokens: `check_create`, `check_mint`, `check_token_transfer`, `check_burn`, and their `apply_`
--     counterparts.
--   Fees: `next_base_fee`, `required_fee`.
--   Journal: `begin`, `record`, `commit`, `rollback`, and `jput` and `jdel` of src/state.rs.
--   Mempool: `insert` is insert_tx, the filter of `remove_hashes` is drop_confirmed; Mempool.Batch:
--     `take_batch` with its loops select_pass, select_rounds and split_ranked.
--   Signguard: `open` is open_guard, `record` is record_height.
--   Limits: ConnGuard, IpConnCounter, PeerBook. One round of the `try_acquire` loop is
--     try_acquire_round, so that other threads can move between the load and the exchange.
--   Externals: the packages and opaque functions that execution calls; Execution.Sample has concrete
--     ones.
--   Guest: the program that the wasmi package runs, as the tree of the host functions that it calls.
--   Contracts: the checks around a run of a contract and the contract trees. Contracts.Host: `execute` and
--     the closures of `link_host` (host_call, with write_key, queue_transfer and push_log); Within and
--     Outcomes lead from one call to the whole run.
--   Shielded: `check_shielded_shape`, `apply_shielded` (apply_shield, apply_spend with its end settle),
--     `seal_shielded_root` and the pool's trees.
--   Execution: `apply_tx`. Its first `match` is check_tx, the second run_kind, with the arms of contracts
--     in apply_deploy, apply_call and finish_call. Execution.Coins, Pool, Calls, Moves and Kinds lead to
--     Execution.Conservation.
--   Smt: `set`, `proof`, `verify_proof`, with Nodes, Sets, Proofs and Binding.
--   Votes: `VoteTracker`. `add` is split where it holds a vote (hold_vote) and counts one (count_vote).
--   Blocks: `put_block`, and `import_block` with its tests (check_block), its execution (apply_all,
--     account_block, execute_block) and its end (store_block); Blocks.Kept and Blocks.Issuance.
--   Production: `produce_block`, with its tests (declines), its loop (pack) and its end (seal_next,
--     seal_block, keep_block), and `current_attempt`; Packing, Elected and Sealed lead to Agreement
--     with Blocks, and Guarded is the part of the sign guard.
--   TxsRoot: `txs_root`, its `while` loop in fold_level. Signing: `canonical_signing_bytes`, whose
--     pieces are read back in Bytes, Pieces and Optional, and `signing_bytes`; Signing.Verify:
--     `hash` is tx_hash, and `verify_signature`.
--   Notes: `root_from_leaves`, `merkle_path` and `verify_path` of src/shielded.rs.
--   Admission: `precheck_tx` and `admit`, its `match` in admit_kind and its end in enqueue.
--   Timing: `check_reorg_depth`, `check_timestamp`, `leader_attempt_window` of src/chain.rs.
--   Tests: runs at concrete stores, and each result at a concrete input.
--
-- How it is modelled. Text that the rules only compare (addresses, hashes, ids, keys) is a number.
-- Numbers are natural numbers; in a release build `+`, `-` and `*` wrap, and so do u64_add, u128_add,
-- u128_sub and u128_mul, while the saturating and checked methods have functions of their own. A
-- result that needs a sum to fit a word says so. An `i32` score is held with 2^31 added. A sled tree
-- is a type with an ordered list of entries and the laws of an ordered map; `sort_by` is an insertion
-- sort. SHA-256, Ed25519, hex, base58 and JSON are functions without laws, but that Smt asks a hash
-- for 32 bytes, that what a producer's key signs verifies, and that a condition of a result may say
-- that a text is determined by its bytes or its hex. The functions of the source
-- over the content of texts (`token_id`, `normalize_symbol`, `delimiter_free`, the signed texts of votes and
-- headers, the texts that name a slash) and `Smt::set` are parameters too: no rule here depends on more than that
-- they are functions, and the ledger key can be taken apart. Lines that print are left out.
--
-- Loops are recursion on the list or on the number of rounds that the code fixes
-- (MAX_LEADER_ATTEMPTS). The `while` loop of `take_batch` has fuel for two rounds more than there are
-- entries, and selects nothing where that runs out: a round that another follows takes an entry, and
-- the last unit is for the test that ends the loop. The `while` loop of `txs_root` has fuel for as many
-- rounds as there are digests, and each round halves them. A tree of notes has 32 levels.
--
-- Not modelled: batches of transactions at admission, genesis and resets in src/chain.rs; the WASM
-- engine (the wasmi package); the field, Poseidon and Groth16 of the shielded pool (arkworks
-- packages) and its circuit; the two state roots, snapshots; the token buckets and quality of service (floating point); and RPC, peer-to-peer
-- transport, metrics, the command line and test code (input and output). The journal of the store is
-- a module of its own: an operation that fails half-way returns the store as it left it, and
-- `import_block` gives back the old one.
pub mod Base
pub mod Types
pub mod Records
pub mod Platform
pub mod State
pub mod Tokens
pub mod Slashing
pub mod Staking
pub mod Fees
pub mod Journal
pub mod Liveness
pub mod Signguard
pub mod Limits
pub mod Timing
pub mod Transactions
pub mod Mempool
pub mod Guest
pub mod Externals
pub mod Contracts
pub mod Shielded
pub mod Signing
pub mod Execution
pub mod Smt
pub mod Votes
pub mod Notes
pub mod TxsRoot
pub mod Blocks
pub mod Production
pub mod Admission
mod Tests
