-- ===== src/Tests.antt =====
-- The theorems at concrete stores, with the runs that produce them.
mod Stores
mod Slashing
mod Staking
mod Tokens
mod Journal
mod Fees
mod Liveness
mod Signguard
mod Limits
mod Mempool
mod Timing
mod Execution
mod Contracts
mod Smt
mod Votes
mod Blocks
mod Production
mod Admission
mod Notes
mod Signing
mod TxsRoot
