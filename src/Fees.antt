-- ===== src/Fees.antt =====
-- The fee market, src/fees.rs: the base fee of the next block, and the fee that a height asks for.
pub mod Laws
use inazuma_core.Base.{ℕ, ◌-◌, ◌+◌, ◌*◌, ◌/◌, min, max, if◌then◌else◌, ltb, u128_add, u128_mul}
use inazuma_core.Types.{min_fee}

-- `MAX_TXS_PER_BLOCK` of src/chain.rs, halved.
abbrev pub target_txs_per_block : ℕ
target_txs_per_block = 5_000 / 2

abbrev pub fee_market_activation_height : ℕ
fee_market_activation_height = 200_000

abbrev pub max_change_pct : ℕ
max_change_pct = 12

abbrev pub max_base_fee : ℕ
max_base_fee = 1_000_000_000

unfoldable pub next_base_fee : ℕ → ℕ → ℕ
next_base_fee prev txs =
    let prev = max prev min_fee in
    let step = max (u128_mul prev max_change_pct / 100) 1 in
    let next =
      if ltb target_txs_per_block txs
      then u128_add prev (u128_mul step (txs - target_txs_per_block) / target_txs_per_block)
      else (if ltb txs target_txs_per_block
          then prev - u128_mul step (target_txs_per_block - txs) / target_txs_per_block
          else prev) in
    min (max next min_fee) max_base_fee

unfoldable pub required_fee : ℕ → ℕ → ℕ
required_fee height base_fee =
    if ltb height fee_market_activation_height then min_fee else max base_fee min_fee
