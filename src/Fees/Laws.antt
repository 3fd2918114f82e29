-- ===== src/Fees/Laws.antt =====
-- `next_base_fee` and `required_fee` of src/fees.rs.
use inazuma_core.Base.{
  ℕ, ◌+◌, ◌-◌, ◌*◌, ◌/◌, ◌≤◌, ◌≡◌, ◌⊎◌, inl, inr, min, max, leb, Bool-cases, arith, u128_add-eq,
  u128_mul-eq,
}
use inazuma_core.Types.{min_fee}
use inazuma_core.Fees.{
  next_base_fee, required_fee, max_base_fee, target_txs_per_block, max_change_pct,
}
use native.Mathlib.Nat.{mul-le-mul, mul-le-mul_left}

-- Whatever the load and the fee before, the next fee lies between the floor and the ceiling, so that
-- a height never asks for less than the floor.
pub next_base_fee_bounds :
    (prev txs height : ℕ)
    → (min_fee ≤ next_base_fee prev txs)
      × (next_base_fee prev txs ≤ max_base_fee)
      × (min_fee ≤ required_fee height (next_base_fee prev txs))
unfolding next_base_fee required_fee
next_base_fee_bounds prev txs height = ground arith

-- The largest step from a fee: 12% of it, and at least one unit.
abbrev pub step : ℕ → ℕ
step prev = max (prev * max_change_pct / 100) 1

product_small : (prev k : ℕ) → prev ≤ max_base_fee → k ≤ 2_500 → step prev * k ≤ 120_000_000 * 2_500
product_small prev k high h =
    mul-le-mul {n₁ = step prev} {m₁ = k} {n₂ = 120_000_000} {m₂ = 2_500} (omega arith) h

share-le : (prev k : ℕ) → k ≤ 2_500 → step prev * k / 2_500 ≤ step prev
share-le prev k h = omega (arith, mul-le-mul_left {m = k} {n = 2_500} (step prev) h)

-- From a fee in range, a block at or above target, and within the limit of 5,000, never lowers the
-- fee, and raises it by 12% at most.
pub next_base_fee_rises :
    (prev txs : ℕ)
    → min_fee ≤ prev
    → prev ≤ max_base_fee
    → txs ≤ 5_000
    → target_txs_per_block ≤ txs
    → (prev ≤ next_base_fee prev txs) × (next_base_fee prev txs ≤ prev + step prev)
unfolding next_base_fee
next_base_fee_rises prev txs low high few busy =
    let k = txs - 2_500 in
    ground (
      arith,
      product_small prev k high (omega arith),
      share-le prev k (omega arith),
      u128_mul-eq prev 12 (omega arith),
      u128_mul-eq (step prev) k,
      u128_add-eq prev (step prev * k / 2_500),
    )

-- From a fee in range, a block at or below target never raises the fee, and lowers it by 12% at most.
pub next_base_fee_falls :
    (prev txs : ℕ)
    → min_fee ≤ prev
    → prev ≤ max_base_fee
    → txs ≤ target_txs_per_block
    → (next_base_fee prev txs ≤ prev) × (prev ≤ next_base_fee prev txs + step prev)
unfolding next_base_fee
next_base_fee_falls prev txs low high quiet =
    let k = 2_500 - txs in
    ground (
      arith,
      product_small prev k high (omega arith),
      share-le prev k (omega arith),
      u128_mul-eq prev 12 (omega arith),
      u128_mul-eq (step prev) k,
    )

-- The fee from a fee in range after a block of so many transactions: a block above the target raises
-- it by the share of the step that its excess has in the target, up to the ceiling, one below lowers
-- it likewise, down to the floor.
abbrev pub Moves : ℕ → ℕ → Type 0
Moves prev txs =
    ((target_txs_per_block ≤ txs)
      × (next_base_fee prev txs ≡ min (prev + step prev * (txs - 2_500) / 2_500) max_base_fee)
      × (prev ≤ next_base_fee prev txs)
      × (next_base_fee prev txs ≤ prev + step prev))
    ⊎ ((txs ≤ target_txs_per_block)
        × (next_base_fee prev txs ≡ max (prev - step prev * (2_500 - txs) / 2_500) min_fee)
        × (next_base_fee prev txs ≤ prev)
        × (prev ≤ next_base_fee prev txs + step prev))

next_base_fee_up :
    (prev txs : ℕ)
    → min_fee ≤ prev
    → prev ≤ max_base_fee
    → txs ≤ 5_000
    → target_txs_per_block ≤ txs
    → next_base_fee prev txs ≡ min (prev + step prev * (txs - 2_500) / 2_500) max_base_fee
unfolding next_base_fee
next_base_fee_up prev txs low high few busy =
    let k = txs - 2_500 in
    ground (
      arith,
      product_small prev k high (omega arith),
      share-le prev k (omega arith),
      u128_mul-eq prev 12 (omega arith),
      u128_mul-eq (step prev) k,
      u128_add-eq prev (step prev * k / 2_500),
    )

next_base_fee_down :
    (prev txs : ℕ)
    → min_fee ≤ prev
    → prev ≤ max_base_fee
    → txs ≤ target_txs_per_block
    → next_base_fee prev txs ≡ max (prev - step prev * (2_500 - txs) / 2_500) min_fee
unfolding next_base_fee
next_base_fee_down prev txs low high quiet =
    let k = 2_500 - txs in
    ground (
      arith,
      product_small prev k high (omega arith),
      share-le prev k (omega arith),
      u128_mul-eq prev 12 (omega arith),
      u128_mul-eq (step prev) k,
    )

-- From a fee in range and for at most 5,000 transactions, a block above the target of 2,500 raises the
-- fee by the share of the step that its excess has in the target, up to the ceiling, and a block
-- below the target lowers it likewise, down to the floor. The step is 12% of the fee, and at least
-- one unit, so that no block moves the fee further; nothing wraps around on the way.
pub next_base_fee-Moves :
    (prev txs : ℕ) → min_fee ≤ prev → prev ≤ max_base_fee → txs ≤ 5_000 → Moves prev txs
next_base_fee-Moves prev txs low high few = elim (Bool-cases (leb target_txs_per_block txs)) [
  | inl e ↦
      let busy : target_txs_per_block ≤ txs = ground (arith, e) in
      let (rises, most) = next_base_fee_rises prev txs low high few busy in
      inl (busy, next_base_fee_up prev txs low high few busy, rises, most)
  | inr e ↦
      let quiet : txs ≤ target_txs_per_block = ground (arith, e) in
      let (falls, most) = next_base_fee_falls prev txs low high quiet in
      inr (quiet, next_base_fee_down prev txs low high quiet, falls, most)
]
