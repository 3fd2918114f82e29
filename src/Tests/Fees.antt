-- ===== src/Tests/Fees.antt =====
-- The base fee after a full, an empty and a half-full block.
use inazuma_core.Base.{arith, ◌≡◌, refl, u128_add, u128_mul}
use inazuma_core.Fees.{next_base_fee}
use inazuma_core.Fees.Laws.{Moves, next_base_fee-Moves}

moves :
    (next_base_fee 10_000 5_000 ≡ 11_200)
    × (next_base_fee 10_000 0 ≡ 8_800)
    × (next_base_fee 10_000 2_500 ≡ 10_000)
unfolding next_base_fee u128_add u128_mul
moves = (refl, refl, refl)

next_base_fee-Moves_example : Moves 10_000 4_000
next_base_fee-Moves_example =
    next_base_fee-Moves 10_000 4_000 (omega arith) (omega arith) (omega arith)
