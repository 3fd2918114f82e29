-- ===== src/Types/Laws.antt =====
-- The account predicates and `unbonding_total` of src/types.rs.
use inazuma_core.Base.{
  ℕ, ◌+◌, ◌≤◌, ◌<◌, ◌≡◌, ◌↔◌, true, false, List, [], ◌∷◌, arith, u128_add, u128_add-eq, u128_mod,
  sum_by,
}
use inazuma_core.Types.{
  Account, Unbond, sum_from, unbonding_total, is_active_validator, is_jailed, min_stake,
}

-- At any height an account validates exactly when it bonds the minimum stake and is not jailed.
pub is_active_validator-is_jailed :
    (height : ℕ) (a : Account)
    → (is_active_validator height a ≡ true)
      ↔ ((min_stake ≤ a.staked) × (is_jailed height a ≡ false))
unfolding is_active_validator is_jailed
is_active_validator-is_jailed height a = ground arith

abbrev pub unbonding_sum : List Unbond → ℕ
unbonding_sum us = sum_by (λ u. u.amount) us

sum_from-eq :
    (acc : ℕ) (us : List Unbond)
    → acc + unbonding_sum us < u128_mod
    → sum_from acc us ≡ acc + unbonding_sum us
unfolding sum_from
sum_from-eq acc [] h = omega arith
sum_from-eq acc (u ∷ us) h =
    let e : u128_add acc u.amount ≡ acc + u.amount = u128_add-eq acc u.amount (omega arith) in
    omega (arith, e, sum_from-eq (u128_add acc u.amount) us (omega (arith, e)))

-- The machine sum of the unbonding entries is their exact sum, as long as that fits a word.
pub unbonding_total-eq :
    (a : Account)
    → unbonding_sum a.unbonding < u128_mod
    → unbonding_total a ≡ unbonding_sum a.unbonding
unfolding unbonding_total
unbonding_total-eq a h = omega (arith, sum_from-eq 0 a.unbonding (omega arith))
