-- ===== src/Staking/Sets.antt =====
-- `validator_set_at` of src/staking.rs: its members and its size.
use inazuma_core.Base.{
  length-sort_by, ℕ, zero, suc, ◌≤◌, ◌≡◌, refl, Bool, true, false, List, [], ◌∷◌, Dict, arith,
  length, take, leb, if◌then◌else◌, insert_by, sort_by,
}
use inazuma_core.Platform.{Platform}
use inazuma_core.Types.{Account, min_stake, is_active_validator}
use inazuma_core.State.{Store, stake_accounts}
use inazuma_core.Staking.{
  Validator, active_validators, validator_set_at, stake_order, address_order, max_validators,
  validator_cap_activation_height,
}

-- Bonded with the minimum stake, and not removed for a fault.
abbrev pub is_eligible : Validator → Bool
is_eligible v = if leb min_stake v.stake then (if v.tombstoned then false else true) else false

abbrev pub all_eligible : List Validator → Bool
all_eligible [] = true
all_eligible (v ∷ set) = if is_eligible v then all_eligible set else false

module _ (le : Validator → Validator → Bool) where
  insert_by-eligible :
      (v : Validator) (set : List Validator)
      → is_eligible v ≡ true
      → all_eligible set ≡ true
      → all_eligible (insert_by le v set) ≡ true
  insert_by-eligible v [] h hs = ground (arith, h)
  insert_by-eligible v (w ∷ set) h hs = ground (arith, h, insert_by-eligible v set h)

  sort_by-eligible :
      (set : List Validator) → all_eligible set ≡ true → all_eligible (sort_by le set) ≡ true
  sort_by-eligible [] h = refl
  sort_by-eligible (v ∷ set) h =
      insert_by-eligible v (sort_by le set) (ground arith) (sort_by-eligible set (ground arith))

take-eligible :
    (n : ℕ) (set : List Validator) → all_eligible set ≡ true → all_eligible (take n set) ≡ true
take-eligible zero set h = refl
take-eligible (suc n) [] h = refl
take-eligible (suc n) (v ∷ set) h = ground (arith, take-eligible n set)

length-take-le : (n : ℕ) (set : List Validator) → length (take n set) ≤ n
length-take-le zero set = omega arith
length-take-le (suc n) [] = omega arith
length-take-le (suc n) (v ∷ set) = omega (arith, length-take-le n set)

active_validators-eligible :
    (height : ℕ) (d : Dict Account) → all_eligible (active_validators height d) ≡ true
unfolding active_validators is_active_validator
active_validators-eligible height [] = refl
active_validators-eligible height ((k, a) ∷ d) = ground (arith, active_validators-eligible height d)

module _ (env : Platform) (s : Store env) (height : ℕ) where
  -- At any height every validator of the set bonds the minimum stake and is not tombstoned.
  pub validator_set_at-eligible : all_eligible (validator_set_at env s height) ≡ true
  unfolding validator_set_at
  validator_set_at-eligible =
      let set = active_validators height (stake_accounts env s) in
      let h = active_validators-eligible height (stake_accounts env s) in
      ground (
        arith,
        h,
        sort_by-eligible address_order (take max_validators (sort_by stake_order set)) (
            take-eligible max_validators (sort_by stake_order set)
              (sort_by-eligible stake_order set h)),
      )

  -- From the activation height on the set has at most 100 members.
  pub length-validator_set_at-le :
      validator_cap_activation_height ≤ height
      → length (validator_set_at env s height) ≤ max_validators
  unfolding validator_set_at
  length-validator_set_at-le active =
      let set = active_validators height (stake_accounts env s) in
      ground (
        arith,
        length-sort_by address_order (take max_validators (sort_by stake_order set)),
        length-take-le max_validators (sort_by stake_order set),
      )
