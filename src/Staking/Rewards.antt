-- ===== src/Staking/Rewards.antt =====
-- `pay_rewards` of src/staking.rs against the supply.
use inazuma_core.Base.{
  ℕ, ◌+◌, ◌-◌, ◌*◌, ◌/◌, ◌≤◌, ◌<◌, ◌≡◌, refl, ap, ◌∙◌, List, [], ◌∷◌, arith, ◌==◌, if◌then◌else◌,
  u128_mod, u128_add, u128_sub, u128_mul, u128_add-eq, u128_sub-eq, u128_mul-eq,
}
use native.Mathlib.Nat.{div-mul-le_self, le_of_mul-le-mul_right, mul-le-mul_left}
use inazuma_core.Platform.{Platform}
use inazuma_core.State.{Store, account, set_account}
use inazuma_core.State.Supply.{supply, supply-set_account, worth-le-supply}
use inazuma_core.Staking.{
  Validator, validator_set, total_stake, credit, share_out, paid, pay_rewards, block_reward,
  leader_commission_pct,
}
use inazuma_core.Staking.Election.{stake_sum, total_stake-eq}

-- The part of a reward that goes to a stake, rounded down.
abbrev cut_of : ℕ → ℕ → ℕ → ℕ
cut_of shared total stake = shared * stake / total

cut_times : (shared total stake : ℕ) → cut_of shared total stake * total ≤ shared * stake
cut_times shared total stake = div-mul-le_self (shared * stake) total

cut_bound :
    (shared total given stake distributed : ℕ)
    → 0 < total
    → distributed * total ≤ shared * given
    → given + stake ≤ total
    → distributed + cut_of shared total stake ≤ shared
cut_bound shared total given stake distributed pos prop bound =
    le_of_mul-le-mul_right {m = distributed + cut_of shared total stake} {n = shared} {k = total}
      (omega (
        arith,
        cut_times shared total stake,
        mul-le-mul_left {m = given + stake} {n = total} shared bound,
      ))
      pos

module _ (env : Platform) where
  credited_supply :
      (s : Store env) (address cut : ℕ)
      → supply env s + cut < u128_mod
      → supply env (if cut == 0 then s else credit env s address cut) ≡ supply env s + cut
  unfolding credit
  credited_supply s address cut fits =
      let a = account env s address in
      ground (
        arith,
        worth-le-supply env s address,
        u128_add-eq a.balance cut,
        supply-set_account env s address
            (record a { balance = a.balance + cut; rewards = u128_add a.rewards cut }),
      )

  share_out_step :
      (shared total : ℕ) (v : Validator) (set : List Validator) (s : Store env)
      (distributed cut : ℕ)
      → u128_mul shared v.stake / total ≡ cut
      → (if cut == 0 then distributed else u128_add distributed cut) ≡ distributed + cut
      → share_out env shared total (v ∷ set) s distributed
        ≡ share_out env shared total set
            (if cut == 0 then s else credit env s v.address cut)
            (distributed + cut)
  unfolding share_out
  share_out_step shared total v set s distributed cut e d =
      ap
        (λ (m : ℕ).
          share_out env shared total set (if m == 0 then s else credit env s v.address m)
            (if m == 0 then distributed else u128_add distributed m))
        e
      ∙ ap (share_out env shared total set (if cut == 0 then s else credit env s v.address cut)) d

  -- The shares of a part of the set: they are paid out, and are in proportion to its stake.
  share_out_lem :
      (shared total : ℕ) (set : List Validator) (s : Store env) (distributed given : ℕ)
      → 0 < total
      → distributed * total ≤ shared * given
      → given + stake_sum set ≤ total
      → shared * total < u128_mod
      → supply env s + shared < u128_mod + distributed
      → let (s', distributed') = share_out env shared total set s distributed in
        (supply env s' + distributed ≡ supply env s + distributed') × (distributed' ≤ shared)
  unfolding share_out
  share_out_lem shared total [] s distributed given pos prop bound fits room =
      (refl, omega (arith, cut_bound shared total given 0 distributed pos prop (omega arith)))
  share_out_lem shared total (v ∷ set) s distributed given pos prop bound fits room =
      let cut = cut_of shared total v.stake in
      let within : distributed + cut ≤ shared =
        cut_bound shared total given v.stake distributed pos prop (omega arith) in
      let small : shared < u128_mod =
        omega (arith, mul-le-mul_left {m = 1} {n = total} shared pos) in
      let e : u128_mul shared v.stake ≡ shared * v.stake =
        u128_mul-eq shared v.stake
          (omega (arith, mul-le-mul_left {m = v.stake} {n = total} shared (omega arith))) in
      let d : (if cut == 0 then distributed else u128_add distributed cut) ≡ distributed + cut =
        ground (arith, u128_add-eq distributed cut) in
      let s₁ = if cut == 0 then s else credit env s v.address cut in
      let p : supply env s₁ ≡ supply env s + cut = credited_supply s v.address cut (omega arith) in
      let ih =
        share_out_lem shared total set s₁ (distributed + cut) (given + v.stake) pos
          (omega (arith, cut_times shared total v.stake)) (omega arith) fits (omega (arith, p)) in
      rw (share_out_step shared total v set s distributed cut (rw e) d) (omega (arith, ih, p), ih.1)

  paid_supply :
      (s : Store env) (leader total reward : ℕ)
      → supply env s + total < u128_mod
      → supply env (set_account env s leader (paid env (account env s leader) total reward))
        ≡ supply env s + total
  paid_supply s leader total reward fits =
      let a = account env s leader in
      omega (
        arith,
        worth-le-supply env s leader,
        u128_add-eq a.balance total (omega (arith, worth-le-supply env s leader)),
        supply-set_account env s leader (paid env a total reward),
      )

  shares_supply :
      (s : Store env) (set : List Validator) (shared : ℕ)
      → 0 < stake_sum set
      → shared * stake_sum set < u128_mod
      → supply env s + shared < u128_mod
      → let (s', distributed) = share_out env shared (stake_sum set) set s 0 in
        (supply env s' ≡ supply env s + distributed) × (distributed ≤ shared)
  shares_supply s set shared pos fits room =
      let r =
        share_out_lem shared (stake_sum set) set s 0 0 pos (omega arith) (omega arith) fits
          (omega arith) in
      (omega (arith, r), r.1)

  commission-eq : u128_mul block_reward leader_commission_pct ≡ 200_000_000
  unfolding u128_mul
  commission-eq = refl

  shared-eq : u128_sub block_reward 2_000_000 ≡ 8_000_000
  unfolding u128_sub
  shared-eq = refl

  -- As long as the supply with the fees and the reward, and the reward times the stake of the validator
  -- set, fit a 128-bit word, a block pays out exactly its fees and its reward, so that the supply grows
  -- by these, whatever the rounding of the shares.
  pub supply-pay_rewards :
      (s : Store env) (leader fees : ℕ)
      → supply env s + fees + block_reward < u128_mod
      → block_reward * stake_sum (validator_set env s) < u128_mod
      → supply env (pay_rewards env s leader fees) ≡ supply env s + fees + block_reward
  unfolding pay_rewards
  supply-pay_rewards s leader fees fits stake_fits =
      let set = validator_set env s in
      let e : total_stake set ≡ stake_sum set = total_stake-eq set (omega arith) in
      let part = share_out env 8_000_000 (stake_sum set) set s 0 in
      let dust = 8_000_000 - part.1 in
      ground (
        arith,
        e,
        commission-eq,
        shared-eq,
        u128_add-eq fees block_reward (omega arith),
        u128_add-eq fees 2_000_000 (omega arith),
        u128_add-eq (fees + 2_000_000) dust,
        u128_sub-eq 8_000_000 part.1,
        paid_supply s leader (fees + block_reward) block_reward (omega arith),
        λ (pos : 0 < stake_sum set). shares_supply s set 8_000_000 pos (omega arith) (omega arith),
        paid_supply part.0 leader (fees + 2_000_000 + dust) (u128_add 2_000_000 dust),
      )
