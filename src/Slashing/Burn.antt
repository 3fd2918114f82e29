-- ===== src/Slashing/Burn.antt =====
-- `equivocation_burn_pct` of src/slashing.rs, and the burn of an account in `apply_report`.
use inazuma_core.Base.{
  ℕ, ◌+◌, ◌-◌, ◌*◌, ◌/◌, ◌≤◌, ◌<◌, ◌≡◌, refl, min, List, [], ◌∷◌, arith, ltb, retain, u128_mod,
  u128_add, u128_sub, u128_mul, u128_add-eq, u128_sub-eq, u128_mul-eq, u128_saturating_mul,
}
use inazuma_core.Types.{Account, Unbond}
use inazuma_core.Types.Laws.{unbonding_sum}
use inazuma_core.State.Supply.{worth}
use inazuma_core.Slashing.{equivocation_burn_pct, cut_unbonding, slash_account}

-- Between 5 and 100 percent of the stake is burned, whatever the stake and the total.
pub equivocation_burn_pct_bounds :
    (stake total : ℕ)
    → (5 ≤ equivocation_burn_pct stake total) × (equivocation_burn_pct stake total ≤ 100)
unfolding equivocation_burn_pct
equivocation_burn_pct_bounds stake total = ground arith

div_mono : (a b n : ℕ) → a ≤ b → a / n ≤ b / n
div_mono a b n h = grind arith

-- Of the same total, a larger stake never burns a smaller share.
pub equivocation_burn_pct_mono :
    (a b total : ℕ) → a ≤ b → equivocation_burn_pct a total ≤ equivocation_burn_pct b total
unfolding equivocation_burn_pct u128_saturating_mul
equivocation_burn_pct_mono a b total h = ground (
  arith,
  div_mono (min (a * 100) (u128_mod - 1)) (min (b * 100) (u128_mod - 1)) total (omega arith),
)

-- What is cut from an amount is that share of it, and no more than all of it.
cut-eq : (v pct : ℕ) → pct ≤ 100 → v * 100 < u128_mod → u128_mul v pct ≡ v * pct
cut-eq v pct h fits = u128_mul-eq v pct (grind arith)

cut-le : (v pct : ℕ) → pct ≤ 100 → v * pct / 100 ≤ v
cut-le v pct h = grind arith

share_mono : (v p q : ℕ) → p ≤ q → v * p / 100 ≤ v * q / 100
share_mono v p q h = grind arith

-- The cuts only move coins from the entries to the total.
cut_unbonding_sum :
    (pct burned : ℕ) (us : List Unbond)
    → pct ≤ 100
    → (burned + unbonding_sum us) * 100 < u128_mod
    → let (rest, total) = cut_unbonding pct burned us in
      unbonding_sum rest + total ≡ unbonding_sum us + burned
unfolding cut_unbonding
cut_unbonding_sum pct burned [] h fits = omega arith
cut_unbonding_sum pct burned (u ∷ us) h fits =
    let cut = u.amount * pct / 100 in
    let less : cut ≤ u.amount = cut-le u.amount pct h in
    let e : u128_mul u.amount pct ≡ u.amount * pct = cut-eq u.amount pct h (omega arith) in
    let add : u128_add burned cut ≡ burned + cut = u128_add-eq burned cut (omega (arith, less)) in
    let sub : u128_sub u.amount cut ≡ u.amount - cut =
      u128_sub-eq u.amount cut less (omega arith) in
    rw (e, add, sub)
      (omega (arith, less, cut_unbonding_sum pct (burned + cut) us h (omega (arith, less))))

unbonding_sum-retain :
    (us : List Unbond) → unbonding_sum (retain (λ u. ltb 0 u.amount) us) ≡ unbonding_sum us
unbonding_sum-retain [] = refl
unbonding_sum-retain (u ∷ us) = ground (arith, unbonding_sum-retain us)

-- A slash takes from the account exactly what it reports as taken.
pub worth-slash_account :
    (pct : ℕ) (a : Account)
    → pct ≤ 100
    → worth a * 100 < u128_mod
    → worth (slash_account pct a).0 + (slash_account pct a).1 ≡ worth a
unfolding slash_account
worth-slash_account pct a h fits =
    let cut = a.staked * pct / 100 in
    let less : cut ≤ a.staked = cut-le a.staked pct h in
    let e : u128_mul a.staked pct ≡ a.staked * pct = cut-eq a.staked pct h (omega arith) in
    let sub : u128_sub a.staked cut ≡ a.staked - cut =
      u128_sub-eq a.staked cut less (omega arith) in
    rw (e, sub, unbonding_sum-retain)
      (omega (arith, less, cut_unbonding_sum pct cut a.unbonding h (omega (arith, less))))

cut_unbonding-le :
    (pct burned : ℕ) (us : List Unbond)
    → pct ≤ 100
    → (burned + unbonding_sum us) * 100 < u128_mod
    → burned ≤ (cut_unbonding pct burned us).1
unfolding cut_unbonding
cut_unbonding-le pct burned [] h fits = omega arith
cut_unbonding-le pct burned (u ∷ us) h fits =
    let cut = u.amount * pct / 100 in
    let less : cut ≤ u.amount = cut-le u.amount pct h in
    let e : u128_mul u.amount pct ≡ u.amount * pct = cut-eq u.amount pct h (omega arith) in
    let add : u128_add burned cut ≡ burned + cut = u128_add-eq burned cut (omega (arith, less)) in
    rw (e, add)
      (omega (arith, less, cut_unbonding-le pct (burned + cut) us h (omega (arith, less))))

-- At least that share of the bonded stake is taken.
pub slash_account-takes :
    (pct : ℕ) (a : Account)
    → 5 ≤ pct
    → pct ≤ 100
    → worth a * 100 < u128_mod
    → a.staked * 5 / 100 ≤ (slash_account pct a).1
unfolding slash_account
slash_account-takes pct a low h fits =
    let cut = a.staked * pct / 100 in
    let less : cut ≤ a.staked = cut-le a.staked pct h in
    let e : u128_mul a.staked pct ≡ a.staked * pct = cut-eq a.staked pct h (omega arith) in
    rw e (
      omega (
        arith,
        less,
        share_mono a.staked 5 pct low,
        cut_unbonding-le pct cut a.unbonding h (omega (arith, less)),
      ))
