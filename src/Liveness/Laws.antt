-- ===== src/Liveness/Laws.antt =====
-- `record_liveness` of src/slashing.rs against the accounts and the supply.
use inazuma_core.Base.{
  ℕ, ◌-◌, ◌/◌, ◌≤◌, ◌<◌, ◌≡◌, refl, ap, List, [], ◌∷◌, arith, u128_mod, u128_mul, u128_sub,
  u128_sub-eq, Option-cases, inl, inr,
}
use inazuma_core.Platform.{Platform}
use inazuma_core.Records.{SlashRecord}
use inazuma_core.Types.{Account}
use inazuma_core.Types.Laws.{unbonding_sum}
use inazuma_core.State.{Store, account, set_account, put_slash}
use inazuma_core.State.Accounts.{account-set_account}
use inazuma_core.State.Supply.{supply, worth, supply-set_account, worth-le-supply}
use inazuma_core.Staking.{validator_set_at}
use inazuma_core.Liveness.{
  charged, leaked_account, downtime_burn, jailed_account, sealed_account, charge_miss, charge_all,
  find_used, find_missed, clear_streak, downtime_record, record_liveness, max_leader_attempts,
}

share-le : (x bps : ℕ) → bps ≤ 10_000 → u128_mul x bps / 10_000 ≤ x
unfolding u128_mul
share-le x bps h = grind arith

-- What liveness may do to an account: burn bonded coins, and nothing else of value.
abbrev pub Kept : Account → Account → Type 0
Kept a b =
    (b.balance ≡ a.balance)
    × (b.unbonding ≡ a.unbonding)
    × (b.nonce ≡ a.nonce)
    × (b.rewards ≡ a.rewards)
    × (b.penalties.tombstoned ≡ a.penalties.tombstoned)
    × (b.staked ≤ a.staked)

Kept-trans : (a b c : Account) → Kept a b → Kept b c → Kept a c
Kept-trans a b c h k = ground arith

charged-Kept : (a : Account) → Kept a (charged a)
unfolding charged
charged-Kept a = ground arith

leaked-Kept : (height : ℕ) (a : Account) → a.staked < u128_mod → Kept a (leaked_account height a)
unfolding leaked_account
leaked-Kept height a h =
    let decay = u128_mul a.staked 5 / 10_000 in
    let less : decay ≤ a.staked = share-le a.staked 5 (omega arith) in
    let exact : u128_sub a.staked decay ≡ a.staked - decay = u128_sub-eq a.staked decay less h in
    ground (arith, less, exact)

jailed-Kept : (height : ℕ) (a : Account) → a.staked < u128_mod → Kept a (jailed_account height a)
unfolding jailed_account downtime_burn
jailed-Kept height a h =
    let burn = u128_mul a.staked 10 / 10_000 in
    let less : burn ≤ a.staked = share-le a.staked 10 (omega arith) in
    let exact : u128_sub a.staked burn ≡ a.staked - burn = u128_sub-eq a.staked burn less h in
    let none : u128_sub a.staked 0 ≡ a.staked - 0 = u128_sub-eq a.staked 0 (omega arith) h in
    ground (arith, less, exact, none)

sealed-Kept : (height : ℕ) (a : Account) → Kept a (sealed_account height a)
unfolding sealed_account
sealed-Kept height a = ground arith

worth-Kept : (a b : Account) → Kept a b → worth b ≤ worth a
worth-Kept a b h = omega (arith, ap unbonding_sum h.1, h)

module _ (env : Platform) where
  -- A write that keeps an account keeps them all, and the supply does not grow.
  Kept-write :
      (s : Store env) (a : ℕ) (x : Account) (b : ℕ)
      → Kept (account env s a) x
      → (supply env (set_account env s a x) ≤ supply env s)
        × Kept (account env s b) (account env (set_account env s a x) b)
  Kept-write s a x b k = (
    omega (arith, supply-set_account env s a x, worth-Kept (account env s a) x k),
    ground (arith, account-set_account env s a b x),
  )

  staked_fits :
      (s : Store env) (a : ℕ) → supply env s < u128_mod → (account env s a).staked < u128_mod
  staked_fits s a h = omega (arith, worth-le-supply env s a)

  account-put_slash :
      (s : Store env) (r : SlashRecord) (b : ℕ)
      → account env (put_slash env s r) b ≡ account env s b
  unfolding account put_slash
  account-put_slash s r b = refl

  supply-put_slash :
      (s : Store env) (r : SlashRecord) → supply env (put_slash env s r) ≡ supply env s
  unfolding supply put_slash
  supply-put_slash s r = refl

  -- A step keeps every account and does not grow the supply.
  abbrev pub Sound : Store env → Store env → ℕ → Type 0
  Sound s s' b = (supply env s' ≤ supply env s) × Kept (account env s b) (account env s' b)

  charge_miss_lem :
      (s : Store env) (height address b : ℕ)
      → supply env s < u128_mod
      → Sound s (charge_miss env s height address) b
  unfolding charge_miss
  charge_miss_lem s height address b fits =
      let old = account env s address in
      let a = charged old in
      let same = charged-Kept old in
      let jailed = set_account env s address (jailed_account height a) in
      let slip = downtime_record env s height address in
      let small : a.staked < u128_mod = omega (arith, same, staked_fits s address fits) in
      ground (
        arith,
        Kept-write s address a b same,
        Kept-write s address (leaked_account height a) b
            (Kept-trans old a (leaked_account height a) same (leaked-Kept height a small)),
        Kept-write s address (jailed_account height a) b
            (Kept-trans old a (jailed_account height a) same (jailed-Kept height a small)),
        account-put_slash jailed slip b,
        supply-put_slash jailed slip,
      )

  charge_all_lem :
      (ms : List ℕ) (s : Store env) (height b : ℕ)
      → supply env s < u128_mod
      → Sound s (charge_all env ms s height) b
  unfolding charge_all
  charge_all_lem [] s height b fits = ground arith
  charge_all_lem (m ∷ ms) s height b fits =
      let first = charge_miss_lem s height m b fits in
      let later = charge_all_lem ms (charge_miss env s height m) height b (omega (arith, first)) in
      ground (arith, first, later)

  clear_streak_lem :
      (s : Store env) (height producer b : ℕ) → Sound s (clear_streak env s height producer) b
  unfolding clear_streak
  clear_streak_lem s height producer b =
      let p = account env s producer in
      ground (arith, Kept-write s producer (sealed_account height p) b (sealed-Kept height p))

  -- As long as the supply fits a word, accounting for liveness never grows it, and of any account it
  -- leaves the balance, the nonce, the rewards, the unbonding entries and the tombstone as they
  -- were; its stake does not grow.
  pub record_liveness_lem :
      (activation : ℕ) (s : Store env) (height parent_hash producer b : ℕ)
      → supply env s < u128_mod
      → Sound s (record_liveness env activation s height parent_hash producer) b
  unfolding record_liveness
  record_liveness_lem activation s height parent_hash producer b fits =
      let set = validator_set_at env s height in
      elim (Option-cases (find_used env set height parent_hash producer max_leader_attempts 0)) [
        | inr (used, e) ↦
            let ms = find_missed env set height parent_hash producer used 0 [] in
            ground (
              arith,
              e,
              charge_all_lem ms s height b fits,
              clear_streak_lem (charge_all env ms s height) height producer b,
            )
        | inl e ↦ ground (arith, e)
      ]
