-- ===== src/State/Index.antt =====
-- The staker index of src/state.rs, and `total_staked`, the denominator of slashing.
use inazuma_core.Base.{
  is_some, ℕ, ◌+◌, ◌<◌, ◌≡◌, refl, ◌∙◌, none, [], ◌∷◌, Dict, lookup, lookup-insert, lookup-remove,
  IsAscending, Above, sum_values, measure, sum_at, sum_at-eq, sort_by_ascending, arith, u128_mod,
  u128_add, u128_add-eq, ◌==◌, if◌then◌else◌,
}
use inazuma_core.Platform.{Platform}
use inazuma_core.Types.{Account}
use inazuma_core.State.{
  Store, account, set_account, has_stake, stake_accounts, accounts_of, staked_from, total_staked,
}
use inazuma_core.State.Accounts.{account-set_account}

module _ (env : Platform) where
  -- An address is in the index exactly when its account has something at stake.
  pub record IsIndexed (s : Store env) : Type 0 where
    pub listed :
        (a : ℕ) → is_some (lookup a (env.iter Unit s.stakers)) ≡ has_stake (account env s a)

  listed_after :
      (s : Store env) (a : ℕ) (x : Account) (b : ℕ)
      → IsIndexed s
      → is_some (lookup b (env.iter Unit (set_account env s a x).stakers))
        ≡ has_stake (if b == a then x else account env s b)
  unfolding set_account
  listed_after s a x b h = ground (
    arith,
    env.iter-insert Unit s.stakers a tt,
    env.iter-remove Unit s.stakers a,
    lookup-insert a b tt (env.iter Unit s.stakers),
    lookup-remove a b (env.iter Unit s.stakers) (env.iter-ascending Unit s.stakers),
    h.listed b,
  )

  -- Every write of an account keeps a right index right.
  pub set_account-IsIndexed :
      (s : Store env) (a : ℕ) (x : Account) → IsIndexed s → IsIndexed (set_account env s a x)
  set_account-IsIndexed s a x h = record {
    listed = λ b. rw account-set_account (listed_after s a x b h);
  }

  abbrev pub staked : Account → ℕ
  staked a = a.staked

  -- The exact bonded stake of all accounts, indexed or not.
  unfoldable pub staked_sum : Store env → ℕ
  staked_sum s = sum_values staked (env.iter Account s.accounts)

  pub accounts_of-IsAscending :
      (s : Store env) (d : Dict (Unit {0})) → IsAscending d → IsAscending (accounts_of env s d)
  unfolding accounts_of
  accounts_of-IsAscending s [] a = tt
  accounts_of-IsAscending s ((k, u) ∷ d) a = (above k d a.0, accounts_of-IsAscending s d a.1)
    where
      above : (j : ℕ) (e : Dict (Unit {0})) → Above j e → Above j (accounts_of env s e)
      above j [] b = tt
      above j ((i, u) ∷ e) b = (b.0, above j e b.1)

  pub stake_accounts-eq :
      (s : Store env) → stake_accounts env s ≡ accounts_of env s (env.iter Unit s.stakers)
  unfolding stake_accounts
  stake_accounts-eq s =
      sort_by_ascending _ (accounts_of-IsAscending s _ (env.iter-ascending Unit s.stakers))

  sum_values-accounts_of :
      (s : Store env) (d : Dict (Unit {0}))
      → sum_values staked (accounts_of env s d) ≡ sum_at staked (env.iter Account s.accounts) d
  unfolding accounts_of account
  sum_values-accounts_of s [] = refl
  sum_values-accounts_of s ((k, u) ∷ d) =
      ground (arith, env.get-iter Account s.accounts k, sum_values-accounts_of s d)

  staked_from-eq :
      (acc : ℕ) (d : Dict Account)
      → acc + sum_values staked d < u128_mod
      → staked_from env acc d ≡ acc + sum_values staked d
  unfolding staked_from
  staked_from-eq acc [] h = omega arith
  staked_from-eq acc ((k, a) ∷ d) h =
      let e : u128_add acc a.staked ≡ acc + a.staked = u128_add-eq _ _ (omega arith) in
      rw e (omega (arith, staked_from-eq (acc + a.staked) d (omega arith)))

  unlisted_unstaked :
      (s : Store env) (k : ℕ)
      → IsIndexed s
      → lookup k (env.iter Unit s.stakers) ≡ none
      → measure staked (lookup k (env.iter Account s.accounts)) ≡ 0
  unfolding account
  unlisted_unstaked s k h e = ground (arith, h.listed k, env.get-iter Account s.accounts k)

  -- Over an index that is right, and as long as the bonded stake of all accounts fits a word,
  -- `total_staked` is exactly that stake.
  pub total_staked-eq :
      (s : Store env) → IsIndexed s → staked_sum s < u128_mod → total_staked env s ≡ staked_sum s
  unfolding total_staked staked_sum
  total_staked-eq s h fits =
      let all : sum_values staked (accounts_of env s (env.iter Unit s.stakers)) ≡ staked_sum s =
        sum_values-accounts_of s (env.iter Unit s.stakers)
        ∙ sum_at-eq staked _ _ (env.iter-ascending Unit s.stakers)
            (env.iter-ascending Account s.accounts) (λ k e. unlisted_unstaked s k h e) in
      rw stake_accounts-eq (
        staked_from-eq 0 (accounts_of env s (env.iter Unit s.stakers)) (omega (arith, all))
        ∙ omega (arith, all))
