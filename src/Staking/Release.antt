-- ===== src/Staking/Release.antt =====
-- `release_unbonded` of src/staking.rs against the supply.
use inazuma_core.Base.{
  ℕ, ◌+◌, ◌≤◌, ◌<◌, ◌≡◌, refl, Bool, true, false, List, [], ◌∷◌, Dict, arith, leb, if◌then◌else◌,
  u128_mod, u128_add, u128_add-eq, Above, IsAscending,
}
use inazuma_core.Platform.{Platform}
use inazuma_core.Types.{Account, Unbond}
use inazuma_core.Types.Laws.{unbonding_sum}
use inazuma_core.State.{Store, account, set_account, accounts_of}
use inazuma_core.State.Accounts.{account-set_account}
use inazuma_core.State.Supply.{worth, supply, supply-set_account, worth-le-supply}
use inazuma_core.State.Index.{accounts_of-IsAscending, stake_accounts-eq}
use inazuma_core.Staking.{release_from, release_accounts, release_unbonded}

release_from_sum :
    (height released : ℕ) (us : List Unbond)
    → released + unbonding_sum us < u128_mod
    → let (kept, total) = release_from height released us in
      unbonding_sum kept + total ≡ unbonding_sum us + released
unfolding release_from
release_from_sum height released [] fits = omega arith
release_from_sum height released (u ∷ us) fits = ground (
  arith,
  u128_add-eq released u.amount,
  release_from_sum height (released + u.amount) us,
  release_from_sum height released us,
)

-- Only what is still locked is kept.
abbrev pub all_locked : ℕ → List Unbond → Bool
all_locked height [] = true
all_locked height (u ∷ us) = if leb u.release_height height then false else all_locked height us

pub release_from_locked :
    (height released : ℕ) (us : List Unbond)
    → all_locked height (release_from height released us).0 ≡ true
unfolding release_from
release_from_locked height released [] = refl
release_from_locked height released (u ∷ us) = ground (
  arith,
  release_from_locked height (u128_add released u.amount) us,
  release_from_locked height released us,
)

module _ (env : Platform) where
  -- The entries of a snapshot are still the accounts of the store.
  abbrev Current : Store env → Dict Account → Type 0
  Current s [] = Unit
  Current s ((k, a) ∷ d) = (account env s k ≡ a) × Current s d

  Current-set_account :
      (s : Store env) (k : ℕ) (x : Account) (d : Dict Account)
      → Above k d
      → Current s d
      → Current (set_account env s k x) d
  Current-set_account s k x [] above h = tt
  Current-set_account s k x ((j, a) ∷ d) above h = (
    ground (arith, account-set_account env s k j x, h.0),
    Current-set_account s k x d above.1 h.1,
  )

  accounts_of-Current : (s : Store env) (d : Dict (Unit {0})) → Current s (accounts_of env s d)
  unfolding accounts_of
  accounts_of-Current s [] = tt
  accounts_of-Current s ((k, u) ∷ d) = (refl, accounts_of-Current s d)

  -- The account after its matured entries are paid out.
  abbrev matured : ℕ → Account → Account
  matured height a =
      let (kept, total) = release_from height 0 a.unbonding in
      record a { unbonding = kept; balance = u128_add a.balance total }

  supply-matured :
      (s : Store env) (height k : ℕ) (a : Account)
      → account env s k ≡ a
      → supply env s < u128_mod
      → supply env (set_account env s k (matured height a)) ≡ supply env s
  supply-matured s height k a e fits =
      let w : worth a ≤ supply env s = rw (← e) (worth-le-supply env s k) in
      let total = (release_from height 0 a.unbonding).1 in
      let split = release_from_sum height 0 a.unbonding (omega (arith, w)) in
      let add : u128_add a.balance total ≡ a.balance + total =
        u128_add-eq a.balance total (omega (arith, w, split)) in
      let moved : supply env (set_account env s k (matured height a)) + worth a
          ≡ supply env s + worth (matured height a) =
        rw e at (supply-set_account env s k (matured height a)) in
      omega (arith, moved, add, split)

  release_accounts_supply :
      (height : ℕ) (d : Dict Account) (s : Store env)
      → IsAscending d
      → Current s d
      → supply env s < u128_mod
      → supply env (release_accounts env height d s).0 ≡ supply env s
  unfolding release_accounts
  release_accounts_supply height [] s order now fits = refl
  release_accounts_supply height ((k, a) ∷ d) s order now fits =
      let s₁ = set_account env s k (matured height a) in
      let same = supply-matured s height k a now.0 fits in
      ground (
        arith,
        same,
        release_accounts_supply height d s order.1 now.1 fits,
        release_accounts_supply height d s₁ order.1
            (Current-set_account s k (matured height a) d order.0 now.1) (omega (arith, same)),
      )

  -- As long as the supply fits a word, releasing what has matured at any height neither mints nor burns.
  pub supply-release_unbonded :
      (s : Store env) (height : ℕ)
      → supply env s < u128_mod
      → supply env (release_unbonded env s height).0 ≡ supply env s
  unfolding release_unbonded
  supply-release_unbonded s height fits = rw stake_accounts-eq (
      release_accounts_supply height (accounts_of env s (env.iter Unit s.stakers)) s
        (accounts_of-IsAscending env s _ (env.iter-ascending Unit s.stakers))
        (accounts_of-Current s _) fits)
