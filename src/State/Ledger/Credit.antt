-- ===== src/State/Ledger/Credit.antt =====
-- `credit_token` of src/state.rs.
use inazuma_core.Base.{
  ℕ, ◌+◌, ◌≤◌, ◌<◌, ◌≡◌, ◌≢◌, some, arith, ◌∙◌, u64_mod, u128_mod, dec_lt, u64_add-eq,
  u128_checked_add, ok, err,
}
use inazuma_core.Platform.{Platform}
use inazuma_core.Records.{Token}
use inazuma_core.State.{Store}
use inazuma_core.State.Ledger.{
  token, set_token, token_balance, set_token_balance, credited, credit_token, Outcome,
}
use inazuma_core.State.Ledger.Balances.{
  circulating, holder_count, token-set_token, token-set_token_balance, circulating-set_token,
  holder_count-set_token, token_balance-set_token, token_balance-set_token_balance,
  token_balance-set_token_balance_ne, circulating-set_token_balance, holder_count-set_token_balance,
  set_token_balance-IsTrimmed, set_token-IsTrimmed,
}
use inazuma_core.State.Ledger.Invariant.{EntryAt, IsBalanced, token_balance-le-supply}

module _ (env : Platform) (s : Store env) (t a x : ℕ) (k : Token) where
  -- The store after a successful credit of a registered token.
  abbrev pub after_credit : Store env
  after_credit =
      set_token_balance env
        (set_token env s (credited k (k.supply + x) (token_balance env s t a) x)) t a
        (token_balance env s t a + x)

  pub credit_token_ok :
      IsBalanced env s
      → token env s t ≡ some k
      → k.supply + x < u128_mod
      → credit_token env s t a x ≡ (ok tt, after_credit)
  unfolding credit_token u128_checked_add
  credit_token_ok h e fits = ground (arith, token_balance-le-supply env s t a k h e)

  entry_after :
      IsBalanced env s
      → token env s t ≡ some k
      → k.supply + x < u128_mod
      → holder_count env s t + 1 < u64_mod
      → (u : ℕ) → EntryAt env after_credit u
  entry_after h e fits room u =
      let s' = set_token env s (credited k (k.supply + x) (token_balance env s t a) x) in
      let b = token_balance env s t a in
      ground (
        arith,
        h.entry t,
        h.entry u,
        u64_add-eq k.holders 1,
        token-set_token_balance env s' t a (b + x) u,
        token-set_token env s (credited k (k.supply + x) b x) u,
        circulating-set_token_balance env s' t a (b + x) u,
        circulating-set_token env s (credited k (k.supply + x) b x) u,
        holder_count-set_token_balance env s' t a (b + x) u (set_token-IsTrimmed env s _ h.trimmed),
        holder_count-set_token env s (credited k (k.supply + x) b x) u,
        token_balance-set_token env s (credited k (k.supply + x) b x) t a,
      )

  -- What a credit is for: the ledger stays balanced, and exactly the credited units are added.
  abbrev pub Credits : Store env → Type 0
  Credits s' =
      IsBalanced env s'
      × (circulating env s' t ≡ circulating env s t + x)
      × (token_balance env s' t a ≡ token_balance env s t a + x)

  pub after_credit-Credits :
      IsBalanced env s
      → token env s t ≡ some k
      → k.supply + x < u128_mod
      → holder_count env s t + 1 < u64_mod
      → Credits after_credit
  after_credit-Credits h e fits room =
      let b = token_balance env s t a in
      let k' = credited k (k.supply + x) b x in
      let s' = set_token env s k' in
      (
        record {
          trimmed =
              set_token_balance-IsTrimmed env s' t a (b + x)
                (set_token-IsTrimmed env s k' h.trimmed);
          entry = entry_after h e fits room;
        },
        ground (
          arith,
          circulating-set_token_balance env s' t a (b + x) t,
          circulating-set_token env s k' t,
          token_balance-set_token env s k' t a,
        ),
        ground (arith, token_balance-set_token_balance env s' t a (b + x) t a),
      )

  pub token_balance-after_credit_ne :
      (c : ℕ) → c ≢ a → token_balance env after_credit t c ≡ token_balance env s t c
  token_balance-after_credit_ne c ne =
      let b = token_balance env s t a in
      let k' = credited k (k.supply + x) b x in
      token_balance-set_token_balance_ne env (set_token env s k') t a (b + x) c ne
      ∙ token_balance-set_token env s k' t c

  -- How a credit of a registered token ends: it fits and is carried out, or it does not fit and
  -- changes nothing.
  abbrev pub CreditOutcome : Outcome env → Type 0
  CreditOutcome (ok _, s') = (k.supply + x < u128_mod) × Credits s'
  CreditOutcome (err _, s') = (u128_mod ≤ k.supply + x) × (s' ≡ s)

  credit_token_overflow :
      token env s t ≡ some k → u128_mod ≤ k.supply + x → CreditOutcome (credit_token env s t a x)
  unfolding credit_token u128_checked_add
  credit_token_overflow e over = ground arith

  -- In a balanced ledger whose count of the token's holders has room for one more, a credit of a
  -- registered token succeeds exactly when the grown supply fits a word. Then the ledger stays balanced,
  -- with exactly the credited units added to the circulation and to the account; otherwise nothing
  -- changes.
  pub credit_token_lem :
      IsBalanced env s
      → token env s t ≡ some k
      → holder_count env s t + 1 < u64_mod
      → CreditOutcome (credit_token env s t a x)
  credit_token_lem h e room = elim (dec_lt (k.supply + x) u128_mod) [
    | yes fits ↦ rw (credit_token_ok h e fits) (fits, after_credit-Credits h e fits room)
    | no over ↦ credit_token_overflow e (omega arith)
  ]
