-- ===== src/State/Ledger/Debit.antt =====
-- `debit_token` of src/state.rs.
use inazuma_core.Base.{ℕ, ◌+◌, ◌-◌, ◌≤◌, ◌<◌, ◌≡◌, refl, ◌≢◌, some, arith, ◌∙◌, dec_lt, ok, err}
use inazuma_core.Platform.{Platform}
use inazuma_core.Records.{Token}
use inazuma_core.State.{Store, insufficient_balance}
use inazuma_core.State.Ledger.{
  token, set_token, token_balance, set_token_balance, debited, debit_token, Outcome,
}
use inazuma_core.State.Ledger.Balances.{
  circulating, holder_count, token-set_token, token-set_token_balance, circulating-set_token,
  holder_count-set_token, token_balance-set_token, token_balance-set_token_balance,
  token_balance-set_token_balance_ne, circulating-set_token_balance, holder_count-set_token_balance,
  set_token_balance-IsTrimmed, set_token-IsTrimmed, token_balance-le-circulating,
}
use inazuma_core.State.Ledger.Invariant.{EntryAt, IsBalanced}

module _ (env : Platform) (s : Store env) (t a x : ℕ) (k : Token) where
  -- The store after a successful debit of a registered token.
  abbrev pub after_debit : Store env
  after_debit =
      set_token env (set_token_balance env s t a (token_balance env s t a - x))
        (debited k (token_balance env s t a - x) x)

  pub debit_token_ok :
      token env s t ≡ some k
      → x ≤ token_balance env s t a
      → debit_token env s t a x ≡ (ok tt, after_debit)
  unfolding debit_token
  debit_token_ok e enough =
      ground (arith, token-set_token_balance env s t a (token_balance env s t a - x) t)

  pub debit_token_short :
      token_balance env s t a < x → debit_token env s t a x ≡ (err insufficient_balance, s)
  unfolding debit_token
  debit_token_short short = ground arith

  entry_after :
      IsBalanced env s
      → token env s t ≡ some k
      → x ≤ token_balance env s t a
      → 0 < x
      → (u : ℕ) → EntryAt env after_debit u
  entry_after h e enough some_units u =
      let b = token_balance env s t a in
      let k' = debited k (b - x) x in
      let s' = set_token_balance env s t a (b - x) in
      ground (
        arith,
        h.entry t,
        h.entry u,
        token_balance-le-circulating env s t a,
        token-set_token env s' k' u,
        token-set_token_balance env s t a (b - x) u,
        circulating-set_token env s' k' u,
        circulating-set_token_balance env s t a (b - x) u,
        holder_count-set_token env s' k' u,
        holder_count-set_token_balance env s t a (b - x) u h.trimmed,
      )

  -- What a debit is for: the ledger stays balanced, and exactly the debited units are taken.
  abbrev pub Debits : Store env → Type 0
  Debits s' =
      IsBalanced env s'
      × (circulating env s' t + x ≡ circulating env s t)
      × (token_balance env s' t a + x ≡ token_balance env s t a)

  pub after_debit-Debits :
      IsBalanced env s
      → token env s t ≡ some k
      → x ≤ token_balance env s t a
      → 0 < x
      → Debits after_debit
  after_debit-Debits h e enough some_units =
      let b = token_balance env s t a in
      let k' = debited k (b - x) x in
      let s' = set_token_balance env s t a (b - x) in
      (
        record {
          trimmed =
              set_token-IsTrimmed env s' k'
                (set_token_balance-IsTrimmed env s t a (b - x) h.trimmed);
          entry = entry_after h e enough some_units;
        },
        ground (
          arith,
          circulating-set_token_balance env s t a (b - x) t,
          circulating-set_token env s' k' t,
        ),
        ground (
          arith,
          token_balance-set_token env s' k' t a,
          token_balance-set_token_balance env s t a (b - x) t a,
        ),
      )

  -- How a debit of a registered token ends: it is covered and carried out, or it is refused and
  -- changes nothing.
  abbrev pub DebitOutcome : Outcome env → Type 0
  DebitOutcome (ok _, s') = (x ≤ token_balance env s t a) × Debits s'
  DebitOutcome (err e, s') = (token_balance env s t a < x) × (e ≡ insufficient_balance) × (s' ≡ s)

  -- In a balanced ledger a debit of a positive amount of a registered token succeeds exactly when
  -- the account holds the amount. Then the ledger stays balanced, with exactly the debited units
  -- gone from the circulation and the account; otherwise nothing changes.
  pub debit_token_lem :
      IsBalanced env s → token env s t ≡ some k → 0 < x → DebitOutcome (debit_token env s t a x)
  debit_token_lem h e some_units = elim (dec_lt (token_balance env s t a) x) [
    | yes short ↦ rw (debit_token_short short) (short, refl, refl)
    | no enough ↦
        let covered : x ≤ token_balance env s t a = omega arith in
        rw (debit_token_ok e covered) (covered, after_debit-Debits h e covered some_units)
  ]

  pub token-after_debit :
      IsBalanced env s
      → token env s t ≡ some k
      → token env after_debit t ≡ some (debited k (token_balance env s t a - x) x)
  token-after_debit h e =
      let b = token_balance env s t a in
      ground (
        arith,
        h.entry t,
        token-set_token env (set_token_balance env s t a (b - x)) (debited k (b - x) x) t,
      )

  pub holder_count-after_debit-le :
      IsBalanced env s → holder_count env after_debit t ≤ holder_count env s t
  holder_count-after_debit-le h =
      let b = token_balance env s t a in
      ground (
        arith,
        holder_count-set_token env (set_token_balance env s t a (b - x)) (debited k (b - x) x) t,
        holder_count-set_token_balance env s t a (b - x) t h.trimmed,
      )

  pub token_balance-after_debit_ne :
      (c : ℕ) → c ≢ a → token_balance env after_debit t c ≡ token_balance env s t c
  token_balance-after_debit_ne c ne =
      let b = token_balance env s t a in
      token_balance-set_token env (set_token_balance env s t a (b - x)) (debited k (b - x) x) t c
      ∙ token_balance-set_token_balance_ne env s t a (b - x) c ne
