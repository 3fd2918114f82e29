-- ===== src/Tokens/Transfer.antt =====
-- `check_token_transfer` and `apply_token_transfer` of src/tokens.rs.
use inazuma_core.Base.{
  ℕ, ◌+◌, ◌-◌, ◌≤◌, ◌<◌, ◌≡◌, sym, ◌≢◌, some, arith, u64_mod, u128_mod, ok, err,
}
use inazuma_core.Platform.{Platform}
use inazuma_core.Records.{Token}
use inazuma_core.State.{Store}
use inazuma_core.State.Ledger.{token, token_balance, debited, credit_token}
use inazuma_core.State.Ledger.Balances.{circulating, holder_count}
use inazuma_core.State.Ledger.Invariant.{IsBalanced, token_balance-le-supply}
use inazuma_core.State.Ledger.Credit.{
  Credits, after_credit, credit_token_ok, after_credit-Credits, token_balance-after_credit_ne,
}
use inazuma_core.State.Ledger.Debit.{
  after_debit, debit_token_ok, after_debit-Debits, token-after_debit, holder_count-after_debit-le,
  token_balance-after_debit_ne,
}
use inazuma_core.Records.{Payload}
use inazuma_core.Tokens.{Applied, check_token_transfer, apply_token_transfer}

module _ (env : Platform) (s : Store env) (from to x : ℕ) (p : Payload) where
  -- What the checks establish: the token, a positive amount, and enough of it.
  abbrev Admitted : Token → Type 0
  Admitted k = (token env s p.token ≡ some k) × (0 < x) × (x ≤ token_balance env s k.id from)

  transfer-Admitted :
      check_token_transfer env s from to x (some p) ≡ ok tt → (k : Token) × Admitted k
  unfolding check_token_transfer
  transfer-Admitted h = ground arith

  module _ (k : Token) where
    abbrev debited_store : Store env
    debited_store = after_debit env s p.token from x k

    abbrev debited_token : Token
    debited_token = debited k (token_balance env s p.token from - x) x

    abbrev moved_store : Store env
    moved_store = after_credit env debited_store p.token to x debited_token

    credit_after_debit :
        IsBalanced env s
        → Admitted k
        → holder_count env s p.token + 1 < u64_mod
        → IsBalanced env debited_store
          × (credit_token env debited_store p.token to x ≡ (ok tt, moved_store))
          × Credits env debited_store p.token to x debited_token moved_store
    credit_after_debit h (e, some_units, enough) room =
        let named : k.id ≡ p.token = ground (arith, h.entry p.token) in
        let covered : x ≤ token_balance env s p.token from = rw (← named) enough in
        let done = after_debit-Debits env s p.token from x k h e covered some_units in
        let e' = token-after_debit env s p.token from x k h e in
        let fits : debited_token.supply + x < u128_mod =
          ground (arith, h.entry p.token, token_balance-le-supply env s p.token from k h e) in
        let room' : holder_count env debited_store p.token + 1 < u64_mod =
          omega (arith, holder_count-after_debit-le env s p.token from x k h) in
        (
          done.0,
          credit_token_ok env debited_store p.token to x debited_token done.0 e' fits,
          after_credit-Credits env debited_store p.token to x debited_token done.0 e' fits room',
        )

  -- Units have moved from one account to another, and none are made or lost.
  abbrev pub Moves : Applied env → Type 0
  Moves (ok _, s') =
      IsBalanced env s'
      × (circulating env s' p.token ≡ circulating env s p.token)
      × (token_balance env s' p.token from + x ≡ token_balance env s p.token from)
      × (token_balance env s' p.token to ≡ token_balance env s p.token to + x)
  Moves (err e, s') = ⊥

  transfer-Moves :
      (k : Token)
      → IsBalanced env s
      → Admitted k
      → from ≢ to
      → holder_count env s p.token + 1 < u64_mod
      → Moves (ok tt, moved_store k)
  transfer-Moves k h adm ne room =
      let named : k.id ≡ p.token = ground (arith, adm.0, h.entry p.token) in
      let covered : x ≤ token_balance env s p.token from = rw (← named) adm.2 in
      let (_, _, credits) = credit_after_debit k h adm room in
      let (_, circ, bal) = after_debit-Debits env s p.token from x k h adm.0 covered adm.1 in
      (
        credits.0,
        omega (arith, credits.1, circ),
        omega (
          arith,
          bal,
          token_balance-after_credit_ne env (debited_store k) p.token to x (debited_token k) from
              ne,
        ),
        omega (
          arith,
          credits.2,
          token_balance-after_debit_ne env s p.token from x k to (λ e. ne (sym e)),
        ),
      )

  transfer_runs :
      (k : Token)
      → IsBalanced env s
      → Admitted k
      → from ≢ to
      → holder_count env s p.token + 1 < u64_mod
      → apply_token_transfer env s from to x (some p) ≡ (ok tt, moved_store k)
  unfolding apply_token_transfer
  transfer_runs k h adm ne room =
      let named : k.id ≡ p.token = ground (arith, adm.0, h.entry p.token) in
      let covered : x ≤ token_balance env s p.token from = rw (← named) adm.2 in
      ground (
        arith,
        adm.0,
        named,
        debit_token_ok env s p.token from x k adm.0 covered,
        (credit_after_debit k h adm room).1,
      )

  -- In a balanced ledger whose count of the token's holders has room for one more, a token transfer
  -- between two different accounts that the checks admit never fails: it moves exactly the amount and
  -- leaves the circulation of the token as it was.
  pub apply_token_transfer_lem :
      IsBalanced env s
      → check_token_transfer env s from to x (some p) ≡ ok tt
      → from ≢ to
      → holder_count env s p.token + 1 < u64_mod
      → Moves (apply_token_transfer env s from to x (some p))
  apply_token_transfer_lem h checked ne room =
      let (k, adm) = transfer-Admitted checked in
      rw (transfer_runs k h adm ne room) (transfer-Moves k h adm ne room)
