-- ===== src/Tokens/Create.antt =====
-- `check_create` and `apply_create` of src/tokens.rs.
use inazuma_core.Base.{
  ℕ, ◌+◌, refl, sym, ltb, Bool-cases, inl, inr, ◌≤◌, ◌<◌, ◌≡◌, none, some, arith, u128_mod, ok, err,
}
use mathlib.Core.Path.{subst}
use inazuma_core.Platform.{Platform}
use inazuma_core.Records.{Token}
use inazuma_core.State.{Store}
use inazuma_core.State.Ledger.{token, set_token, token_balance, credited, credit_token}
use inazuma_core.State.Ledger.Balances.{
  circulating, holder_count, token-set_token, token-set_token_balance, circulating-set_token,
  holder_count-set_token, token_balance-set_token, set_token-IsTrimmed,
  token_balance-le-circulating,
}
use inazuma_core.State.Ledger.Invariant.{IsBalanced}
use inazuma_core.State.Ledger.Credit.{after_credit, credit_token_ok, after_credit-Credits}
use inazuma_core.Records.{Payload}
use inazuma_core.Tokens.{Applied, new_token, check_create, apply_create}

module _ (env : Platform) (s : Store env) (sender nonce amount height : ℕ) (p : Payload) where
  abbrev Fresh : ℕ → Type 0
  Fresh symbol =
      (env.normalize_symbol p.symbol ≡ some symbol)
      × (token env s (env.token_id sender nonce symbol) ≡ none)
      × (p.decimals ≤ 18)

  create_admitted : check_create env s sender nonce (some p) ≡ ok tt → (symbol : ℕ) × Fresh symbol
  unfolding check_create
  create_admitted h = ground arith

  module _ (symbol : ℕ) where
    abbrev pub id : ℕ
    id = env.token_id sender nonce symbol

    abbrev created : Token
    created = new_token env id symbol sender height p

    abbrev registered : Store env
    registered = set_token env s created

    registered-IsBalanced : IsBalanced env s → token env s id ≡ none → IsBalanced env registered
    registered-IsBalanced h e = record {
      trimmed = set_token-IsTrimmed env s created h.trimmed;
      entry = λ u. ground (
        arith,
        h.entry u,
        token-set_token env s created u,
        circulating-set_token env s created u,
        holder_count-set_token env s created u,
      );
    }

    -- The new token is registered, with what was asked for.
    abbrev pub Registers : Store env → Type 0
    Registers s' =
        (t : Token) × (token env s' id ≡ some t)
        × (t.symbol ≡ symbol)
        × (t.creator ≡ sender)
        × (t.decimals ≡ p.decimals)
        × (t.mintable ≡ p.mintable)
        × (t.supply ≡ amount)

    -- The new token is on the books: it is registered, the ledger is balanced, all units exist once,
    -- and the creator holds them.
    abbrev pub Issues : Applied env → Type 0
    Issues (ok _, s') =
        IsBalanced env s'
        × (circulating env s' id ≡ amount)
        × (token_balance env s' id sender ≡ amount)
        × Registers s'
    Issues (err e, s') = ⊥

    credit-Registers : Registers (after_credit env registered id sender amount created)
    credit-Registers =
        let b = token_balance env registered id sender in
        let t = credited created amount b amount in
        let s' = set_token env registered t in
        (
          t,
          ground (
            arith,
            token-set_token_balance env s' id sender (b + amount) id,
            token-set_token env registered t id,
          ),
          refl,
          refl,
          refl,
          refl,
          refl,
        )

    credit_registered :
        IsBalanced env s
        → token env s id ≡ none
        → amount < u128_mod
        → let s' = after_credit env registered id sender amount created in
          (credit_token env registered id sender amount ≡ (ok tt, s')) × Issues (ok tt, s')
    credit_registered h e fits =
        let h' = registered-IsBalanced h e in
        let e' : token env registered id ≡ some created =
          ground (arith, token-set_token env s created id) in
        let none_held : holder_count env registered id ≡ 0 =
          ground (arith, e, h.entry id, holder_count-set_token env s created id) in
        let none_issued : circulating env registered id ≡ 0 =
          ground (arith, e, h.entry id, circulating-set_token env s created id) in
        let credits =
          after_credit-Credits env registered id sender amount created h' e' (omega arith)
            (omega (arith, none_held)) in
        (
          credit_token_ok env registered id sender amount created h' e' (omega arith),
          (
            credits.0,
            omega (arith, credits.1, none_issued),
            omega (
              arith,
              credits.2,
              none_issued,
              token_balance-le-circulating env registered id sender,
            ),
            credit-Registers,
          ),
        )

    nothing_issued :
        IsBalanced env s → token env s id ≡ none → amount ≡ 0 → Issues (ok tt, registered)
    nothing_issued h e z = (
      registered-IsBalanced h e,
      ground (arith, e, z, h.entry id, circulating-set_token env s created id),
      ground (
        arith,
        e,
        z,
        h.entry id,
        token_balance-set_token env s created id sender,
        token_balance-le-circulating env s id sender,
      ),
      (created, ground (arith, token-set_token env s created id), refl, refl, refl, refl, sym z),
    )

    create_runs :
        IsBalanced env s
        → Fresh symbol
        → amount < u128_mod
        → Issues (apply_create env s sender nonce amount height (some p))
    unfolding apply_create
    create_runs h fresh fits =
        let ran = apply_create env s sender nonce amount height (some p) in
        elim (Bool-cases (ltb 0 amount)) [
          | inl y ↦
              let (credits, issued) = credit_registered h fresh.1 fits in
              let done : ran ≡ (ok tt, after_credit env registered id sender amount created) =
                ground (arith, fresh.0, fresh.1, fresh.2, y, credits) in
              subst Issues (sym done) issued
          | inr z ↦
              let done : ran ≡ (ok tt, registered) = ground (arith, fresh.0, fresh.1, fresh.2, z) in
              subst Issues (sym done) (nothing_issued h fresh.1 (ground (arith, z)))
        ]

  -- In a balanced ledger, a creation that the checks admit, of an initial supply that fits a word, never
  -- fails. A token is registered under an id that was free, with the symbol that was asked for, in its
  -- normal form, the sender as its creator and the initial supply, and exactly that is in circulation,
  -- all of it held by the creator; the ledger stays balanced.
  pub apply_create_lem :
      IsBalanced env s
      → check_create env s sender nonce (some p) ≡ ok tt
      → amount < u128_mod
      → (symbol : ℕ) × (env.normalize_symbol p.symbol ≡ some symbol)
        × (token env s (env.token_id sender nonce symbol) ≡ none)
        × Issues symbol (apply_create env s sender nonce amount height (some p))
  apply_create_lem h checked fits =
      let (symbol, fresh) = create_admitted checked in
      (symbol, fresh.0, fresh.1, create_runs symbol h fresh fits)
