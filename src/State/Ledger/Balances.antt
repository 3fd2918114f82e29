-- ===== src/State/Ledger/Balances.antt =====
-- The exact amount of a token of src/state.rs in circulation, and the number of its holders.
use inazuma_core.Base.{
  ℕ, ◌+◌, ◌≤◌, ◌≡◌, refl, sym, ap, ◌∙◌, ◌≢◌, ◌&&◌, some, lookup, lookup-insert, lookup-remove,
  sum_entries, sum_entries-insert, sum_entries-remove, weight-le-sum_entries, arith, ltb, ◌==◌,
  if◌then◌else◌,
}
use inazuma_core.Platform.{Platform}
use inazuma_core.Records.{Token}
use inazuma_core.State.{Store}
use inazuma_core.State.Ledger.{token, set_token, token_balance, set_token_balance}

module _ (env : Platform) where
  -- The share of one entry in a token's circulation, and in its count of holders.
  abbrev pub units : ℕ → ℕ → ℕ → ℕ
  units t k v = if env.key_token k == t then v else 0

  abbrev pub held : ℕ → ℕ → ℕ → ℕ
  held t k v = if env.key_token k == t then 1 else 0

  unfoldable pub circulating : Store env → ℕ → ℕ
  circulating s t = sum_entries (units t) (env.iter ℕ s.token_balances)

  unfoldable pub holder_count : Store env → ℕ → ℕ
  holder_count s t = sum_entries (held t) (env.iter ℕ s.token_balances)

  -- No entry of the ledger holds zero units.
  abbrev pub IsTrimmed : Store env → Type 0
  IsTrimmed s = (k : ℕ) → lookup k (env.iter ℕ s.token_balances) ≢ some 0

  pub token-set_token_balance :
      (s : Store env) (t a x u : ℕ) → token env (set_token_balance env s t a x) u ≡ token env s u
  unfolding token set_token_balance
  token-set_token_balance s t a x u = ground arith

  pub token-set_token :
      (s : Store env) (k : Token) (u : ℕ)
      → token env (set_token env s k) u ≡ (if u == k.id then some k else token env s u)
  unfolding token set_token
  token-set_token s k u =
      rw (env.get-iter, env.iter-insert, env.get-iter) (lookup-insert k.id u k _)

  pub circulating-set_token :
      (s : Store env) (k : Token) (u : ℕ) → circulating (set_token env s k) u ≡ circulating s u
  unfolding circulating set_token
  circulating-set_token s k u = refl

  pub holder_count-set_token :
      (s : Store env) (k : Token) (u : ℕ) → holder_count (set_token env s k) u ≡ holder_count s u
  unfolding holder_count set_token
  holder_count-set_token s k u = refl

  pub token_balance-set_token :
      (s : Store env) (k : Token) (t a : ℕ)
      → token_balance env (set_token env s k) t a ≡ token_balance env s t a
  unfolding token_balance set_token
  token_balance-set_token s k t a = refl

  -- A balance reads back as it was last written, and every other balance is left alone.
  pub token_balance-set_token_balance :
      (s : Store env) (t a x u b : ℕ)
      → token_balance env (set_token_balance env s t a x) u b
        ≡ (if env.ledger_key u b == env.ledger_key t a then x else token_balance env s u b)
  unfolding token_balance set_token_balance
  token_balance-set_token_balance s t a x u b =
      let d = env.iter ℕ s.token_balances in
      let k = env.ledger_key t a in
      let j = env.ledger_key u b in
      ground (
        arith,
        env.get-iter ℕ s.token_balances j,
        env.get-iter ℕ (env.tree_insert ℕ s.token_balances k x) j,
        env.get-iter ℕ (env.tree_remove ℕ s.token_balances k) j,
        env.iter-insert ℕ s.token_balances k x,
        env.iter-remove ℕ s.token_balances k,
        lookup-insert k j x d,
        lookup-remove k j d (env.iter-ascending ℕ s.token_balances),
      )

  pub circulating-set_token_balance :
      (s : Store env) (t a x u : ℕ)
      → circulating (set_token_balance env s t a x) u
          + (if t == u then token_balance env s t a else 0)
        ≡ circulating s u + (if t == u then x else 0)
  unfolding circulating set_token_balance token_balance
  circulating-set_token_balance s t a x u =
      let d = env.iter ℕ s.token_balances in
      let k = env.ledger_key t a in
      ground (
        arith,
        env.get-iter ℕ s.token_balances k,
        env.iter-insert ℕ s.token_balances k x,
        env.iter-remove ℕ s.token_balances k,
        env.key_token-ledger_key t a,
        sum_entries-insert (units u) k x d (env.iter-ascending ℕ s.token_balances),
        sum_entries-remove (units u) k d,
      )

  pub holder_count-set_token_balance :
      (s : Store env) (t a x u : ℕ)
      → IsTrimmed s
      → holder_count (set_token_balance env s t a x) u
          + (if t == u && ltb 0 (token_balance env s t a) then 1 else 0)
        ≡ holder_count s u + (if t == u && ltb 0 x then 1 else 0)
  unfolding holder_count set_token_balance token_balance
  holder_count-set_token_balance s t a x u trimmed =
      let d = env.iter ℕ s.token_balances in
      let k = env.ledger_key t a in
      ground (
        arith,
        trimmed k,
        env.get-iter ℕ s.token_balances k,
        env.iter-insert ℕ s.token_balances k x,
        env.iter-remove ℕ s.token_balances k,
        env.key_token-ledger_key t a,
        sum_entries-insert (held u) k x d (env.iter-ascending ℕ s.token_balances),
        sum_entries-remove (held u) k d,
      )

  pub set_token_balance-IsTrimmed :
      (s : Store env) (t a x : ℕ) → IsTrimmed s → IsTrimmed (set_token_balance env s t a x)
  unfolding set_token_balance
  set_token_balance-IsTrimmed s t a x trimmed = λ j.
      let d = env.iter ℕ s.token_balances in
      let k = env.ledger_key t a in
      ground (
        arith,
        trimmed j,
        env.iter-insert ℕ s.token_balances k x,
        env.iter-remove ℕ s.token_balances k,
        lookup-insert k j x d,
        lookup-remove k j d (env.iter-ascending ℕ s.token_balances),
      )

  pub set_token-IsTrimmed :
      (s : Store env) (k : Token) → IsTrimmed s → IsTrimmed (set_token env s k)
  unfolding set_token
  set_token-IsTrimmed s k trimmed = trimmed

  pub token_balance-le-circulating :
      (s : Store env) (t a : ℕ) → token_balance env s t a ≤ circulating s t
  unfolding token_balance circulating
  token_balance-le-circulating s t a = ground (
    arith,
    env.get-iter ℕ s.token_balances (env.ledger_key t a),
    env.key_token-ledger_key t a,
    weight-le-sum_entries (units t) (env.ledger_key t a) (env.iter ℕ s.token_balances),
  )

  ledger_key_ne : (t a b : ℕ) → b ≢ a → env.ledger_key t b ≢ env.ledger_key t a
  ledger_key_ne t a b ne e =
      ne (
        sym (env.key_address-ledger_key t b)
        ∙ ap env.key_address e
        ∙ env.key_address-ledger_key t a)

  -- The accounts of one token do not share their entries.
  pub token_balance-set_token_balance_ne :
      (s : Store env) (t a x b : ℕ)
      → b ≢ a
      → token_balance env (set_token_balance env s t a x) t b ≡ token_balance env s t b
  token_balance-set_token_balance_ne s t a x b ne =
      ground (arith, token_balance-set_token_balance s t a x t b, ledger_key_ne t a b ne)
