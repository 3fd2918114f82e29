-- ===== src/State/Ledger/Invariant.antt =====
-- The invariant of the token ledger of src/state.rs.
use inazuma_core.Base.{ℕ, ◌≤◌, ◌<◌, ◌≡◌, Option, none, some, arith, u128_mod}
use inazuma_core.Platform.{Platform}
use inazuma_core.Records.{Token}
use inazuma_core.State.{Store}
use inazuma_core.State.Ledger.{token, token_balance}
use inazuma_core.State.Ledger.Balances.{
  circulating, holder_count, IsTrimmed, token_balance-le-circulating,
}

-- What a registry entry says of its token, against the entries of the ledger.
pub record Agrees (id circulating holders : ℕ) (k : Token) : Type 0 where
  pub named : k.id ≡ id
  pub supplied : k.supply ≡ circulating
  pub fits : k.supply < u128_mod
  pub counted : k.holders ≡ holders

pub record IsEmpty (circulating holders : ℕ) : Type 0 where
  pub no_units : circulating ≡ 0
  pub no_holders : holders ≡ 0

-- An unregistered token has no units at all.
abbrev pub Entry : ℕ → ℕ → ℕ → Option Token → Type 0
Entry id circulating holders none = IsEmpty circulating holders
Entry id circulating holders (some k) = Agrees id circulating holders k

module _ (env : Platform) where
  abbrev pub EntryAt : Store env → ℕ → Type 0
  EntryAt s t = Entry t (circulating env s t) (holder_count env s t) (token env s t)

  pub record IsBalanced (s : Store env) : Type 0 where
    pub trimmed : IsTrimmed env s
    pub entry : (t : ℕ) → EntryAt s t

  -- Nobody holds more of a token than its recorded supply.
  pub token_balance-le-supply :
      (s : Store env) (t a : ℕ) (k : Token)
      → IsBalanced s
      → token env s t ≡ some k
      → token_balance env s t a ≤ k.supply
  token_balance-le-supply s t a k h e =
      ground (arith, h.entry t, token_balance-le-circulating env s t a)
