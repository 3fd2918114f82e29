-- ===== src/Tokens.antt =====
-- The native token module, src/tokens.rs: what the mempool checks before it admits a token
-- transaction, and what execution then does to the store. A payload is there on every token
-- transaction that passes; a missing one is the error `missing_payload`.
pub mod Transfer
pub mod Create
use inazuma_core.Base.{
  ℕ, Bool, true, false, not, ◌||◌, Option, none, some, ltb, ◌==◌, if◌then◌else◌, Result, ok, err,
}
use inazuma_core.Platform.{Platform}
use inazuma_core.Records.{Token, Payload}
use inazuma_core.State.{Store, TokenError}
use inazuma_core.State.Ledger.{token, set_token, token_balance, credit_token, debit_token}

abbrev pub max_decimals : ℕ
max_decimals = 18

abbrev pub max_name_len : ℕ
max_name_len = 40

pub data Error : Type 0 where
  missing_payload bad_symbol bad_name bad_decimals token_exists unknown_token : Error
  not_creator fixed_supply zero_amount bad_recipient insufficient_tokens not_allowed : Error
  ledger : TokenError → Error

module _ (env : Platform) where
  abbrev pub Applied : Type 0
  Applied = Result Error (Unit {0}) × Store env

  -- `?` on a ledger operation: the store goes on as the operation left it.
  abbrev pub lift : Result TokenError (Unit {0}) × Store env → Applied
  lift (ok u, s) = (ok tt, s)
  lift (err e, s) = (err (ledger e), s)

  abbrev pub and_then : Applied → (Store env → Applied) → Applied
  and_then (ok u, s) f = f s
  and_then (err e, s) f = (err e, s)

  abbrev pub reject_if : Bool → Error → Result Error (Unit {0}) → Result Error (Unit {0})
  reject_if b e rest = if b then err e else rest

  unfoldable pub check_create : Store env → ℕ → ℕ → Option Payload → Result Error (Unit {0})
  check_create s sender nonce none = err missing_payload
  check_create s sender nonce (some p) = elim (env.normalize_symbol p.symbol) [
    | none ↦ err bad_symbol
    | some symbol ↦
        reject_if (env.is_empty (env.trim p.name) || ltb max_name_len (env.text_len p.name))
          bad_name
          (reject_if (ltb max_decimals p.decimals) bad_decimals
            (elim (token env s (env.token_id sender nonce symbol)) [
              | none ↦ ok tt
              | some t ↦ err token_exists
            ]))
  ]

  unfoldable pub check_mint : Store env → ℕ → ℕ → ℕ → Option Payload → Result Error (Unit {0})
  check_mint s sender to amount none = err missing_payload
  check_mint s sender to amount (some p) = elim (token env s p.token) [
    | none ↦ err unknown_token
    | some t ↦ reject_if (not (t.creator == sender)) not_creator (
        reject_if (not t.mintable) fixed_supply (
          reject_if (amount == 0) zero_amount
            (reject_if (not (env.is_valid_address to)) bad_recipient (ok tt))))
  ]

  unfoldable pub check_token_transfer :
      Store env → ℕ → ℕ → ℕ → Option Payload → Result Error (Unit {0})
  check_token_transfer s sender to amount none = err missing_payload
  check_token_transfer s sender to amount (some p) = elim (token env s p.token) [
    | none ↦ err unknown_token
    | some t ↦ reject_if (amount == 0) zero_amount (
        reject_if (not (env.is_valid_address to)) bad_recipient
          (reject_if (ltb (token_balance env s t.id sender) amount) insufficient_tokens (ok tt)))
  ]

  unfoldable pub check_burn : Store env → ℕ → ℕ → Option Payload → Result Error (Unit {0})
  check_burn s sender amount none = err missing_payload
  check_burn s sender amount (some p) = elim (token env s p.token) [
    | none ↦ err unknown_token
    | some t ↦
        reject_if (amount == 0) zero_amount
          (reject_if (ltb (token_balance env s t.id sender) amount) insufficient_tokens (ok tt))
  ]

  -- The registry entry of a token that is being created.
  abbrev pub new_token : ℕ → ℕ → ℕ → ℕ → Payload → Token
  new_token id symbol sender height p = record {
    id = id;
    symbol = symbol;
    name = env.trim p.name;
    decimals = p.decimals;
    supply = 0;
    creator = sender;
    mintable = p.mintable;
    created_height = height;
    holders = 0;
  }

  -- The source returns the new id, which its only caller drops.
  unfoldable pub apply_create : Store env → ℕ → ℕ → ℕ → ℕ → Option Payload → Applied
  apply_create s sender nonce initial_supply height none = (err missing_payload, s)
  apply_create s sender nonce initial_supply height (some p) =
      elim (env.normalize_symbol p.symbol) [
        | none ↦ (err bad_symbol, s)
        | some symbol ↦
            if ltb max_decimals p.decimals
            then (err bad_decimals, s)
            else (let id = env.token_id sender nonce symbol in
                elim (token env s id) [
                  | some t ↦ (err token_exists, s)
                  | none ↦
                      let s' = set_token env s (new_token id symbol sender height p) in
                      if ltb 0 initial_supply
                      then lift (credit_token env s' id sender initial_supply)
                      else (ok tt, s')
                ])
      ]

  unfoldable pub apply_mint : Store env → ℕ → ℕ → ℕ → Option Payload → Applied
  apply_mint s sender to amount none = (err missing_payload, s)
  apply_mint s sender to amount (some p) = elim (token env s p.token) [
    | none ↦ (err unknown_token, s)
    | some t ↦
        if not (t.creator == sender) || not t.mintable
        then (err not_allowed, s)
        else lift (credit_token env s t.id to amount)
  ]

  unfoldable pub apply_token_transfer : Store env → ℕ → ℕ → ℕ → Option Payload → Applied
  apply_token_transfer s sender to amount none = (err missing_payload, s)
  apply_token_transfer s sender to amount (some p) = elim (token env s p.token) [
    | none ↦ (err unknown_token, s)
    | some t ↦
        if sender == to
        then (ok tt, s)
        else and_then (lift (debit_token env s t.id sender amount))
            (λ s'. lift (credit_token env s' t.id to amount))
  ]

  unfoldable pub apply_burn : Store env → ℕ → ℕ → Option Payload → Applied
  apply_burn s sender amount none = (err missing_payload, s)
  apply_burn s sender amount (some p) = elim (token env s p.token) [
    | none ↦ (err unknown_token, s)
    | some t ↦ lift (debit_token env s t.id sender amount)
  ]
