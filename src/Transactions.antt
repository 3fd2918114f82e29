-- ===== src/Transactions.antt =====
-- Transactions of src/types.rs: their kinds, fields and sender.
use inazuma_core.Base.{
  ℕ, Bool, true, false, not, ◌&&◌, Option, none, some, List, length, ◌==◌, if◌then◌else◌,
}
use inazuma_core.Platform.{Platform}
use inazuma_core.Records.{Payload}

pub data TxKind : Type 0 where
  transfer stake unstake report_equivocation unjail create_token mint_token : TxKind
  token_transfer burn_token deploy_contract call_contract shield private_transfer unshield : TxKind

pub record ShieldedData : Type 0 where
  pub anchor : ℕ
  pub nullifiers : List ℕ
  pub commitments : List ℕ
  pub proof : ℕ
  pub public_unshield : ℕ

pub record Transaction : Type 0 where
  pub kind : TxKind
  pub from_pubkey : ℕ
  pub to : ℕ
  pub amount : ℕ
  pub fee : ℕ
  pub nonce : ℕ
  pub chain_id : ℕ
  pub payload : Option Payload
  pub shielded : Option ShieldedData
  pub signature : ℕ

-- `Block` of src/types.rs
pub record Block : Type 0 where
  pub height : ℕ
  pub parent_hash : ℕ
  pub timestamp_ms : ℕ
  pub state_root : ℕ
  pub txs_root : ℕ
  pub producer : ℕ
  pub producer_pubkey : ℕ
  pub transactions : List Transaction
  pub signature : ℕ
  pub hash : ℕ

unfoldable pub is_shielded : TxKind → Bool
is_shielded shield = true
is_shielded private_transfer = true
is_shielded unshield = true
is_shielded _ = false

module _ (env : Platform) where
  unfoldable pub sender : Transaction → Option ℕ
  sender tx = elim (env.hex_decode tx.from_pubkey) [
    | none ↦ none
    | some raw ↦ if not (length raw == 32) then none else some (env.address_from_pubkey raw)
  ]

  unfoldable pub fields_unambiguous : Transaction → Bool
  fields_unambiguous tx =
      env.delimiter_free tx.from_pubkey && env.delimiter_free tx.to && elim tx.payload [
        | none ↦ true
        | some p ↦
            env.delimiter_free p.token
            && env.delimiter_free p.symbol
            && env.delimiter_free p.name
            && env.delimiter_free p.code
            && env.delimiter_free p.args
      ]

  -- `header_bytes`, `compute_hash` and `verify_producer` of a block.
  unfoldable pub header_text : Block → ℕ
  header_text b =
      env.header_bytes b.height b.parent_hash b.timestamp_ms b.state_root b.txs_root b.producer
        b.producer_pubkey

  unfoldable pub compute_hash : Block → ℕ
  unfolding header_text
  compute_hash b = env.header_hash (header_text b) b.signature

  unfoldable pub verify_producer : Block → Bool
  unfolding header_text compute_hash
  verify_producer b = elim (env.hex_decode b.producer_pubkey) [
    | none ↦ false
    | some raw ↦
        length raw == 32
        && env.address_from_pubkey raw == b.producer
        && b.hash == compute_hash b
        && env.sig_verify b.producer_pubkey (header_text b) b.signature
  ]
