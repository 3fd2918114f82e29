-- ===== src/Contracts.antt =====
-- Contracts: the checks of src/contracts.rs around a run, and the contract trees of src/state.rs.
pub mod Host
pub mod Within
pub mod Outcomes
use inazuma_core.Base.{
  ℕ, ◌*◌, ◌%◌, Bool, false, not, ◌&&◌, Option, none, some, List, [], ◌∷◌, length, ltb, ◌==◌,
  if◌then◌else◌, Result, ok, err, u128_saturating_mul, u64_mod, min, max,
}
use inazuma_core.Platform.{Platform, Leaf}
use inazuma_core.Records.{Payload, Contract, Receipt}
use inazuma_core.State.{Store}
use inazuma_core.Types.{rai_per_inaz}
use inazuma_core.Guest.{Outcome}
use inazuma_core.Externals.{Externals}

abbrev pub deploy_fee : ℕ
deploy_fee = 5 * rai_per_inaz

abbrev pub max_code_bytes : ℕ
max_code_bytes = 256 * 1024

abbrev pub max_input_bytes : ℕ
max_input_bytes = 16 * 1024

abbrev pub fuel_per_rai : ℕ
fuel_per_rai = 400

abbrev pub max_fuel : ℕ
max_fuel = 2_000_000_000

pub data ContractError : Type 0 where
  missing_payload not_hex empty_code code_too_large not_wasm args_not_hex args_too_large :
      ContractError
  invalid_wasm invalid_address no_contract : ContractError

-- The magic bytes `\0asm`, of eight bytes at least.
abbrev pub has_magic : List ℕ → Bool
has_magic (a ∷ b ∷ c ∷ d ∷ e) = a == 0 && b == 97 && c == 115 && d == 109 && ltb 3 (length e)
has_magic _ = false

unfoldable pub fuel_for_fee : ℕ → ℕ
fuel_for_fee fee = max (min (u128_saturating_mul fee fuel_per_rai) max_fuel % u64_mod) 1_000_000

unfoldable pub contract_leaf : Contract → Leaf
contract_leaf c = Leaf.contract c.address c.code_hash c.creator c.created_height

unfoldable pub receipt_of : Outcome → ℕ → ℕ → ℕ → Receipt
receipt_of o contract caller height = record {
  contract = contract;
  caller = caller;
  is_ok = o.is_ok;
  fuel_used = o.fuel_used;
  height = height;
  return_bytes = o.ret;
  logs = o.logs;
  error = o.error;
}

module _ (env : Platform) where
  unfoldable pub contract : Store env → ℕ → Option Contract
  contract s address = env.get Contract s.contracts address

  unfoldable pub set_contract : Store env → Contract → Store env
  unfolding contract_leaf
  set_contract s c = record s {
    contracts = env.tree_insert Contract s.contracts c.address c;
    smt_nodes = env.smt_set s.smt_nodes (contract_leaf c);
  }

  unfoldable pub put_code : Store env → ℕ → List ℕ → Store env
  put_code s hash code = record s { codes = env.tree_insert (List ℕ) s.codes hash code }

  unfoldable pub code_at : Store env → ℕ → Option (List ℕ)
  code_at s hash = env.get (List ℕ) s.codes hash

  -- The storage key `address:key` has the shape of a ledger key.
  unfoldable pub contract_storage : Store env → ℕ → ℕ → Option ℕ
  contract_storage s address key = env.get ℕ s.storage (env.ledger_key address key)

  unfoldable pub set_contract_storage : Store env → ℕ → ℕ → Option ℕ → Store env
  set_contract_storage s address key value =
      let k = env.ledger_key address key in
      record s {
        storage = elim value [
          | some v ↦ env.tree_insert ℕ s.storage k v
          | none ↦ env.tree_remove ℕ s.storage k
        ];
        smt_nodes = env.smt_set s.smt_nodes (Leaf.cstorage k value);
      }

  unfoldable pub put_receipt : Store env → ℕ → Receipt → Store env
  put_receipt s hash r = record s { receipts = env.tree_insert Receipt s.receipts hash r }

  unfoldable pub receipt : Store env → ℕ → Option Receipt
  receipt s hash = env.get Receipt s.receipts hash

  unfoldable pub check_call : Store env → ℕ → Result ContractError Contract
  unfolding contract
  check_call s address =
      if not (env.is_valid_address address)
      then err invalid_address
      else elim (contract s address) [ none ↦ err no_contract | some c ↦ ok c ]

  module _ (ext : Externals env) where
    unfoldable pub decode_code : Option Payload → Result ContractError (List ℕ)
    decode_code none = err missing_payload
    decode_code (some p) = elim (env.hex_decode (ext.trim_0x (env.trim p.code))) [
      | none ↦ err not_hex
      | some raw ↦
          if length raw == 0
          then err empty_code
          else (if ltb max_code_bytes (length raw)
              then err code_too_large
              else (if not (has_magic raw) then err not_wasm else ok raw))
    ]

    unfoldable pub decode_args : Option Payload → Result ContractError (List ℕ)
    decode_args none = ok []
    decode_args (some p) =
        let args = ext.trim_0x (env.trim p.args) in
        if env.is_empty args then ok [] else elim (env.hex_decode args) [
          | none ↦ err args_not_hex
          | some raw ↦ if ltb max_input_bytes (length raw) then err args_too_large else ok raw
        ]

    unfoldable pub check_deploy : List ℕ → Result ContractError (Unit {0})
    check_deploy code = if ext.wasm_valid code then ok tt else err invalid_wasm
