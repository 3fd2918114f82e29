-- ===== src/Records.antt =====
-- The records that the store and the evidence are made of: `Token` of src/tokens.rs, `Vote` of
-- src/consensus.rs, `HeaderProof`, `Evidence` and `SlashRecord` of src/slashing.rs.
use inazuma_core.Base.{ℕ, Bool, Option, List}

pub record Token : Type 0 where
  pub id : ℕ
  pub symbol : ℕ
  pub name : ℕ
  pub decimals : ℕ
  pub supply : ℕ
  pub creator : ℕ
  pub mintable : Bool
  pub created_height : ℕ
  pub holders : ℕ

pub record Vote : Type 0 where
  pub height : ℕ
  pub hash : ℕ
  pub voter_pubkey : ℕ
  pub signature : ℕ

pub record HeaderProof : Type 0 where
  pub height : ℕ
  pub parent_hash : ℕ
  pub timestamp_ms : ℕ
  pub state_root : ℕ
  pub txs_root : ℕ
  pub producer : ℕ
  pub producer_pubkey : ℕ
  pub signature : ℕ
  pub hash : ℕ

pub data Evidence : Type 0 where
  block : HeaderProof → HeaderProof → Evidence
  vote : Vote → Vote → Evidence

pub data Offence : Type 0 where
  double_sign double_vote downtime : Offence

pub record SlashRecord : Type 0 where
  pub id : ℕ
  pub offence : Offence
  pub offender : ℕ
  pub offence_height : ℕ
  pub applied_height : ℕ
  pub burned : ℕ
  pub bounty : ℕ
  pub reporter : ℕ
  pub tombstoned : Bool
  pub jailed_until : ℕ

-- `Payload` of src/types.rs
pub record Payload : Type 0 where
  pub token : ℕ
  pub symbol : ℕ
  pub name : ℕ
  pub decimals : ℕ
  pub mintable : Bool
  pub code : ℕ
  pub args : ℕ

pub record Contract : Type 0 where
  pub address : ℕ
  pub code_hash : ℕ
  pub code_size : ℕ
  pub creator : ℕ
  pub created_height : ℕ
  pub calls : ℕ

pub record Receipt : Type 0 where
  pub contract : ℕ
  pub caller : ℕ
  pub is_ok : Bool
  pub fuel_used : ℕ
  pub height : ℕ
  pub return_bytes : List ℕ
  pub logs : List ℕ
  pub error : Option ℕ
