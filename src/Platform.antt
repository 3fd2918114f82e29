-- ===== src/Platform.antt =====
-- What the node calls and does not implement, or implements over the content of strings that the
-- model keeps opaque. A program part takes a `Platform` as its section parameter.
use inazuma_core.Base.{ℕ, ◌≡◌, Bool, Option, List, Dict, lookup, insert, remove, IsAscending}
pub mod Pairs
pub mod Sample
use inazuma_core.Records.{Evidence, Offence}

-- One entry of the Merkle state (src/state.rs `account_leaf`, `token_leaf`, `set_token_balance`).
pub data Leaf : Type 0 where
  -- address; balance, nonce, staked, unbonding total, rewards
  acct : ℕ → ℕ → ℕ → ℕ → ℕ → ℕ → Leaf
  -- id; symbol, decimals, supply, creator, mintable
  token : ℕ → ℕ → ℕ → ℕ → ℕ → Bool → Leaf
  -- ledger key; balance, or none when the entry is cleared
  token_bal : ℕ → Option ℕ → Leaf
  -- address; code hash, creator, creation height
  contract : ℕ → ℕ → ℕ → ℕ → Leaf
  -- storage key; value, or none when the entry is cleared
  cstorage : ℕ → Option ℕ → Leaf
  -- The three entries of the shielded pool: its root, its balance, the digest of its nullifiers.
  shielded_root : ℕ → Leaf
  shielded_pool : ℕ → Leaf
  shielded_nulls : ℕ → Leaf

pub record Platform : Type 1 where
  -- sled: a persistent ordered map; `iter` yields the entries in ascending key order.
  pub Tree : Type 0 → Type 0
  pub iter : (V : Type 0) → Tree V → Dict V
  pub get : (V : Type 0) → Tree V → ℕ → Option V
  pub tree_insert : (V : Type 0) → Tree V → ℕ → V → Tree V
  pub tree_remove : (V : Type 0) → Tree V → ℕ → Tree V
  pub iter-ascending : (V : Type 0) (t : Tree V) → IsAscending (iter V t)
  pub get-iter : (V : Type 0) (t : Tree V) (k : ℕ) → get V t k ≡ lookup k (iter V t)
  pub iter-insert :
      (V : Type 0) (t : Tree V) (k : ℕ) (v : V)
      → iter V (tree_insert V t k v) ≡ insert k v (iter V t)
  pub iter-remove :
      (V : Type 0) (t : Tree V) (k : ℕ) → iter V (tree_remove V t k) ≡ remove k (iter V t)
  -- The ledger's key `token:address` and its parts. Token ids are `tk` and hex digits, so that the
  -- first `:` ends the id; the second equation holds for any text.
  pub ledger_key : ℕ → ℕ → ℕ
  pub key_token : ℕ → ℕ
  pub key_address : ℕ → ℕ
  pub key_token-ledger_key : (t a : ℕ) → key_token (ledger_key t a) ≡ t
  pub key_address-ledger_key : (t a : ℕ) → key_address (ledger_key t a) ≡ a
  -- Functions of the content of texts: `token_id` and `is_valid_address` (src/tokens.rs and
  -- src/crypto.rs, over SHA-256 and base58), `normalize_symbol` (src/tokens.rs), and `str::trim`,
  -- `str::is_empty` and `str::len`.
  pub token_id : ℕ → ℕ → ℕ → ℕ
  pub is_valid_address : ℕ → Bool
  pub normalize_symbol : ℕ → Option ℕ
  pub trim : ℕ → ℕ
  pub is_empty : ℕ → Bool
  pub text_len : ℕ → ℕ
  pub empty_text : ℕ
  pub delimiter_free : ℕ → Bool
  -- The `hex` package, and of src/crypto.rs the address of a key and the check of an Ed25519
  -- signature: public key, signed text, signature.
  pub hex_decode : ℕ → Option (List ℕ)
  pub address_from_pubkey : List ℕ → ℕ
  pub sig_verify : ℕ → ℕ → ℕ → Bool
  -- The signed text of a vote (height and hash) and of a header (its fields in order), and the
  -- hash of a header's text and signature.
  pub vote_bytes : ℕ → ℕ → ℕ
  pub header_bytes : ℕ → ℕ → ℕ → ℕ → ℕ → ℕ → ℕ → ℕ
  pub header_hash : ℕ → ℕ → ℕ
  -- The texts `kind:height:offender:hash+hash` and `downtime:height:address` that name a slash.
  pub slash_key : Offence → ℕ → ℕ → ℕ → ℕ → ℕ
  pub downtime_key : ℕ → ℕ → ℕ
  -- The evidence in a payload's `args`: hex of JSON (the packages `hex` and `serde_json`).
  pub decode_evidence : ℕ → Option Evidence
  -- The leader draw of src/staking.rs before it is reduced: the first 16 bytes of
  -- SHA-256 of height, parent hash and attempt, as a number.
  pub draw : ℕ → ℕ → ℕ → ℕ
  -- The nodes of the Merkle tree, and `Smt::set`.
  pub Nodes : Type 0
  pub smt_set : Nodes → Leaf → Nodes
