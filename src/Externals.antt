-- ===== src/Externals.antt =====
-- What execution calls beside the store: packages, and functions of opaque texts and bytes.
use inazuma_core.Base.{ℕ, Bool, Option, List, Result}
use inazuma_core.Guest.{Guest, RunError}
use inazuma_core.Platform.{Platform}
use inazuma_core.State.{Store}

pub record Externals (env : Platform) : Type 0 where
  -- The `wasmi` package: whether the bytes are a module, and the program that they are under an amount of
  -- fuel, or why they are none.
  pub wasm_valid : List ℕ → Bool
  pub wasm_run : List ℕ → ℕ → Result ℕ Guest
  -- The texts of errors; bytes as a text and back; bytes as a stored value and back.
  pub describe : RunError → ℕ
  pub from_utf8_lossy : List ℕ → ℕ
  pub as_bytes : ℕ → List ℕ
  pub stored_value : List ℕ → ℕ
  pub value_bytes : ℕ → List ℕ
  -- `trim_start_matches("0x")`, `str::parse::<u128>`.
  pub trim_0x : ℕ → ℕ
  pub parse_u128 : ℕ → Option ℕ
  -- SHA-256 of code in hex, and the address of creator, nonce and code hash.
  pub code_hash : List ℕ → ℕ
  pub contract_address : ℕ → ℕ → ℕ → ℕ
  -- A number as a decimal text, SHA-256 of bytes in hex, and whether a signature of bytes verifies.
  pub decimal : ℕ → List ℕ
  pub hash_hex : List ℕ → ℕ
  pub verify_bytes : ℕ → List ℕ → ℕ → Bool
  -- SHA-256 of a hash as a text and of two digests, a digest in hex, and the root of no transactions.
  pub sha256_text : ℕ → ℕ
  pub sha256_pair : ℕ → ℕ → ℕ
  pub hex_digest : ℕ → ℕ
  pub empty_root : ℕ
  -- The `arkworks` packages: bytes as an element of the field, an amount as one, the Groth16 proof in
  -- a text, a verifying key in bytes, the keys of the development network, and the verifier.
  pub from_be_bytes_mod_order : List ℕ → ℕ
  pub fr_u128 : ℕ → ℕ
  pub fr_zero : ℕ
  pub proof_from_hex : ℕ → Option ℕ
  pub vk_from_bytes : ℕ → Option ℕ
  pub devnet_vk : ℕ
  pub vk_to_bytes : ℕ → ℕ
  pub verify : ℕ → ℕ → List ℕ → Bool
  -- Poseidon of two elements, and an element in hex.
  pub hash2 : ℕ → ℕ → ℕ
  pub fr_to_hex : ℕ → ℕ
  -- The digest of the spent nullifiers, and the two state roots.
  pub nulls_digest : List (ℕ × ℕ) → ℕ
  pub state_root : Store env → ℕ
  pub merkle_root : Store env → ℕ
