-- ===== src/Execution/Sample.antt =====
-- The packages that execution calls, concretely: a contract that sends 200 coins to the account 8,
-- and every proof is right.
use inazuma_core.Base.{◌+◌, ◌*◌, true, some, [], ◌∷◌, ◌==◌, ok}
use inazuma_core.Guest.{Guest, HostCall, ask, started, ended, exited, pos}
use inazuma_core.Platform.Sample.{sample, first_byte}
use inazuma_core.Externals.{Externals}

-- Its memory is the byte 8.
abbrev pub sender_program : Guest
sender_program = started (
    ask 1 (some (8 ∷ [])) (HostCall.inz_transfer (pos 0) (pos 1) (pos 200))
      (λ reply. ended 2 (exited 0)))

abbrev pub packages : Externals sample
packages = record {
  wasm_valid = λ code. true;
  wasm_run = λ code fuel. ok sender_program;
  describe = λ e. 0;
  from_utf8_lossy = first_byte;
  as_bytes = λ s. s ∷ [];
  stored_value = first_byte;
  value_bytes = λ v. v ∷ [];
  trim_0x = λ s. s;
  parse_u128 = λ s. some s;
  code_hash = first_byte;
  contract_address = λ creator nonce hash. creator * 100 + nonce * 10 + hash;
  decimal = λ n. n ∷ [];
  hash_hex = first_byte;
  verify_bytes = λ key bytes signature. true;
  sha256_text = λ h. h;
  sha256_pair = λ a b. a + b;
  hex_digest = λ d. 0;
  empty_root = 0;
  from_be_bytes_mod_order = first_byte;
  fr_u128 = λ x. x;
  fr_zero = 0;
  proof_from_hex = λ s. some s;
  vk_from_bytes = λ s. some s;
  devnet_vk = 5;
  vk_to_bytes = λ k. k;
  verify = λ vk proof inputs. proof == 9;
  hash2 = λ a b. a + b;
  fr_to_hex = λ x. x;
  nulls_digest = λ ns. 0;
  state_root = λ s. 0;
  merkle_root = λ s. 0;
}
