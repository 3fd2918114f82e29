-- ===== src/Signing/Verify.antt =====
-- The hash of a transaction of src/types.rs and the check of its signature.
use inazuma_core.Base.{ℕ, Bool, true, ◌++◌, ◌&&◌, if◌then◌else◌}
use inazuma_core.Platform.{Platform}
use inazuma_core.Transactions.{Transaction, is_shielded, fields_unambiguous}
use inazuma_core.Externals.{Externals}
use inazuma_core.Signing.{canonical_signing_bytes, signing_bytes}

module _ (env : Platform) (ext : Externals env) where
  -- `Transaction::hash`, over the legacy bytes.
  unfoldable pub tx_hash : Transaction → ℕ
  unfolding signing_bytes
  tx_hash tx =
      ext.hash_hex
        (signing_bytes ext.as_bytes ext.decimal env.is_empty tx ++ ext.as_bytes tx.signature)

  unfoldable pub verify_signature : Transaction → Bool
  unfolding signing_bytes canonical_signing_bytes is_shielded fields_unambiguous
  verify_signature tx =
      let canonical =
        ext.verify_bytes tx.from_pubkey (canonical_signing_bytes ext.as_bytes tx) tx.signature in
      let legacy =
        ext.verify_bytes tx.from_pubkey (signing_bytes ext.as_bytes ext.decimal env.is_empty tx)
          tx.signature in
      if is_shielded tx.kind
      then canonical
      else (if canonical then true else fields_unambiguous env tx && legacy)
