-- ===== src/Signing.antt =====
-- The signed bytes of a transaction of src/types.rs: `canonical_signing_bytes` and the legacy
-- `signing_bytes`, which joins its fields by `|`. The pieces of the former are
-- concatenated in the order in which the source pushes them. A text is opaque: `as_bytes` is
-- `str::as_bytes`.
pub mod Bytes
pub mod Pieces
pub mod Optional
pub mod Unambiguous
pub mod Verify
use inazuma_core.Base.{
  ℕ, zero, suc, ◌*◌, ◌/◌, ◌%◌, ◌^◌, Bool, true, false, Option, none, some, List, [], ◌∷◌, ◌++◌,
  length, if◌then◌else◌, ◌&&◌,
}
use inazuma_core.Records.{Payload}
use inazuma_core.Transactions.{Transaction, ShieldedData, TxKind}

-- The bytes of `TxKind::tag`, in ASCII.
unfoldable pub tag : TxKind → List ℕ
tag TxKind.transfer = 116 ∷ 114 ∷ 97 ∷ 110 ∷ 115 ∷ 102 ∷ 101 ∷ 114 ∷ []
tag TxKind.stake = 115 ∷ 116 ∷ 97 ∷ 107 ∷ 101 ∷ []
tag TxKind.unstake = 117 ∷ 110 ∷ 115 ∷ 116 ∷ 97 ∷ 107 ∷ 101 ∷ []
tag TxKind.report_equivocation =
    114 ∷ 101 ∷ 112 ∷ 111 ∷ 114 ∷ 116 ∷ 101 ∷ 113 ∷ 117 ∷ 105 ∷ 118 ∷ 111 ∷ 99 ∷ 97 ∷ 116 ∷ 105
    ∷ 111 ∷ 110 ∷ []
tag TxKind.unjail = 117 ∷ 110 ∷ 106 ∷ 97 ∷ 105 ∷ 108 ∷ []
tag TxKind.create_token = 99 ∷ 114 ∷ 101 ∷ 97 ∷ 116 ∷ 101 ∷ 116 ∷ 111 ∷ 107 ∷ 101 ∷ 110 ∷ []
tag TxKind.mint_token = 109 ∷ 105 ∷ 110 ∷ 116 ∷ 116 ∷ 111 ∷ 107 ∷ 101 ∷ 110 ∷ []
tag TxKind.token_transfer =
    116 ∷ 111 ∷ 107 ∷ 101 ∷ 110 ∷ 116 ∷ 114 ∷ 97 ∷ 110 ∷ 115 ∷ 102 ∷ 101 ∷ 114 ∷ []
tag TxKind.burn_token = 98 ∷ 117 ∷ 114 ∷ 110 ∷ 116 ∷ 111 ∷ 107 ∷ 101 ∷ 110 ∷ []
tag TxKind.deploy_contract =
    100 ∷ 101 ∷ 112 ∷ 108 ∷ 111 ∷ 121 ∷ 99 ∷ 111 ∷ 110 ∷ 116 ∷ 114 ∷ 97 ∷ 99 ∷ 116 ∷ []
tag TxKind.call_contract = 99 ∷ 97 ∷ 108 ∷ 108 ∷ 99 ∷ 111 ∷ 110 ∷ 116 ∷ 114 ∷ 97 ∷ 99 ∷ 116 ∷ []
tag TxKind.shield = 115 ∷ 104 ∷ 105 ∷ 101 ∷ 108 ∷ 100 ∷ []
tag TxKind.private_transfer =
    112 ∷ 114 ∷ 105 ∷ 118 ∷ 97 ∷ 116 ∷ 101 ∷ 116 ∷ 114 ∷ 97 ∷ 110 ∷ 115 ∷ 102 ∷ 101 ∷ 114 ∷ []
tag TxKind.unshield = 117 ∷ 110 ∷ 115 ∷ 104 ∷ 105 ∷ 101 ∷ 108 ∷ 100 ∷ []

-- `b"inazuma-tx-v2"`
abbrev pub tx_domain_v2 : List ℕ
tx_domain_v2 = 105 ∷ 110 ∷ 97 ∷ 122 ∷ 117 ∷ 109 ∷ 97 ∷ 45 ∷ 116 ∷ 120 ∷ 45 ∷ 118 ∷ 50 ∷ []

-- `to_be_bytes` of a number of the width in bytes.
unfoldable pub to_be_bytes : ℕ → ℕ → List ℕ
to_be_bytes zero n = []
to_be_bytes (suc width) n = to_be_bytes width (n / 256) ++ n % 256 ∷ []

-- What `push_field` appends: the cast `as u32` keeps the low 32 bits of the length.
unfoldable pub field : List ℕ → List ℕ
unfolding to_be_bytes
field bytes = to_be_bytes 4 (length bytes % 2 ^ 32) ++ bytes

abbrev pub flag : Bool → ℕ
flag b = if b then 1 else 0

module _ (as_bytes : ℕ → List ℕ) where
  -- `push_str`
  unfoldable pub text : ℕ → List ℕ
  text t = field (as_bytes t)

  -- The loop over nullifiers or commitments, and their number before it.
  unfoldable pub texts : List ℕ → List ℕ
  texts [] = []
  texts (t ∷ ts) = text t ++ texts ts

  unfoldable pub counted : List ℕ → List ℕ
  unfolding texts
  counted ts = to_be_bytes 4 (length ts % 2 ^ 32) ++ texts ts

  unfoldable pub payload_bytes : Option Payload → List ℕ
  payload_bytes none = 0 ∷ []
  payload_bytes (some p) =
      1
      ∷ (text p.token
          ++ (text p.symbol
              ++ (text p.name ++ (p.decimals ∷ flag p.mintable ∷ (text p.code ++ text p.args)))))

  unfoldable pub shielded_bytes : Option ShieldedData → List ℕ
  shielded_bytes none = 0 ∷ []
  shielded_bytes (some s) =
      1
      ∷ (text s.anchor
          ++ (counted s.nullifiers
              ++ (counted s.commitments ++ (text s.proof ++ text s.public_unshield))))

  unfoldable pub canonical_signing_bytes : Transaction → List ℕ
  unfolding payload_bytes shielded_bytes
  canonical_signing_bytes tx =
      field tx_domain_v2
      ++ (to_be_bytes 8 tx.chain_id
          ++ (field (tag tx.kind)
              ++ (text tx.from_pubkey
                  ++ (text tx.to
                      ++ (to_be_bytes 16 tx.amount
                          ++ (to_be_bytes 16 tx.fee
                              ++ (to_be_bytes 8 tx.nonce
                                  ++ (payload_bytes tx.payload ++ shielded_bytes tx.shielded))))))))

  -- `"inazuma-tx"` and `"true"` or `"false"` in ASCII, and the `|` between fields.
  abbrev pub tx_prefix : List ℕ
  tx_prefix = 105 ∷ 110 ∷ 97 ∷ 122 ∷ 117 ∷ 109 ∷ 97 ∷ 45 ∷ 116 ∷ 120 ∷ []

  abbrev pub bool_text : Bool → List ℕ
  bool_text true = 116 ∷ 114 ∷ 117 ∷ 101 ∷ []
  bool_text false = 102 ∷ 97 ∷ 108 ∷ 115 ∷ 101 ∷ []

  unfoldable pub joined_by_bar : List ℕ → List (List ℕ) → List ℕ
  joined_by_bar first [] = first
  joined_by_bar first (next ∷ more) = first ++ (124 ∷ joined_by_bar next more)

  module _ (decimal : ℕ → List ℕ) (is_empty : ℕ → Bool) where
    -- The fields of `signing_part`.
    unfoldable pub signing_part : Payload → List (List ℕ)
    signing_part p =
        let base : List (List ℕ) =
          as_bytes p.token
          ∷ as_bytes p.symbol
          ∷ as_bytes p.name
          ∷ decimal p.decimals
          ∷ bool_text p.mintable
          ∷ [] in
        if is_empty p.code && is_empty p.args
        then base
        else base ++ (as_bytes p.code ∷ as_bytes p.args ∷ [])

    unfoldable pub signing_bytes : Transaction → List ℕ
    unfolding joined_by_bar signing_part
    signing_bytes tx =
        let base : List (List ℕ) =
          decimal tx.chain_id
          ∷ tag tx.kind
          ∷ as_bytes tx.from_pubkey
          ∷ as_bytes tx.to
          ∷ decimal tx.amount
          ∷ decimal tx.fee
          ∷ decimal tx.nonce
          ∷ [] in
        joined_by_bar tx_prefix (elim tx.payload [ none ↦ base | some p ↦ base ++ signing_part p ])
