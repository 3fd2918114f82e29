-- ===== src/Signing/Unambiguous.antt =====
-- The signed bytes of src/types.rs say which transaction they are of.
use inazuma_core.Base.{ℕ, ◌^◌, ◌<◌, ◌≡◌, refl, sym, ◌∙◌, List, [], length, arith, append-nil}
use inazuma_core.Transactions.{Transaction, TxKind}
use inazuma_core.Signing.{tag, tx_domain_v2, field, shielded_bytes, canonical_signing_bytes}
use inazuma_core.Signing.Bytes.{tag-injective}
use inazuma_core.Signing.Pieces.{
  Short, PayloadFits, ShieldedFits, append_split, number_split, field_split, text_split,
}
use inazuma_core.Signing.Optional.{payload_split, shielded_split}

tag-length : (k : TxKind) → length (tag k) < 2 ^ 32
unfolding tag
tag-length k = ground arith

module _ (as_bytes : ℕ → List ℕ) where
  -- The numbers are in the range of their types, and no text or list reaches 4 GiB.
  pub record Fits (tx : Transaction) : Type 0 where
    pub chain_id : tx.chain_id < 256 ^ 8
    pub from_pubkey : Short as_bytes tx.from_pubkey
    pub to : Short as_bytes tx.to
    pub amount : tx.amount < 256 ^ 16
    pub fee : tx.fee < 256 ^ 16
    pub nonce : tx.nonce < 256 ^ 8
    pub payload : PayloadFits as_bytes tx.payload
    pub shielded : ShieldedFits as_bytes tx.shielded

  -- Two transactions with the same canonical signed bytes are the same but for their signatures,
  -- whatever characters their texts have. That a text is determined by its bytes is a condition, and
  -- that the numbers of both are in the range of their types and no text or list reaches 4 GiB.
  pub canonical_signing_bytes-injective :
      ((t u : ℕ) → as_bytes t ≡ as_bytes u → t ≡ u)
      → (x y : Transaction) → Fits x
      → Fits y
      → canonical_signing_bytes as_bytes x ≡ canonical_signing_bytes as_bytes y
      → record x { signature = 0 } ≡ record y { signature = 0 }
  unfolding canonical_signing_bytes
  canonical_signing_bytes-injective inj x y h k e =
      let (domain, e₀) = append_split (field tx_domain_v2) (field tx_domain_v2) _ _ refl e in
      let (chain, e₁) = number_split 8 x.chain_id y.chain_id _ _ h.chain_id k.chain_id e₀ in
      let (tags, e₂) =
        field_split (tag x.kind) (tag y.kind) _ _ (tag-length x.kind) (tag-length y.kind) e₁ in
      let kind = tag-injective x.kind y.kind tags in
      let (sender, e₃) =
        text_split as_bytes inj x.from_pubkey y.from_pubkey _ _ h.from_pubkey k.from_pubkey e₂ in
      let (receiver, e₄) = text_split as_bytes inj x.to y.to _ _ h.to k.to e₃ in
      let (amount, e₅) = number_split 16 x.amount y.amount _ _ h.amount k.amount e₄ in
      let (fee, e₆) = number_split 16 x.fee y.fee _ _ h.fee k.fee e₅ in
      let (nonce, e₇) = number_split 8 x.nonce y.nonce _ _ h.nonce k.nonce e₆ in
      let (payload, e₈) =
        payload_split as_bytes inj x.payload y.payload _ _ h.payload k.payload e₇ in
      let (shielded, e₉) =
        shielded_split as_bytes inj x.shielded y.shielded [] [] h.shielded k.shielded (
          append-nil (shielded_bytes as_bytes x.shielded)
          ∙ e₈
          ∙ sym (append-nil (shielded_bytes as_bytes y.shielded))) in
      λ i. record {
        kind = kind i;
        from_pubkey = sender i;
        to = receiver i;
        amount = amount i;
        fee = fee i;
        nonce = nonce i;
        chain_id = chain i;
        payload = payload i;
        shielded = shielded i;
        signature = 0;
      }
