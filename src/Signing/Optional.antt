-- ===== src/Signing/Optional.antt =====
-- The optional parts of the signed bytes in src/types.rs can be split off what follows them.
use inazuma_core.Base.{
  ℕ, ◌≡◌, refl, ap, sym, ◌∙◌, Bool, true, false, Option, none, some, List, ◌∷◌, ◌++◌, arith,
  append_assoc,
}
use inazuma_core.Records.{Payload}
use inazuma_core.Transactions.{ShieldedData}
use inazuma_core.Signing.{flag, text, counted, payload_bytes, shielded_bytes}
use inazuma_core.Signing.Pieces.{
  head_or, tail_of, PayloadFits, ShieldedFits, text_split, counted_split,
}

flag-injective : (a b : Bool) → flag a ≡ flag b → a ≡ b
flag-injective true true h = refl
flag-injective false false h = refl
flag-injective true false h = absurd (omega (arith, h))
flag-injective false true h = absurd (omega (arith, h))

module _ (as_bytes : ℕ → List ℕ) (inj : (t u : ℕ) → as_bytes t ≡ as_bytes u → t ≡ u) where
  -- The bytes of a payload in front of others, nested to the right.
  payload_nested :
      (p : Payload) (r : List ℕ)
      → payload_bytes as_bytes (some p) ++ r
        ≡ 1
          ∷ (text as_bytes p.token
              ++ (text as_bytes p.symbol
                  ++ (text as_bytes p.name
                      ++ (p.decimals
                          ∷ flag p.mintable
                          ∷ (text as_bytes p.code ++ (text as_bytes p.args ++ r))))))
  unfolding payload_bytes
  payload_nested p r = simp append_assoc refl

  pub payload_split :
      (p q : Option Payload) (r s : List ℕ)
      → PayloadFits as_bytes p
      → PayloadFits as_bytes q
      → payload_bytes as_bytes p ++ r ≡ payload_bytes as_bytes q ++ s
      → (p ≡ q) × (r ≡ s)
  unfolding payload_bytes
  payload_split none none r s h k e = (refl, ap tail_of e)
  payload_split none (some q) r s h k e = absurd (omega (arith, ap (head_or 2) e))
  payload_split (some p) none r s h k e = absurd (omega (arith, ap (head_or 2) e))
  payload_split (some p) (some q) r s h k e =
      let (token, e₁) =
        text_split as_bytes inj p.token q.token _ _ h.0 k.0
          (ap tail_of (sym (payload_nested p r) ∙ e ∙ payload_nested q s)) in
      let (symbol, e₂) = text_split as_bytes inj p.symbol q.symbol _ _ h.1 k.1 e₁ in
      let (name, e₃) = text_split as_bytes inj p.name q.name _ _ h.2 k.2 e₂ in
      let decimals = ap (head_or 0) e₃ in
      let mintable = flag-injective p.mintable q.mintable (ap (head_or 0) (ap tail_of e₃)) in
      let (code, e₄) =
        text_split as_bytes inj p.code q.code _ _ h.3 k.3 (ap tail_of (ap tail_of e₃)) in
      let (args, e₅) = text_split as_bytes inj p.args q.args r s h.4 k.4 e₄ in
      (
        λ i. some (record {
          token = token i;
          symbol = symbol i;
          name = name i;
          decimals = decimals i;
          mintable = mintable i;
          code = code i;
          args = args i;
        }),
        e₅,
      )

  shielded_nested :
      (d : ShieldedData) (r : List ℕ)
      → shielded_bytes as_bytes (some d) ++ r
        ≡ 1
          ∷ (text as_bytes d.anchor
              ++ (counted as_bytes d.nullifiers
                  ++ (counted as_bytes d.commitments
                      ++ (text as_bytes d.proof ++ (text as_bytes d.public_unshield ++ r)))))
  unfolding shielded_bytes
  shielded_nested d r = simp append_assoc refl

  pub shielded_split :
      (c d : Option ShieldedData) (r s : List ℕ)
      → ShieldedFits as_bytes c
      → ShieldedFits as_bytes d
      → shielded_bytes as_bytes c ++ r ≡ shielded_bytes as_bytes d ++ s
      → (c ≡ d) × (r ≡ s)
  unfolding shielded_bytes
  shielded_split none none r s h k e = (refl, ap tail_of e)
  shielded_split none (some d) r s h k e = absurd (omega (arith, ap (head_or 2) e))
  shielded_split (some c) none r s h k e = absurd (omega (arith, ap (head_or 2) e))
  shielded_split (some c) (some d) r s h k e =
      let (anchor, e₁) =
        text_split as_bytes inj c.anchor d.anchor _ _ h.0 k.0
          (ap tail_of (sym (shielded_nested c r) ∙ e ∙ shielded_nested d s)) in
      let (nullifiers, e₂) =
        counted_split as_bytes inj c.nullifiers d.nullifiers _ _ h.1 k.1 h.2 k.2 e₁ in
      let (commitments, e₃) =
        counted_split as_bytes inj c.commitments d.commitments _ _ h.3 k.3 h.4 k.4 e₂ in
      let (proof, e₄) = text_split as_bytes inj c.proof d.proof _ _ h.5 k.5 e₃ in
      let (unshield, e₅) =
        text_split as_bytes inj c.public_unshield d.public_unshield r s h.6 k.6 e₄ in
      (
        λ i. some (record {
          anchor = anchor i;
          nullifiers = nullifiers i;
          commitments = commitments i;
          proof = proof i;
          public_unshield = unshield i;
        }),
        e₅,
      )
