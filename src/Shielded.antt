-- ===== src/Shielded.antt =====
-- The shielded pool: its trees in src/state.rs, the shape of a shielded transaction and its execution
-- in src/chain.rs. `activation` is what `shielded::activation_height()` returns.
pub mod Spends
pub mod Nullifiers
use inazuma_core.Base.{
  ℕ, ◌-◌, Bool, true, false, not, ◌&&◌, ◌||◌, Option, none, some, List, [], ◌∷◌, Dict, length, any,
  ltb, ◌==◌, if◌then◌else◌, Result, ok, err, u128_add, u128_sub, u128_checked_add, is_some,
}
use inazuma_core.Notes.{root_from_leaves}
use inazuma_core.Platform.{Platform, Leaf}
use inazuma_core.State.{Store, account, set_account, unwrap_or}
use inazuma_core.Transactions.{
  TxKind, Transaction, ShieldedData, shield, private_transfer, unshield,
}
use inazuma_core.Externals.{Externals}

pub data ShieldedError : Type 0 where
  not_active missing_data proof_too_large not_a_field_element bad_amount bad_shape no_amount :
      ShieldedError
  not_shielded no_anchor bad_commitment zero_commitment pool_overflow bad_recipient : ShieldedError
  pool_underflow unknown_anchor bad_proof bad_key invalid_proof already_spent : ShieldedError

abbrev pub values : Dict ℕ → List ℕ
values [] = []
values ((k, v) ∷ d) = v ∷ values d

-- `if c { return Err(e) }` before the rest.
abbrev pub reject_if :
    {A : Type 0} → Bool → ShieldedError → Result ShieldedError A → Result ShieldedError A
reject_if c e rest = if c then err e else rest

-- `!data.nullifiers.is_empty()` and the like are tests of the length. Equal nullifiers:
abbrev pub same_pair : List ℕ → Bool
same_pair (a ∷ b ∷ rest) = a == b
same_pair _ = false

infixl 5 ◌>>=◌
abbrev pub ◌>>=◌ : {A B : Type 0} → Option A → (A → Option B) → Option B
none >>= f = none
some a >>= f = f a

abbrev pub first_two : List ℕ → Option (ℕ × ℕ)
first_two (a ∷ b ∷ rest) = some (a, b)
first_two _ = none

module _ (env : Platform) where
  unfoldable pub shielded_leaf_count : Store env → ℕ
  shielded_leaf_count s = length (env.iter ℕ s.leaves)

  unfoldable pub shielded_append : Store env → ℕ → Store env
  unfolding shielded_leaf_count
  shielded_append s commitment = record s {
    leaves = env.tree_insert ℕ s.leaves (shielded_leaf_count s) commitment;
  }

  unfoldable pub shielded_leaves : Store env → List ℕ
  shielded_leaves s = values (env.iter ℕ s.leaves)

  unfoldable pub shielded_nullifier_seen : Store env → ℕ → Bool
  shielded_nullifier_seen s nullifier = is_some (env.get ℕ s.nulls nullifier)

  unfoldable pub shielded_burn_nullifier : Store env → ℕ → ℕ → Bool × Store env
  unfolding shielded_nullifier_seen
  shielded_burn_nullifier s nullifier height =
      if shielded_nullifier_seen s nullifier
      then (false, s)
      else (true, record s { nulls = env.tree_insert ℕ s.nulls nullifier height })

  unfoldable pub shielded_seal_root : Store env → ℕ → ℕ → Store env
  shielded_seal_root s root height = record s { roots = env.tree_insert ℕ s.roots root height }

  unfoldable pub shielded_root_known : Store env → ℕ → Bool
  shielded_root_known s root = is_some (env.get ℕ s.roots root)

  unfoldable pub shielded_pool_balance : Store env → ℕ
  shielded_pool_balance s = unwrap_or s.pool 0

  unfoldable pub shielded_set_pool_balance : Store env → ℕ → Store env
  shielded_set_pool_balance s balance = record s { pool = some balance }

  unfoldable pub shielded_verifying_key : Store env → Option ℕ
  shielded_verifying_key s = s.key

  unfoldable pub shielded_set_verifying_key : Store env → ℕ → Store env
  shielded_set_verifying_key s bytes = record s { key = some bytes }

  unfoldable pub shielded_last_sealed_count : Store env → ℕ
  shielded_last_sealed_count s = unwrap_or s.sealed 0

  unfoldable pub shielded_set_last_sealed_count : Store env → ℕ → Store env
  shielded_set_last_sealed_count s count = record s { sealed = some count }

  -- The loops over the two nullifiers and the new commitments.
  unfoldable pub burn_all : Store env → ℕ → List ℕ → Bool × Store env
  unfolding shielded_burn_nullifier
  burn_all s height [] = (true, s)
  burn_all s height (n ∷ ns) =
      let (fresh, s') = shielded_burn_nullifier s n height in
      let rest = burn_all s' height ns in if fresh then rest else (false, s')

  unfoldable pub append_all : Store env → List ℕ → Store env
  unfolding shielded_append
  append_all s [] = s
  append_all s (c ∷ cs) = append_all (shielded_append s c) cs

  module _ (ext : Externals env) where
    -- `poseidon::fr_from_hex`: the text is trimmed and its bytes are reduced.
    unfoldable pub fr_from_hex : ℕ → Option ℕ
    fr_from_hex text = elim (env.hex_decode (env.trim text)) [
      | none ↦ none
      | some raw ↦ if not (length raw == 32) then none else some (ext.from_be_bytes_mod_order raw)
    ]

    abbrev pub bad_element : ℕ → Bool
    bad_element f = not (env.is_empty f) && not (is_some (fr_from_hex f))

    -- The public amount of an unshield, zero where the field is empty.
    unfoldable pub public_amount : ShieldedData → Option ℕ
    public_amount d =
        if env.is_empty d.public_unshield then some 0 else ext.parse_u128 d.public_unshield

    -- The last test of the shape.
    abbrev pub anchored : TxKind → ShieldedData → Result ShieldedError (Unit {0})
    anchored shield d = ok tt
    anchored _ d = reject_if (env.is_empty d.anchor) no_anchor (ok tt)

    -- The `match` on the kind.
    unfoldable pub check_kind : TxKind → ℕ → ℕ → ShieldedData → Result ShieldedError (Unit {0})
    check_kind shield amount out d =
        reject_if
          (not (length d.commitments == 1)
            || not (length d.nullifiers == 0)
            || not (env.is_empty d.proof)
            || not (out == 0))
          bad_shape (reject_if (amount == 0) no_amount (anchored shield d))
    check_kind private_transfer amount out d =
        reject_if
          (not (length d.nullifiers == 2)
            || not (length d.commitments == 2)
            || env.is_empty d.proof)
          bad_shape
          (reject_if (not (amount == 0) || not (out == 0)) bad_shape
            (reject_if (same_pair d.nullifiers) bad_shape (anchored private_transfer d)))
    check_kind unshield amount out d =
        reject_if
          (not (length d.nullifiers == 2)
            || not (length d.commitments == 2)
            || env.is_empty d.proof)
          bad_shape
          (reject_if (not (amount == 0)) bad_shape (
            reject_if (out == 0) no_amount
              (reject_if (same_pair d.nullifiers) bad_shape (anchored unshield d))))
    check_kind _ amount out d = err not_shielded

    unfoldable pub check_shielded_shape : Transaction → Result ShieldedError (Unit {0})
    unfolding check_kind public_amount
    check_shielded_shape tx = elim tx.shielded [
      | none ↦ err missing_data
      | some d ↦ reject_if (ltb 512 (env.text_len d.proof)) proof_too_large (
          reject_if
            (any bad_element d.commitments || any bad_element d.nullifiers || bad_element d.anchor)
            not_a_field_element
            (elim (public_amount d) [
              | none ↦ err bad_amount
              | some out ↦ check_kind tx.kind tx.amount out d
            ]))
    ]

    abbrev pub Done : Type 0
    Done = Result ShieldedError (Unit {0}) × Store env

    unfoldable pub apply_shield : Store env → ℕ → ShieldedData → Done
    unfolding shielded_append
    apply_shield s amount d = elim d.commitments [
      | [] ↦ (err bad_commitment, s)
      | c ∷ cs ↦ elim (fr_from_hex c) [
        | none ↦ (err bad_commitment, s)
        | some cm ↦
            if cm == ext.fr_zero
            then (err zero_commitment, s)
            else (let s' = shielded_append s c in
                elim (u128_checked_add (shielded_pool_balance s') amount) [
                  | none ↦ (err pool_overflow, s')
                  | some balance ↦ (ok tt, shielded_set_pool_balance s' balance)
                ])
      ]
    ]

    -- The elements that a proof is verified against. The shape has two nullifiers and commitments.
    unfoldable pub public_inputs : ShieldedData → ℕ → Option (List ℕ)
    unfolding fr_from_hex
    public_inputs d out = do
      n ← first_two d.nullifiers
      c ← first_two d.commitments
      anchor ← fr_from_hex d.anchor
      x ← fr_from_hex n.0
      y ← fr_from_hex n.1
      v ← fr_from_hex c.0
      w ← fr_from_hex c.1
      some (anchor ∷ x ∷ y ∷ v ∷ w ∷ ext.fr_u128 out ∷ [])

    -- The verifying key, which the first spend installs, and the store after that.
    unfoldable pub spend_key : Store env → Option ℕ × Store env
    unfolding shielded_verifying_key shielded_set_verifying_key
    spend_key s = elim (shielded_verifying_key s) [
      | some bytes ↦ (ext.vk_from_bytes bytes, s)
      | none ↦ (some ext.devnet_vk, shielded_set_verifying_key s (ext.vk_to_bytes ext.devnet_vk))
    ]

    -- What an unshield takes out of the pool.
    unfoldable pub unshield_out : Transaction → ShieldedData → Option ℕ
    unshield_out tx d = elim tx.kind [ unshield ↦ ext.parse_u128 d.public_unshield | _ ↦ some 0 ]

    -- The end of a spend: the public amount leaves the pool.
    unfoldable pub pay_out : Store env → ℕ → ℕ → Store env
    unfolding shielded_pool_balance shielded_set_pool_balance
    pay_out s to out =
        if ltb 0 out
        then (let s' = shielded_set_pool_balance s (u128_sub (shielded_pool_balance s) out) in
            let a = account env s' to in
            set_account env s' to (record a { balance = u128_add a.balance out }))
        else s

    -- A spend whose proof verifies: the notes are burned and made, and the amount is paid.
    unfoldable pub settle : Store env → Transaction → ℕ → ShieldedData → ℕ → Done
    unfolding burn_all append_all pay_out
    settle s tx height d out =
        let (fresh, s') = burn_all s height d.nullifiers in
        if not fresh
        then (err already_spent, s')
        else (ok tt, pay_out (append_all s' d.commitments) tx.to out)

    unfoldable pub apply_spend : Store env → Transaction → ℕ → ShieldedData → Done
    unfolding shielded_pool_balance shielded_root_known public_inputs spend_key unshield_out settle
    apply_spend s tx height d = elim (unshield_out tx d) [
      | none ↦ (err bad_amount, s)
      | some out ↦
          if ltb 0 out && not (env.is_valid_address tx.to)
          then (err bad_recipient, s)
          else (if ltb 0 out && ltb (shielded_pool_balance s) out
              then (err pool_underflow, s)
              else (if not (shielded_root_known s d.anchor)
                  then (err unknown_anchor, s)
                  else elim (ext.proof_from_hex d.proof) [
                    | none ↦ (err bad_proof, s)
                    | some proof ↦
                        let (key, s') = spend_key s in
                        elim key [
                          | none ↦ (err bad_key, s')
                          | some vk ↦ elim (public_inputs d out) [
                            | none ↦ (err not_a_field_element, s')
                            | some inputs ↦
                                if not (ext.verify vk proof inputs)
                                then (err invalid_proof, s')
                                else settle s' tx height d out
                          ]
                        ]
                  ]))
    ]

    unfoldable pub apply_shielded : ℕ → Store env → Transaction → ℕ → Done
    unfolding check_shielded_shape apply_shield apply_spend
    apply_shielded activation s tx height =
        if ltb height activation then (err not_active, s) else elim tx.shielded [
          | none ↦ (err missing_data, s)
          | some d ↦ elim (check_shielded_shape tx) [
            | err e ↦ (err e, s)
            | ok u ↦ elim tx.kind [
              | shield ↦ apply_shield s tx.amount d
              | private_transfer ↦ apply_spend s tx height d
              | unshield ↦ apply_spend s tx height d
              | _ ↦ (err not_shielded, s)
            ]
          ]
        ]

    -- `shielded_seal_into_state`: three leaves of the Merkle state.
    unfoldable pub shielded_seal_into_state : Store env → ℕ → Store env
    unfolding shielded_pool_balance
    shielded_seal_into_state s root = record s {
      smt_nodes =
          env.smt_set
            (env.smt_set (env.smt_set s.smt_nodes (Leaf.shielded_root root))
              (Leaf.shielded_pool (shielded_pool_balance s)))
            (Leaf.shielded_nulls (ext.nulls_digest (env.iter ℕ s.nulls)));
    }

    abbrev pub elements : List ℕ → List ℕ
    elements [] = []
    elements (h ∷ hs) = elim (fr_from_hex h) [ none ↦ elements hs | some f ↦ f ∷ elements hs ]

    unfoldable pub seal_shielded_root : ℕ → Store env → ℕ → Store env
    unfolding shielded_leaf_count shielded_leaves shielded_last_sealed_count shielded_seal_root
        shielded_set_last_sealed_count shielded_seal_into_state fr_from_hex
    seal_shielded_root activation s height =
        let count = shielded_leaf_count s in
        let root =
          ext.fr_to_hex (root_from_leaves ext.hash2 ext.fr_zero (elements (shielded_leaves s))) in
        if ltb height activation
        then s
        else (if count == shielded_last_sealed_count s && ltb 0 count
            then s
            else shielded_seal_into_state
                (shielded_set_last_sealed_count (shielded_seal_root s root height) count) root)
