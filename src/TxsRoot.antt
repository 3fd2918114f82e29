-- ===== src/TxsRoot.antt =====
-- `txs_root` of src/types.rs over the hashes of the transactions. Digests are numbers: `sha256_pair` is
-- SHA-256 of two digests behind each other, `sha256_text` that of a hash as a text. The rounds of the
-- `while` loop are counted by fuel.
pub mod Laws
use inazuma_core.Base.{ℕ, zero, suc, List, [], ◌∷◌, length, map, leb, if◌then◌else◌}

abbrev pub root_of : (ℕ → ℕ) → ℕ → List ℕ → ℕ
root_of hex_digest none_left [] = none_left
root_of hex_digest none_left (d ∷ ds) = hex_digest d

module _ (sha256_pair : ℕ → ℕ → ℕ) where
  -- `level.chunks(2)`: a lone last digest is paired with itself.
  unfoldable pub pair_up : List ℕ → List ℕ
  pair_up [] = []
  pair_up (x ∷ []) = sha256_pair x x ∷ []
  pair_up (x ∷ y ∷ level) = sha256_pair x y ∷ pair_up level

  unfoldable pub fold_level : ℕ → List ℕ → List ℕ
  unfolding pair_up
  fold_level zero level = level
  fold_level (suc n) level =
      let above = fold_level n (pair_up level) in if leb (length level) 1 then level else above

  -- `hex::encode(level[0])`; the root of no transaction is a constant.
  unfoldable pub txs_root : (ℕ → ℕ) → (ℕ → ℕ) → ℕ → List ℕ → ℕ
  unfolding fold_level
  txs_root sha256_text hex_digest empty_root [] = empty_root
  txs_root sha256_text hex_digest empty_root (h ∷ hashes) =
      let level = map sha256_text (h ∷ hashes) in
      root_of hex_digest empty_root (fold_level (length level) level)
