-- ===== src/Tests/TxsRoot.antt =====
-- The root of three hashes, with a sum that tells its two sides apart in place of SHA-256.
use inazuma_core.Base.{ℕ, ◌≡◌, ◌⊎◌, refl, List, [], ◌∷◌, arith}
use inazuma_core.TxsRoot.{txs_root}
use inazuma_core.TxsRoot.Laws.{txs_root-binds, txs_root-doubled, Collision, TextCollision}
use inazuma_core.Tests.Notes.{side_sum}

abbrev same : ℕ → ℕ
same d = d

abbrev two_hashes : List ℕ
two_hashes = 5 ∷ 6 ∷ []

abbrev three_hashes : List ℕ
three_hashes = 5 ∷ 6 ∷ 7 ∷ []

txs_root-doubled_example :
    txs_root side_sum same same 0 three_hashes ≡ txs_root side_sum same same 0 (5 ∷ 6 ∷ 7 ∷ 7 ∷ [])
txs_root-doubled_example = txs_root-doubled side_sum same same 0 two_hashes 7 refl (omega arith)

txs_root-binds_example :
    (three_hashes ≡ three_hashes) ⊎ Collision side_sum ⊎ TextCollision side_sum same same 0
txs_root-binds_example =
    txs_root-binds side_sum same same 0 (λ a b e. e) three_hashes three_hashes refl refl
