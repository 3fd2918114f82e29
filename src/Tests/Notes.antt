-- ===== src/Tests/Notes.antt =====
-- A note tree of three leaves, with a sum that tells its two sides apart in place of Poseidon.
use inazuma_core.Base.{ℕ, ◌+◌, ◌*◌, ◌≡◌, ◌⊎◌, refl, true, some, List, [], ◌∷◌, arith}
use inazuma_core.Notes.{
  merkle_path, verify_path, root_from_leaves, tree_depth, zero_subtree_root, path_from, zeros_from,
  climb, next_level, root_from, ride_up,
}
use inazuma_core.Notes.Roots.{merkle_path-verifies, verify_path-binds, Collision}

abbrev pub side_sum : ℕ → ℕ → ℕ
side_sum a b = a + 2 * b

abbrev three_notes : List ℕ
three_notes = 5 ∷ 6 ∷ 7 ∷ []

merkle_path-verifies_example :
    (path : List ℕ) × (merkle_path side_sum 0 three_notes 2 ≡ some path)
    × (verify_path side_sum 0 7 2 path (root_from_leaves side_sum 0 three_notes) ≡ true)
merkle_path-verifies_example =
    merkle_path-verifies side_sum 0 three_notes 2 (omega arith) (omega arith)

abbrev seven : ℕ
seven = 7

abbrev path_of_two : List ℕ
path_of_two = path_from side_sum 0 0 tree_depth three_notes 2

verify_path-binds_example : (seven ≡ 7) ⊎ Collision side_sum 0
unfolding verify_path climb path_from zeros_from next_level root_from ride_up zero_subtree_root
    root_from_leaves
verify_path-binds_example =
    verify_path-binds side_sum 0 7 7 2 path_of_two path_of_two
      (root_from_leaves side_sum 0 three_notes) refl refl
