-- ===== src/Tests/Smt.antt =====
-- A tree with one leaf, over a hash that is easy to compute.
use inazuma_core.Base.{
  ℕ, Bool, ◌+◌, ◌*◌, ◌%◌, ◌≡◌, ◌⊎◌, refl, sym, true, false, Option, none, some, List, [], ◌∷◌,
}
use inazuma_core.Smt.{
  Hashing, Nodes, same_bits, path_of, push_bits, leaf_key, leaf_hash, get_node, set, root, proof,
  verify_proof,
}
use inazuma_core.Smt.Sets.{IsBalanced, empty_tree, empty_tree-IsBalanced}
use inazuma_core.Smt.Proofs.{Verifies, set-proof_lem}
use inazuma_core.Smt.Binding.{Collision, ZeroHash, verify_proof-binds}

-- The weight of a text in one byte, and 31 zeros: texts with the same bytes in another order collide.
abbrev weigh : List ℕ → ℕ
weigh [] = 0
weigh (b ∷ bs) = (b + 1 + 257 * weigh bs)

abbrev padded : ℕ → List ℕ
padded n =
    n ∷ 0 ∷ 0 ∷ 0 ∷ 0 ∷ 0 ∷ 0 ∷ 0 ∷ 0 ∷ 0 ∷ 0 ∷ 0 ∷ 0 ∷ 0 ∷ 0 ∷ 0 ∷ 0 ∷ 0 ∷ 0 ∷ 0 ∷ 0 ∷ 0 ∷ 0 ∷ 0
    ∷ 0 ∷ 0 ∷ 0 ∷ 0 ∷ 0 ∷ 0 ∷ 0 ∷ 0 ∷ []

abbrev plain_hash : Hashing
plain_hash = record { sha256 = λ bs. padded (weigh bs % 256); length-sha256 = λ bs. refl }

abbrev alice : List ℕ
alice = 1 ∷ []

abbrev bob : List ℕ
bob = 2 ∷ []

abbrev acct : List ℕ
acct = 7 ∷ []

apart :
    same_bits (path_of (leaf_key plain_hash acct bob)) (path_of (leaf_key plain_hash acct alice))
    ≡ false
unfolding path_of leaf_key push_bits same_bits
apart = refl

absent :
    get_node plain_hash (empty_tree plain_hash) (path_of (leaf_key plain_hash acct bob))
    ≡ leaf_hash plain_hash (leaf_key plain_hash acct bob) none
unfolding path_of leaf_key push_bits get_node leaf_hash
absent = refl

set-proof_lem_example :
    IsBalanced plain_hash (set plain_hash (empty_tree plain_hash) acct alice (some (9 ∷ [])))
    × Verifies plain_hash
        (set plain_hash (empty_tree plain_hash) acct alice (some (9 ∷ [])))
        acct
        alice
        (some (9 ∷ []))
    × Verifies plain_hash
        (set plain_hash (empty_tree plain_hash) acct alice (some (9 ∷ [])))
        acct
        bob
        none
set-proof_lem_example =
    set-proof_lem plain_hash (empty_tree plain_hash) acct alice (some (9 ∷ [])) acct bob none
      (empty_tree-IsBalanced plain_hash) apart absent

abbrev one_leaf : Nodes
one_leaf = set plain_hash (empty_tree plain_hash) acct alice (some (9 ∷ 10 ∷ []))

abbrev taken : List (List ℕ) × List Bool
taken = ((proof plain_hash one_leaf acct alice).1, (proof plain_hash one_leaf acct alice).2)

accepted : Verifies plain_hash one_leaf acct alice (some (9 ∷ 10 ∷ []))
accepted =
    (set-proof_lem plain_hash (empty_tree plain_hash) acct alice (some (9 ∷ 10 ∷ [])) acct bob none
      (empty_tree-IsBalanced plain_hash) apart absent).1

-- Values whose leaves have one hash verify alike.
verify_proof_alike :
    (hashing : Hashing) (top domain key : List ℕ) (v w : Option (List ℕ)) (sibs : List (List ℕ))
    (bitmap : List Bool)
    → leaf_hash hashing (leaf_key hashing domain key) v
      ≡ leaf_hash hashing (leaf_key hashing domain key) w
    → verify_proof hashing top domain key v sibs bitmap ≡ true
    → verify_proof hashing top domain key w sibs bitmap ≡ true
unfolding verify_proof
verify_proof_alike hashing top domain key v w sibs bitmap e h = rw (sym e) h

one_hash :
    leaf_hash plain_hash (leaf_key plain_hash acct alice) (some (9 ∷ 10 ∷ []))
    ≡ leaf_hash plain_hash (leaf_key plain_hash acct alice) (some (10 ∷ 9 ∷ []))
unfolding leaf_hash leaf_key
one_hash = refl

forged : Verifies plain_hash one_leaf acct alice (some (10 ∷ 9 ∷ []))
forged =
    verify_proof_alike plain_hash (root plain_hash one_leaf) acct alice (some (9 ∷ 10 ∷ []))
      (some (10 ∷ 9 ∷ [])) taken.0 taken.1 one_hash accepted

verify_proof-binds_example :
    (◌≡◌ {A = Option (List ℕ)} (some (9 ∷ 10 ∷ [])) (some (10 ∷ 9 ∷ [])))
    ⊎ Collision plain_hash
    ⊎ ZeroHash plain_hash
verify_proof-binds_example =
    verify_proof-binds plain_hash (root plain_hash one_leaf) acct alice (some (9 ∷ 10 ∷ []))
      (some (10 ∷ 9 ∷ [])) taken.0 taken.0 taken.1 taken.1 accepted forged
