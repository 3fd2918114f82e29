-- ===== src/Smt/Proofs.antt =====
-- `Smt::proof` of src/smt.rs against `verify_proof`.
use inazuma_core.Base.{
  ℕ, ◌≤◌, ◌<◌, ◌≡◌, refl, sym, ◌∙◌, Bool, true, false, not, Option, some, List, [], ◌∷◌, arith,
  length, Bool-cases, inl, inr,
}
use inazuma_core.Smt.{
  Hashing, Bits, Nodes, same, same_bits, path_of, empty_at, leaf_key, leaf_hash, get_node, joined,
  set, root, siblings_from, bitmap_from, proof, all_hashes, recompute, verify_proof,
}
use inazuma_core.Smt.Nodes.{same-≡, same_refl, length-path_of, length-get_node}
use inazuma_core.Smt.Sets.{IsBalanced, set-IsBalanced, set-leaf}
use inazuma_core.Smt.Nodes.{same_bits_refl}

module _ (hashing : Hashing) where
  -- A node of a balanced tree, joined with its sibling, is its parent.
  joined-get_node :
      (nodes : Nodes) (b : Bool) (p : Bits)
      → IsBalanced hashing nodes
      → length p < 128
      → joined hashing b (get_node hashing nodes (b ∷ p)) (get_node hashing nodes (not b ∷ p))
        ≡ get_node hashing nodes p
  unfolding joined IsBalanced
  joined-get_node nodes true p balanced h = sym (balanced p h)
  joined-get_node nodes false p balanced h = sym (balanced p h)

  recompute-from :
      (nodes : Nodes) (p : Bits)
      → IsBalanced hashing nodes
      → length p ≤ 128
      → recompute hashing p
          (bitmap_from hashing nodes p)
          (get_node hashing nodes p)
          (siblings_from hashing nodes p)
        ≡ some (root hashing nodes, [])
  unfolding recompute bitmap_from siblings_from root
  recompute-from nodes [] balanced h = refl
  recompute-from nodes (b ∷ p) balanced h =
      let sib = get_node hashing nodes (not b ∷ p) in
      let empty = empty_at hashing (length (b ∷ p)) in
      let up = joined-get_node nodes b p balanced (omega (arith, h)) in
      let rest = recompute-from nodes p balanced (omega (arith, h)) in
      elim (Bool-cases (same sib empty)) [
        | inl e ↦ rw e (rw (sym (same-≡ sib empty e)) (rw up rest))
        | inr e ↦ rw e (rw up rest)
      ]

  length-bitmap_from : (nodes : Nodes) (p : Bits) → length (bitmap_from hashing nodes p) ≡ length p
  unfolding bitmap_from
  length-bitmap_from nodes [] = refl
  length-bitmap_from nodes (b ∷ p) = omega (arith, length-bitmap_from nodes p)

  all_hashes-siblings :
      (nodes : Nodes) (p : Bits) → all_hashes hashing (siblings_from hashing nodes p) ≡ true
  unfolding siblings_from
  all_hashes-siblings nodes [] = refl
  all_hashes-siblings nodes (b ∷ p) =
      ground (arith, length-get_node hashing nodes (not b ∷ p), all_hashes-siblings nodes p)

  -- A proof made from the tree, verified against its root.
  abbrev pub Verifies : Nodes → List ℕ → List ℕ → Option (List ℕ) → Type 0
  Verifies nodes domain key value =
      verify_proof hashing (root hashing nodes) domain key value (proof hashing nodes domain key).1
        (proof hashing nodes domain key).2
      ≡ true

  pub verify_proof-proof :
      (nodes : Nodes) (domain key : List ℕ) (value : Option (List ℕ))
      → IsBalanced hashing nodes
      → get_node hashing nodes (path_of (leaf_key hashing domain key))
        ≡ leaf_hash hashing (leaf_key hashing domain key) value
      → Verifies nodes domain key value
  unfolding verify_proof proof
  verify_proof-proof nodes domain key value balanced leaf =
      let p = path_of (leaf_key hashing domain key) in
      let full : length p ≡ 128 = length-path_of hashing domain key in
      rw (length-bitmap_from nodes p) (
        rw full (
          rw (all_hashes-siblings nodes p) (
            rw (sym leaf) (
              rw (recompute-from nodes p balanced (omega (arith, full)))
                (same_refl (root hashing nodes))))))

  -- In a tree whose nodes are the hashes of their children, which `set` keeps so, the value that was
  -- set last at a key verifies with the proof that the tree makes for it, a removed one as absent.
  -- Another key whose hash does not share the whole path still verifies with the value that it had.
  pub set-proof_lem :
      (nodes : Nodes) (domain key : List ℕ) (value : Option (List ℕ)) (domain' key' : List ℕ)
      (value' : Option (List ℕ))
      → IsBalanced hashing nodes
      → same_bits (path_of (leaf_key hashing domain' key')) (path_of (leaf_key hashing domain key))
        ≡ false
      → get_node hashing nodes (path_of (leaf_key hashing domain' key'))
        ≡ leaf_hash hashing (leaf_key hashing domain' key') value'
      → IsBalanced hashing (set hashing nodes domain key value)
        × Verifies (set hashing nodes domain key value) domain key value
        × Verifies (set hashing nodes domain key value) domain' key' value'
  set-proof_lem nodes domain key value domain' key' value' balanced other leaf =
      let still = set-IsBalanced hashing nodes domain key value balanced in
      let nodes' = set hashing nodes domain key value in
      let p = path_of (leaf_key hashing domain key) in
      let q = path_of (leaf_key hashing domain' key') in
      (
        still,
        verify_proof-proof nodes' domain key value still (
            set-leaf hashing nodes domain key value p (length-path_of hashing domain key)
            ∙ rw (same_bits_refl p) refl),
        verify_proof-proof nodes' domain' key' value' still (
            set-leaf hashing nodes domain key value q (length-path_of hashing domain' key')
            ∙ rw other leaf),
      )
