-- ===== src/Smt.antt =====
-- The sparse Merkle tree of src/smt.rs. A path is the list of the bits of a leaf key from the deepest
-- to the root, so that the list without its first bit is the path of the parent, and its length the
-- depth. That list is also what names a node (`node_id` masks the bits below the depth). Hex texts
-- are the bytes that they decode to.
pub mod Nodes
pub mod Sets
pub mod Proofs
pub mod Binding
use inazuma_core.Base.{
  ℕ, zero, suc, ◌+◌, ◌-◌, ◌/◌, ◌%◌, ◌≡◌, Bool, true, false, not, ◌&&◌, Option, none, some, List, [],
  ◌∷◌, ◌++◌, length, take, ◌==◌, if◌then◌else◌,
}

-- `sha256` of src/crypto.rs, a package: 32 bytes for every text.
pub record Hashing : Type 0 where
  pub sha256 : List ℕ → List ℕ
  pub length-sha256 : (bs : List ℕ) → length (sha256 bs) ≡ 32

abbrev pub Bits : Type 0
Bits = List Bool

-- The tree of nodes by their ids.
abbrev pub Nodes : Type 0
Nodes = Bits → Option (List ℕ)

abbrev pub depth_max : ℕ
depth_max = 128

abbrev pub path_bytes : ℕ
path_bytes = 16

-- The equality of byte strings, and of node ids.
unfoldable pub same : List ℕ → List ℕ → Bool
same [] [] = true
same (a ∷ xs) (b ∷ ys) = (a == b) && same xs ys
same _ _ = false

abbrev pub same_bit : Bool → Bool → Bool
same_bit true b = b
same_bit false b = not b

unfoldable pub same_bits : Bits → Bits → Bool
same_bits [] [] = true
same_bits (a ∷ xs) (b ∷ ys) = same_bit a b && same_bits xs ys
same_bits _ _ = false

-- The bits of bytes on top of those already there, the last bit of the last byte first.
unfoldable pub push_bits : List ℕ → Bits → Bits
push_bits [] p = p
push_bits (b ∷ bs) p =
    let bit : ℕ → Bool = λ w. b / w % 2 == 1 in
    push_bits bs (bit 1 ∷ bit 2 ∷ bit 4 ∷ bit 8 ∷ bit 16 ∷ bit 32 ∷ bit 64 ∷ bit 128 ∷ p)

unfoldable pub path_of : List ℕ → Bits
unfolding push_bits
path_of leaf_key = push_bits (take path_bytes leaf_key) []

abbrev pub zeros : List ℕ
zeros =
    0 ∷ 0 ∷ 0 ∷ 0 ∷ 0 ∷ 0 ∷ 0 ∷ 0 ∷ 0 ∷ 0 ∷ 0 ∷ 0 ∷ 0 ∷ 0 ∷ 0 ∷ 0 ∷ 0 ∷ 0 ∷ 0 ∷ 0 ∷ 0 ∷ 0 ∷ 0 ∷ 0
    ∷ 0 ∷ 0 ∷ 0 ∷ 0 ∷ 0 ∷ 0 ∷ 0 ∷ 0 ∷ []

-- `|` and `inzleaf|`
abbrev pub bar : List ℕ
bar = 124 ∷ []

abbrev pub leaf_tag : List ℕ
leaf_tag = 105 ∷ 110 ∷ 122 ∷ 108 ∷ 101 ∷ 97 ∷ 102 ∷ 124 ∷ []

module _ (hashing : Hashing) where
  unfoldable pub parent : List ℕ → List ℕ → List ℕ
  parent left right = hashing.sha256 (left ++ right)

  -- The hash of an empty subtree by its height over the leaves, and by the depth of its root.
  unfoldable pub empty_hashes : ℕ → List ℕ
  unfolding parent
  empty_hashes zero = zeros
  empty_hashes (suc n) = let h = empty_hashes n in parent h h

  unfoldable pub empty_at : ℕ → List ℕ
  unfolding empty_hashes
  empty_at depth = empty_hashes (depth_max - depth)

  unfoldable pub leaf_key : List ℕ → List ℕ → List ℕ
  leaf_key domain key = hashing.sha256 (domain ++ bar ++ key)

  unfoldable pub leaf_hash : List ℕ → Option (List ℕ) → List ℕ
  unfolding empty_at
  leaf_hash key none = empty_at depth_max
  leaf_hash key (some v) = hashing.sha256 (leaf_tag ++ key ++ bar ++ v)

  unfoldable pub get_node : Nodes → Bits → List ℕ
  unfolding empty_at
  get_node nodes p = elim (nodes p) [
    | some v ↦ if length v == 32 then v else empty_at (length p)
    | none ↦ empty_at (length p)
  ]

  unfoldable pub put_node : Nodes → Bits → List ℕ → Nodes
  unfolding same_bits same empty_at
  put_node nodes p hash = λ q.
      if same_bits q p
      then (if same hash (empty_at (length p)) then none else some hash)
      else nodes q

  -- The parent of a node and its sibling: the bit says on which side the node stands.
  unfoldable pub joined : Bool → List ℕ → List ℕ → List ℕ
  unfolding parent
  joined false cur sib = parent cur sib
  joined true cur sib = parent sib cur

  -- The loop of `set` from a node, which holds `cur`, up to the root.
  unfoldable pub rebuild : Nodes → Bits → List ℕ → Nodes
  unfolding get_node put_node joined
  rebuild nodes [] cur = nodes
  rebuild nodes (b ∷ p) cur =
      let next = joined b cur (get_node nodes (not b ∷ p)) in rebuild (put_node nodes p next) p next

  unfoldable pub set : Nodes → List ℕ → List ℕ → Option (List ℕ) → Nodes
  unfolding leaf_key path_of leaf_hash put_node rebuild
  set nodes domain key value =
      let lk = leaf_key domain key in
      let cur = leaf_hash lk value in rebuild (put_node nodes (path_of lk) cur) (path_of lk) cur

  unfoldable pub root : Nodes → List ℕ
  unfolding get_node
  root nodes = get_node nodes []

  -- The two results of the loop of `proof`: the siblings that are not empty, and the bitmap.
  unfoldable pub siblings_from : Nodes → Bits → List (List ℕ)
  unfolding get_node empty_at same
  siblings_from nodes [] = []
  siblings_from nodes (b ∷ p) =
      let sib = get_node nodes (not b ∷ p) in
      let rest = siblings_from nodes p in
      if same sib (empty_at (length (b ∷ p))) then rest else sib ∷ rest

  unfoldable pub bitmap_from : Nodes → Bits → Bits
  unfolding get_node empty_at same
  bitmap_from nodes [] = []
  bitmap_from nodes (b ∷ p) =
      not (same (get_node nodes (not b ∷ p)) (empty_at (length (b ∷ p)))) ∷ bitmap_from nodes p

  unfoldable pub proof : Nodes → List ℕ → List ℕ → List ℕ × List (List ℕ) × Bits
  unfolding leaf_key path_of siblings_from bitmap_from
  proof nodes domain key =
      let lk = leaf_key domain key in
      (lk, siblings_from nodes (path_of lk), bitmap_from nodes (path_of lk))

  abbrev pub all_hashes : List (List ℕ) → Bool
  all_hashes [] = true
  all_hashes (s ∷ ss) = (length s == 32) && all_hashes ss

  -- The loop of `verify_proof`: the hash at the root, and the siblings that were not used.
  unfoldable pub recompute : Bits → Bits → List ℕ → List (List ℕ) → Option (List ℕ × List (List ℕ))
  unfolding joined empty_at
  recompute [] bitmap cur sibs = some (cur, sibs)
  recompute (b ∷ p) [] cur sibs = none
  recompute (b ∷ p) (true ∷ bitmap) cur [] = none
  recompute (b ∷ p) (true ∷ bitmap) cur (s ∷ sibs) = recompute p bitmap (joined b cur s) sibs
  recompute (b ∷ p) (false ∷ bitmap) cur sibs =
      recompute p bitmap (joined b cur (empty_at (length (b ∷ p)))) sibs

  unfoldable pub verify_proof :
      List ℕ → List ℕ → List ℕ → Option (List ℕ) → List (List ℕ) → Bits → Bool
  unfolding leaf_key path_of leaf_hash recompute same
  verify_proof expected domain key value siblings bitmap =
      let lk = leaf_key domain key in
      if not (length bitmap == depth_max)
      then false
      else (if not (all_hashes siblings)
          then false
          else elim (recompute (path_of lk) bitmap (leaf_hash lk value) siblings) [
            | none ↦ false
            | some r ↦ (length r.1 == 0) && same r.0 expected
          ])
