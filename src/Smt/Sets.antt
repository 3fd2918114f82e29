-- ===== src/Smt/Sets.antt =====
-- `Smt::set` of src/smt.rs keeps every node the hash of its children.
use inazuma_core.Base.{
  ℕ, ◌≤◌, ◌<◌, ◌≡◌, ◌≢◌, refl, sym, ◌∙◌, Bool, true, false, not, Option, none, List, [], ◌∷◌, arith,
  length, if◌then◌else◌, Bool-cases, inl, inr,
}
use inazuma_core.Smt.{
  Hashing, Bits, Nodes, same_bits, path_of, parent, leaf_key, leaf_hash, get_node, put_node, joined,
  rebuild, set,
}
use inazuma_core.Smt.Nodes.{
  same_bits-≡, same_bits_refl, same_bits-length, length-path_of, length-leaf_hash, length-joined,
  get-put_same, get-put_other, empty_at-parent,
}

-- Whether the first path leads to a node strictly above the second.
unfoldable over : Bits → Bits → Bool
unfolding same_bits
over q [] = false
over q (b ∷ p) = if same_bits q p then true else over q p

over_parent : (c : Bool) (q p : Bits) → same_bits (c ∷ q) p ≡ true → over q p ≡ true
unfolding over
over_parent c q p h = rw (sym (same_bits-≡ (c ∷ q) p h)) (ground (arith, same_bits_refl q))

apart : (q p : Bits) → length q ≢ length p → same_bits q p ≡ false
apart q p h = elim (Bool-cases (same_bits q p)) [
  | inl e ↦ absurd (h (same_bits-length q p e))
  | inr e ↦ e
]

beside : (c : Bool) (q p : Bits) → over q p ≡ false → same_bits (c ∷ q) p ≡ false
beside c q p h = elim (Bool-cases (same_bits (c ∷ q) p)) [
  | inl e ↦ ground (arith, h, over_parent c q p e)
  | inr e ↦ e
]

module _ (hashing : Hashing) where
  abbrev IsJoined : Nodes → Bits → Type 0
  IsJoined nodes q =
      get_node hashing nodes q
      ≡ parent hashing (get_node hashing nodes (false ∷ q)) (get_node hashing nodes (true ∷ q))

  -- Every node over the leaves is the hash of its two children.
  unfoldable pub IsBalanced : Nodes → Type 0
  IsBalanced nodes = (q : Bits) → length q < 128 → IsJoined nodes q

  -- A write keeps the nodes that neither are the written one nor stand right above it.
  put-IsJoined :
      (nodes : Nodes) (p q : Bits) (h : List ℕ)
      → same_bits q p ≡ false
      → over q p ≡ false
      → IsJoined nodes q
      → IsJoined (put_node hashing nodes p h) q
  put-IsJoined nodes p q h e o j = rw (get-put_other hashing nodes p q h e) (
      rw (get-put_other hashing nodes p (false ∷ q) h (beside false q p o))
        (rw (get-put_other hashing nodes p (true ∷ q) h (beside true q p o)) j))

  joined-IsJoined :
      (nodes : Nodes) (b : Bool) (p : Bits) (cur : List ℕ)
      → get_node hashing nodes (b ∷ p) ≡ cur
      → IsJoined
          (put_node hashing nodes p (joined hashing b cur (get_node hashing nodes (not b ∷ p))))
          p
  unfolding joined
  joined-IsJoined nodes true p cur e =
      let next = parent hashing (get_node hashing nodes (false ∷ p)) cur in
      get-put_same hashing nodes p next (length-joined hashing true cur _)
      ∙ rw (get-put_other hashing nodes p (false ∷ p) next (apart (false ∷ p) p (omega arith))) (
          rw (get-put_other hashing nodes p (true ∷ p) next (apart (true ∷ p) p (omega arith)))
            (rw e refl))
  joined-IsJoined nodes false p cur e =
      let next = parent hashing cur (get_node hashing nodes (true ∷ p)) in
      get-put_same hashing nodes p next (length-joined hashing false cur _)
      ∙ rw (get-put_other hashing nodes p (false ∷ p) next (apart (false ∷ p) p (omega arith))) (
          rw (get-put_other hashing nodes p (true ∷ p) next (apart (true ∷ p) p (omega arith)))
            (rw e refl))

  -- The loop mends everything above the node that it starts at.
  rebuild-IsBalanced :
      (nodes : Nodes) (p : Bits) (cur : List ℕ)
      → get_node hashing nodes p ≡ cur
      → ((q : Bits) → length q < 128 → over q p ≡ false → IsJoined nodes q)
      → IsBalanced (rebuild hashing nodes p cur)
  unfolding rebuild IsBalanced over
  rebuild-IsBalanced nodes [] cur e rest = λ q h. rest q h refl
  rebuild-IsBalanced nodes (b ∷ p) cur e rest =
      let next = joined hashing b cur (get_node hashing nodes (not b ∷ p)) in
      rebuild-IsBalanced (put_node hashing nodes p next) p next
        (get-put_same hashing nodes p next (length-joined hashing b cur _))
        (λ q h o. elim (Bool-cases (same_bits q p)) [
          | inl s ↦ rw (same_bits-≡ q p s) (joined-IsJoined nodes b p cur e)
          | inr s ↦ put-IsJoined nodes p q next s o (rest q h (ground (arith, s, o)))
        ])

  rebuild-leaf :
      (nodes : Nodes) (p q : Bits) (cur : List ℕ)
      → length p ≤ length q
      → get_node hashing (rebuild hashing nodes p cur) q ≡ get_node hashing nodes q
  unfolding rebuild
  rebuild-leaf nodes [] q cur h = refl
  rebuild-leaf nodes (b ∷ p) q cur h =
      let next = joined hashing b cur (get_node hashing nodes (not b ∷ p)) in
      rebuild-leaf (put_node hashing nodes p next) p q next (omega (arith, h))
      ∙ get-put_other hashing nodes p q next (apart q p (omega (arith, h)))

  pub set-IsBalanced :
      (nodes : Nodes) (domain key : List ℕ) (value : Option (List ℕ))
      → IsBalanced nodes
      → IsBalanced (set hashing nodes domain key value)
  unfolding set IsBalanced
  set-IsBalanced nodes domain key value balanced =
      let lk = leaf_key hashing domain key in
      let p = path_of lk in
      let cur = leaf_hash hashing lk value in
      let full : length p ≡ 128 = length-path_of hashing domain key in
      rebuild-IsBalanced (put_node hashing nodes p cur) p cur
        (get-put_same hashing nodes p cur (length-leaf_hash hashing lk value))
        (λ q h o. put-IsJoined nodes p q cur (apart q p (omega (arith, h, full))) o (balanced q h))

  -- The leaves after a write.
  pub set-leaf :
      (nodes : Nodes) (domain key : List ℕ) (value : Option (List ℕ)) (q : Bits)
      → length q ≡ 128
      → get_node hashing (set hashing nodes domain key value) q ≡ (
          if same_bits q (path_of (leaf_key hashing domain key))
          then leaf_hash hashing (leaf_key hashing domain key) value
          else get_node hashing nodes q)
  unfolding set
  set-leaf nodes domain key value q k =
      let lk = leaf_key hashing domain key in
      let p = path_of lk in
      let cur = leaf_hash hashing lk value in
      let full : length p ≡ 128 = length-path_of hashing domain key in
      rebuild-leaf (put_node hashing nodes p cur) p q cur (omega (arith, k, full))
      ∙ elim (Bool-cases (same_bits q p)) [
        | inl e ↦ rw e (
            rw (same_bits-≡ q p e)
              (get-put_same hashing nodes p cur (length-leaf_hash hashing lk value)))
        | inr e ↦ rw e (get-put_other hashing nodes p q cur e)
      ]

  -- The tree before the first write.
  abbrev pub empty_tree : Nodes
  empty_tree = λ q. none

  pub empty_tree-IsBalanced : IsBalanced empty_tree
  unfolding IsBalanced get_node
  empty_tree-IsBalanced q h = empty_at-parent hashing (length q) h
