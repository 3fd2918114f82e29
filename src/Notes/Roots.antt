-- ===== src/Notes/Roots.antt =====
-- Every path of the note tree of src/shielded.rs leads to its root, and a root has one leaf at a
-- position.
use inazuma_core.Base.{
  ℕ, zero, suc, ◌*◌, ◌/◌, ◌%◌, ◌^◌, ◌≤◌, ◌<◌, ◌≡◌, ◌≢◌, ◌⊎◌, refl, ap, sym, ◌∙◌, true, false, some,
  List, [], ◌∷◌, length, arith, leb, ◌==◌, Bool-cases, inl, inr, ==_iff,
}
use inazuma_core.Notes.{
  tree_depth, element_at, zero_subtree_root, next_level, root_from, root_from_leaves, zeros_from,
  path_from, merkle_path, climb, verify_path,
}
use inazuma_core.Notes.Paths.{joined, ascend, climb-ascend, ascend-zeros, sibling_at, parent_at}

element_at-default :
    (a b : ℕ) (level : List ℕ) (idx : ℕ)
    → idx < length level
    → element_at a level idx ≡ element_at b level idx
element_at-default a b [] idx h = absurd (omega (arith, h))
element_at-default a b (x ∷ level) zero h = refl
element_at-default a b (x ∷ level) (suc idx) h = element_at-default a b level idx (omega (arith, h))

module _ (hash2 : ℕ → ℕ → ℕ) (fr_zero : ℕ) where
  next_level-length :
      (z : ℕ) (level : List ℕ) → length level ≤ length (next_level hash2 fr_zero z level) * 2
  unfolding next_level
  next_level-length z [] = omega arith
  next_level-length z (x ∷ []) = omega arith
  next_level-length z (x ∷ y ∷ level) = omega (arith, next_level-length z level)

  zeros_from-length : (d left : ℕ) → length (zeros_from hash2 fr_zero d left) ≡ left
  unfolding zeros_from
  zeros_from-length d zero = refl
  zeros_from-length d (suc left) = omega (arith, zeros_from-length (suc d) left)

  path_from-length :
      (d left : ℕ) (level : List ℕ) (idx : ℕ)
      → length (path_from hash2 fr_zero d left level idx) ≡ left
  unfolding path_from
  path_from-length d zero level idx = refl
  path_from-length d (suc left) level idx = ground (
    arith,
    zeros_from-length (suc d) left,
    path_from-length (suc d) left
        (next_level hash2 fr_zero (zero_subtree_root hash2 fr_zero d) level) (idx / 2),
  )

  -- The path of an element of a level leads from it to the root above the level.
  path_from-root :
      (d left e : ℕ) (level : List ℕ) (idx : ℕ)
      → idx < length level
      → idx < 2 ^ left
      → ascend hash2 fr_zero idx (element_at e level idx) (path_from hash2 fr_zero d left level idx)
        ≡ root_from hash2 fr_zero d left level
  unfolding path_from root_from next_level
  path_from-root d zero e level zero h k = element_at-default e fr_zero level 0 h
  path_from-root d zero e level (suc idx) h k = absurd (omega (arith, k))
  path_from-root d (suc left) e [] idx h k = absurd (omega (arith, h))
  path_from-root d (suc left) e (x ∷ []) (suc idx) h k = absurd (omega (arith, h))
  path_from-root d (suc left) e (x ∷ []) zero h k =
      ascend-zeros hash2 fr_zero (suc d) left (hash2 x (zero_subtree_root hash2 fr_zero d))
  path_from-root d (suc left) e (x ∷ y ∷ level) idx h k =
      let z = zero_subtree_root hash2 fr_zero d in
      let all : List ℕ = x ∷ y ∷ level in
      let up = next_level hash2 fr_zero z all in
      let path = path_from hash2 fr_zero (suc d) left up (idx / 2) in
      let many : leb (length all) 1 ≡ false = ground arith in
      rw many (
        ap
          (λ c.
            ascend hash2 fr_zero (idx / 2)
              (joined hash2 fr_zero idx c (sibling_at hash2 fr_zero z all idx)) path)
          (element_at-default e z all idx h)
        ∙ ap (λ c. ascend hash2 fr_zero (idx / 2) c path)
            (sym (parent_at hash2 fr_zero z e all idx h))
        ∙ path_from-root (suc d) left e up (idx / 2) (omega (arith, h, next_level-length z all))
            (omega (arith, k)))

  -- The path that the tree makes for a leaf verifies against the root of the leaves, at every position
  -- within the list and below 2^32.
  pub merkle_path-verifies :
      (leaves : List ℕ) (pos : ℕ)
      → pos < length leaves
      → pos < 2 ^ 32
      → (path : List ℕ) × (merkle_path hash2 fr_zero leaves pos ≡ some path)
        × (verify_path hash2 fr_zero
              (element_at fr_zero leaves pos)
              pos
              path
              (root_from_leaves hash2 fr_zero leaves)
            ≡ true)
  unfolding merkle_path verify_path root_from_leaves
  merkle_path-verifies leaves pos h k =
      let path = path_from hash2 fr_zero 0 tree_depth leaves pos in
      let leaf = element_at fr_zero leaves pos in
      let whole : pos / 2 ^ 0 ≡ pos = omega arith in
      let leads : climb hash2 fr_zero pos 0 leaf path
          ≡ root_from hash2 fr_zero 0 tree_depth leaves =
        climb-ascend hash2 fr_zero pos 0 leaf path
        ∙ ap (λ i. ascend hash2 fr_zero i leaf path) whole
        ∙ path_from-root 0 tree_depth fr_zero leaves pos h k in
      (path, ground (arith, h), ground (arith, leads, path_from-length 0 tree_depth leaves pos))

  abbrev pub Collision : Type 0
  Collision = (a : ℕ) × (b : ℕ) × (c : ℕ) × (d : ℕ) × ((a ≢ c) ⊎ (b ≢ d)) × (hash2 a b ≡ hash2 c d)

  split_pair : (a b c d : ℕ) → hash2 a b ≡ hash2 c d → ((a ≡ c) × (b ≡ d)) ⊎ Collision
  split_pair a b c d h = elim (Bool-cases (a == c)) [
    | inr e ↦ inr (a, b, c, d, inl (λ s. ground (arith, e, s)), h)
    | inl e ↦ elim (Bool-cases (b == d)) [
      | inr f ↦ inr (a, b, c, d, inr (λ s. ground (arith, f, s)), h)
      | inl f ↦ inl ((==_iff a c).0 e, (==_iff b d).0 f)
    ]
  ]

  climb-binds :
      (pos level cur cur' : ℕ) (path path' : List ℕ)
      → length path ≡ length path'
      → climb hash2 fr_zero pos level cur path ≡ climb hash2 fr_zero pos level cur' path'
      → (cur ≡ cur') ⊎ Collision
  unfolding climb
  climb-binds pos level cur cur' [] [] h k = inl k
  climb-binds pos level cur cur' [] (t ∷ path') h k = absurd (omega (arith, h))
  climb-binds pos level cur cur' (s ∷ path) [] h k = absurd (omega (arith, h))
  climb-binds pos level cur cur' (s ∷ path) (t ∷ path') h k =
      elim (climb-binds pos (suc level) _ _ path path' (omega (arith, h)) k) [
        | inr broken ↦ inr broken
        | inl same ↦ elim (Bool-cases (pos / 2 ^ level % 2 == 1)) [
          | inl e ↦ elim (split_pair s cur t cur' (rw e at same)) [
            | inl both ↦ inl both.1
            | inr broken ↦ inr broken
          ]
          | inr e ↦ elim (split_pair cur s cur' t (rw e at same)) [
            | inl both ↦ inl both.0
            | inr broken ↦ inr broken
          ]
        ]
      ]

  -- Two leaves that verify at the same position against the same root are the same, or the hash has a
  -- collision.
  pub verify_path-binds :
      (leaf leaf' pos : ℕ) (path path' : List ℕ) (root : ℕ)
      → verify_path hash2 fr_zero leaf pos path root ≡ true
      → verify_path hash2 fr_zero leaf' pos path' root ≡ true
      → (leaf ≡ leaf') ⊎ Collision
  unfolding verify_path
  verify_path-binds leaf leaf' pos path path' root h k =
      climb-binds pos 0 leaf leaf' path path' (ground (arith, h, k)) (ground (arith, h, k))
