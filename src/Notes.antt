-- ===== src/Notes.antt =====
-- The note tree of src/shielded.rs. The elements of the field are numbers, and `hash2` is Poseidon of two
-- elements, of src/poseidon.rs. A level is read in range: where the source indexes it, the default is
-- never taken.
pub mod Paths
pub mod Roots
use inazuma_core.Base.{
  ℕ, zero, suc, ◌+◌, ◌-◌, ◌/◌, ◌%◌, ◌^◌, Bool, false, Option, none, some, List, [], ◌∷◌, length,
  ltb, leb, ◌==◌, if◌then◌else◌, ◌&&◌,
}

abbrev pub tree_depth : ℕ
tree_depth = 32

abbrev pub element_at : ℕ → List ℕ → ℕ → ℕ
element_at d [] i = d
element_at d (x ∷ xs) zero = x
element_at d (x ∷ xs) (suc i) = element_at d xs i

module _ (hash2 : ℕ → ℕ → ℕ) (fr_zero : ℕ) where
  -- `note_commitment` of an amount as an element, `owner_tag` and `nullifier`.
  unfoldable pub note_commitment : ℕ → ℕ → ℕ → ℕ
  note_commitment owner value rho = hash2 (hash2 owner value) rho

  unfoldable pub owner_tag : ℕ → ℕ
  owner_tag spend_key = hash2 spend_key fr_zero

  unfoldable pub nullifier : ℕ → ℕ → ℕ
  nullifier spend_key position = hash2 spend_key position

  unfoldable pub zero_subtree_root : ℕ → ℕ
  zero_subtree_root zero = fr_zero
  zero_subtree_root (suc depth) = let z = zero_subtree_root depth in hash2 z z

  -- `level.chunks(2)`: a lone last element is paired with the zero subtree.
  unfoldable pub next_level : ℕ → List ℕ → List ℕ
  next_level z [] = []
  next_level z (x ∷ []) = hash2 x z ∷ []
  next_level z (x ∷ y ∷ level) = hash2 x y ∷ next_level z level

  -- A lone node rides up, from the depth over the depths that are left.
  unfoldable pub ride_up : ℕ → ℕ → ℕ → ℕ
  ride_up d zero cur = cur
  ride_up d (suc left) cur = ride_up (suc d) left (hash2 cur (zero_subtree_root d))

  -- The loop over the depths.
  unfoldable pub root_from : ℕ → ℕ → List ℕ → ℕ
  unfolding next_level ride_up
  root_from d zero level = element_at fr_zero level 0
  root_from d (suc left) level =
      let above = root_from (suc d) left (next_level (zero_subtree_root d) level) in
      if leb (length level) 1
      then ride_up d (suc left) (element_at (zero_subtree_root d) level 0)
      else above

  unfoldable pub root_from_leaves : List ℕ → ℕ
  unfolding root_from
  root_from_leaves leaves = root_from 0 tree_depth leaves

  unfoldable pub zeros_from : ℕ → ℕ → List ℕ
  zeros_from d zero = []
  zeros_from d (suc left) = zero_subtree_root d ∷ zeros_from (suc d) left

  unfoldable pub path_from : ℕ → ℕ → List ℕ → ℕ → List ℕ
  unfolding next_level zeros_from
  path_from d zero level idx = []
  path_from d (suc left) level idx =
      let z = zero_subtree_root d in
      let sibling =
        if idx % 2 == 0 then element_at z level (idx + 1) else element_at z level (idx - 1) in
      let above = path_from (suc d) left (next_level z level) (idx / 2) in
      sibling ∷ (if leb (length level) 1 then zeros_from (suc d) left else above)

  unfoldable pub merkle_path : List ℕ → ℕ → Option (List ℕ)
  unfolding path_from
  merkle_path leaves pos =
      if leb (length leaves) pos then none else some (path_from 0 tree_depth leaves pos)

  -- The loop over the siblings with their levels.
  unfoldable pub climb : ℕ → ℕ → ℕ → List ℕ → ℕ
  climb pos level cur [] = cur
  climb pos level cur (sibling ∷ path) =
      climb pos (suc level)
        (if pos / 2 ^ level % 2 == 1 then hash2 sibling cur else hash2 cur sibling) path

  unfoldable pub verify_path : ℕ → ℕ → List ℕ → ℕ → Bool
  unfolding climb
  verify_path leaf pos path root =
      if length path == tree_depth then climb pos 0 leaf path == root else false
