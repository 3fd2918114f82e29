-- ===== src/Notes/Paths.antt =====
-- Paths and roots of the note tree of src/shielded.rs agree.
use inazuma_core.Base.{
  ℕ, zero, suc, ◌+◌, ◌-◌, ◌/◌, ◌%◌, ◌^◌, ◌<◌, ◌≡◌, refl, ap, sym, ◌∙◌, false, List, [], ◌∷◌, length,
  arith, ◌==◌, if◌then◌else◌, Bool-cases, inl, inr,
}
use native.Mathlib.Nat.{div-div-eq-div-mul}
use inazuma_core.Notes.{element_at, zero_subtree_root, next_level, ride_up, zeros_from, climb}

module _ (hash2 : ℕ → ℕ → ℕ) (fr_zero : ℕ) where
  -- A step up from an element with its sibling.
  abbrev pub joined : ℕ → ℕ → ℕ → ℕ
  joined idx cur sibling = if idx % 2 == 1 then hash2 sibling cur else hash2 cur sibling

  -- The climb with the index halved at each step.
  abbrev pub ascend : ℕ → ℕ → List ℕ → ℕ
  ascend idx cur [] = cur
  ascend idx cur (sibling ∷ path) = ascend (idx / 2) (joined idx cur sibling) path

  shifted : (pos level : ℕ) → pos / 2 ^ level / 2 ≡ pos / 2 ^ suc level
  shifted pos level = div-div-eq-div-mul pos (2 ^ level) 2 ∙ ap (λ n. pos / n) (omega arith)

  pub climb-ascend :
      (pos level cur : ℕ) (path : List ℕ)
      → climb hash2 fr_zero pos level cur path ≡ ascend (pos / 2 ^ level) cur path
  unfolding climb
  climb-ascend pos level cur [] = refl
  climb-ascend pos level cur (sibling ∷ path) =
      climb-ascend pos (suc level) (joined (pos / 2 ^ level) cur sibling) path
      ∙ ap (λ i. ascend i (joined (pos / 2 ^ level) cur sibling) path) (sym (shifted pos level))

  pub ascend-zeros :
      (d left cur : ℕ)
      → ascend 0 cur (zeros_from hash2 fr_zero d left) ≡ ride_up hash2 fr_zero d left cur
  unfolding zeros_from ride_up
  ascend-zeros d zero cur = refl
  ascend-zeros d (suc left) cur =
      ascend-zeros (suc d) left (hash2 cur (zero_subtree_root hash2 fr_zero d))

  abbrev pub sibling_at : ℕ → List ℕ → ℕ → ℕ
  sibling_at z level idx =
      if idx % 2 == 0 then element_at z level (idx + 1) else element_at z level (idx - 1)

  half : (idx : ℕ) → suc (suc idx) / 2 ≡ suc (idx / 2)
  half idx = omega arith

  parity : (idx : ℕ) → suc (suc idx) % 2 ≡ idx % 2
  parity idx = omega arith

  right_of_two : (idx : ℕ) → suc (suc idx) + 1 ≡ suc (suc (idx + 1))
  right_of_two idx = omega arith

  left_of_two : (idx : ℕ) → (idx % 2 == 0) ≡ false → suc (suc idx) - 1 ≡ suc (suc (idx - 1))
  left_of_two idx h = ground (arith, h)

  sibling_step :
      (z x y : ℕ) (level : List ℕ) (idx : ℕ)
      → sibling_at z (x ∷ y ∷ level) (suc (suc idx)) ≡ sibling_at z level idx
  sibling_step z x y level idx =
      let both : List ℕ = x ∷ y ∷ level in
      elim (Bool-cases (idx % 2 == 0)) [
        | inl e ↦ rw (parity idx, e) (ap (element_at z both) (right_of_two idx))
        | inr e ↦ rw (parity idx, e) (ap (element_at z both) (left_of_two idx e))
      ]

  joined_step : (idx cur sibling : ℕ) → joined idx cur sibling ≡ joined (suc (suc idx)) cur sibling
  joined_step idx cur sibling =
      ap (λ r. if r == 1 then hash2 sibling cur else hash2 cur sibling) (sym (parity idx))

  -- The parent of an element of a level is in the next level, at half its index.
  pub parent_at :
      (z e : ℕ) (level : List ℕ) (idx : ℕ)
      → idx < length level
      → element_at e (next_level hash2 fr_zero z level) (idx / 2)
        ≡ joined idx (element_at z level idx) (sibling_at z level idx)
  unfolding next_level
  parent_at z e [] idx h = absurd (omega (arith, h))
  parent_at z e (x ∷ []) zero h = refl
  parent_at z e (x ∷ []) (suc idx) h = absurd (omega (arith, h))
  parent_at z e (x ∷ y ∷ level) zero h = refl
  parent_at z e (x ∷ y ∷ level) (suc zero) h = refl
  parent_at z e (x ∷ y ∷ level) (suc (suc idx)) h =
      ap (element_at e (hash2 x y ∷ next_level hash2 fr_zero z level)) (half idx)
      ∙ parent_at z e level idx (omega (arith, h))
      ∙ joined_step idx (element_at z level idx) (sibling_at z level idx)
      ∙ ap (joined (suc (suc idx)) (element_at z level idx)) (sym (sibling_step z x y level idx))
