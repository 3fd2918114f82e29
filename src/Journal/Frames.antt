-- ===== src/Journal/Frames.antt =====
-- Frames of src/journal.rs: what one undoes, and how its entries combine.
use inazuma_core.Base.{
  ℕ, ◌≡◌, refl, ◌&&◌, Option, none, some, [], ◌∷◌, arith, ◌==◌, if◌then◌else◌, lookup-insert,
  lookup-remove,
}
use inazuma_core.Platform.{Platform}
use inazuma_core.Journal.{
  Entry, Frame, same_key, frame_get, or_insert, fold_into, Bank, with_tree, put_back, restore,
}

-- The content of all trees, as reads see it.
abbrev pub View : Type 0
View = ℕ → ℕ → Option ℕ

abbrev pub write : View → ℕ → ℕ → Option ℕ → View
write w id k v = λ i j. if i == id && j == k then v else w i j

-- A view with the entries of a frame put back.
abbrev pub undo : Frame → View → View
undo f w = λ i j. elim (frame_get i j f) [ none ↦ w i j | some before ↦ before ]

-- No key is recorded twice in a frame.
abbrev pub IsUnique : Frame → Type 0
IsUnique [] = Unit
IsUnique (e ∷ f) = (frame_get e.tree_id e.key f ≡ none) × IsUnique f

pub or_insert-IsUnique : (e : Entry) (f : Frame) → IsUnique f → IsUnique (or_insert e f)
unfolding or_insert
or_insert-IsUnique e f h = ground arith

pub fold_into-IsUnique : (done parent : Frame) → IsUnique parent → IsUnique (fold_into done parent)
unfolding fold_into
fold_into-IsUnique [] parent h = h
fold_into-IsUnique (e ∷ done) parent h =
    fold_into-IsUnique done (or_insert e parent) (or_insert-IsUnique e parent h)

frame_get-or_insert :
    (i j : ℕ) (e : Entry) (f : Frame)
    → frame_get i j (or_insert e f) ≡ elim (frame_get i j f) [
      | none ↦ if same_key i j e then some e.before else none
      | some b ↦ some b
    ]
unfolding or_insert frame_get
frame_get-or_insert i j e f = ground arith

-- Of two frames folded into one, the outer one's entries win.
pub undo-fold_into :
    (done parent : Frame) (w : View) (i j : ℕ)
    → IsUnique done
    → undo (fold_into done parent) w i j ≡ undo parent (undo done w) i j
unfolding fold_into frame_get
undo-fold_into [] parent w i j h = refl
undo-fold_into (e ∷ done) parent w i j h = ground (
  arith,
  h.0,
  undo-fold_into done (or_insert e parent) w i j h.1,
  frame_get-or_insert i j e parent,
)

-- To record a key's present value and then write it is undone to what the frame undid before.
pub undo-or_insert-write :
    (f : Frame) (w : View) (id k : ℕ) (v : Option ℕ) (i j : ℕ)
    → undo (or_insert (record { tree_id = id; key = k; before = w id k }) f) (write w id k v) i j
      ≡ undo f w i j
unfolding or_insert frame_get
undo-or_insert-write f w id k v i j = ground arith

module _ (env : Platform) where
  abbrev pub view : Bank env → View
  view b = λ i j. env.get ℕ (b i) j

  pub view-insert :
      (b : Bank env) (id k v i j : ℕ)
      → view (with_tree env b id (env.tree_insert ℕ (b id) k v)) i j
        ≡ write (view b) id k (some v) i j
  view-insert b id k v i j = ground (
    arith,
    env.get-iter ℕ (b id) j,
    env.get-iter ℕ (env.tree_insert ℕ (b id) k v) j,
    env.iter-insert ℕ (b id) k v,
    lookup-insert k j v (env.iter ℕ (b id)),
  )

  pub view-remove :
      (b : Bank env) (id k i j : ℕ)
      → view (with_tree env b id (env.tree_remove ℕ (b id) k)) i j ≡ write (view b) id k none i j
  view-remove b id k i j = ground (
    arith,
    env.get-iter ℕ (b id) j,
    env.get-iter ℕ (env.tree_remove ℕ (b id) k) j,
    env.iter-remove ℕ (b id) k,
    lookup-remove k j (env.iter ℕ (b id)) (env.iter-ascending ℕ (b id)),
  )

  view-put_back :
      (b : Bank env) (id k : ℕ) (o : Option ℕ) (i j : ℕ)
      → view (put_back env b id k o) i j ≡ write (view b) id k o i j
  view-put_back b id k none i j = view-remove b id k i j
  view-put_back b id k (some v) i j = view-insert b id k v i j

  -- The rollback loop puts back every entry of the frame, and touches nothing else.
  pub view-restore :
      (f : Frame) (b : Bank env) (i j : ℕ)
      → IsUnique f
      → view (restore env f b) i j ≡ undo f (view b) i j
  unfolding restore frame_get
  view-restore [] b i j h = refl
  view-restore (e ∷ f) b i j h =
      let b' = put_back env b e.tree_id e.key e.before in
      let ih : view (restore env f b') i j ≡ undo f (view b') i j = view-restore f b' i j h.1 in
      ground (arith, h.0, ih, view-put_back b e.tree_id e.key e.before i j)
