-- ===== src/Journal.antt =====
-- The undo log of src/journal.rs and the writes of src/state.rs that go through it (`jput`,
-- `jdel`, and the savepoints around a block and a transaction). A `Bank` holds the trees by their
-- ids; keys and values are opaque byte strings. `trees.get(tree_id)` never fails: every id that is
-- recorded is one of the store's.
pub mod Frames
pub mod Snapshots
use inazuma_core.Base.{
  ℕ, Bool, true, false, ◌&&◌, Option, none, some, List, [], ◌∷◌, ◌==◌, if◌then◌else◌, is_some,
}
use inazuma_core.Platform.{Platform}

-- One undo entry: the value a key had before, or `none` where it was absent.
pub record Entry : Type 0 where
  pub tree_id : ℕ
  pub key : ℕ
  pub before : Option ℕ

-- A `HashMap` from tree and key to the value before.
abbrev pub Frame : Type 0
Frame = List Entry

abbrev pub same_key : ℕ → ℕ → Entry → Bool
same_key id k e = e.tree_id == id && e.key == k

unfoldable pub frame_get : ℕ → ℕ → Frame → Option (Option ℕ)
frame_get id k [] = none
frame_get id k (e ∷ f) = if same_key id k e then some e.before else frame_get id k f

-- `entry(key).or_insert(before)`
unfoldable pub or_insert : Entry → Frame → Frame
unfolding frame_get
or_insert e f = if is_some (frame_get e.tree_id e.key f) then f else e ∷ f

-- The loop of `commit` over the entries of the frame that is done.
unfoldable pub fold_into : Frame → Frame → Frame
fold_into [] parent = parent
fold_into (e ∷ done) parent = fold_into done (or_insert e parent)

module _ (env : Platform) where
  abbrev pub Bank : Type 0
  Bank = ℕ → env.Tree ℕ

  abbrev pub with_tree : Bank → ℕ → env.Tree ℕ → Bank
  with_tree b id t = λ i. if i == id then t else b i

  pub record State : Type 0 where
    pub bank : Bank
    -- The innermost savepoint first.
    pub frames : List Frame

  unfoldable pub begin : State → State
  begin s = record s { frames = [] ∷ s.frames }

  unfoldable pub active : State → Bool
  active s = elim s.frames [ [] ↦ false | f ∷ fs ↦ true ]

  unfoldable pub commit_frames : List Frame → List Frame
  commit_frames [] = []
  commit_frames (done ∷ []) = []
  commit_frames (done ∷ parent ∷ fs) = fold_into done parent ∷ fs

  unfoldable pub commit : State → State
  unfolding commit_frames
  commit s = record s { frames = commit_frames s.frames }

  abbrev pub record_frames : ℕ → ℕ → Option ℕ → List Frame → List Frame
  record_frames id k before [] = []
  record_frames id k before (f ∷ fs) =
      or_insert (record { tree_id = id; key = k; before = before }) f ∷ fs

  -- `Journal::record`
  unfoldable pub record_key : State → ℕ → ℕ → State
  record_key s id k = record s { frames = record_frames id k (env.get ℕ (s.bank id) k) s.frames }

  -- One entry put back: the value is written again, or the key removed.
  abbrev pub put_back : Bank → ℕ → ℕ → Option ℕ → Bank
  put_back b id k (some v) = with_tree b id (env.tree_insert ℕ (b id) k v)
  put_back b id k none = with_tree b id (env.tree_remove ℕ (b id) k)

  -- The loop of `rollback` over the entries of a frame.
  unfoldable pub restore : Frame → Bank → Bank
  restore [] b = b
  restore (e ∷ f) b = restore f (put_back b e.tree_id e.key e.before)

  unfoldable pub rollback : State → State
  rollback s = elim s.frames [ [] ↦ s | f ∷ fs ↦ record { bank = restore f s.bank; frames = fs } ]

  -- `Store::jput` and `Store::jdel`
  unfoldable pub jput : State → ℕ → ℕ → ℕ → State
  unfolding record_key
  jput s id k v =
      let s' = record_key s id k in
      record s' { bank = with_tree s'.bank id (env.tree_insert ℕ (s'.bank id) k v) }

  unfoldable pub jdel : State → ℕ → ℕ → State
  unfolding record_key
  jdel s id k =
      let s' = record_key s id k in
      record s' { bank = with_tree s'.bank id (env.tree_remove ℕ (s'.bank id) k) }
