-- ===== src/Journal/Snapshots.antt =====
-- The journal of src/journal.rs beside its specification, a stack of snapshots: a savepoint copies
-- the whole content of the store, a commit forgets the copy, and a rollback puts it back.
use inazuma_core.Base.{
  ℕ, zero, suc, ◌≡◌, refl, sym, ap, ◌∙◌, Bool, true, false, Option, none, some, List, [], ◌∷◌, ◌++◌,
  length, arith,
}
use inazuma_core.Platform.{Platform}
use inazuma_core.Journal.{
  Bank, Frame, frame_get, State, begin, commit, rollback, jput, jdel, commit_frames, record_frames,
}
use inazuma_core.Journal.Frames.{
  View, write, undo, IsUnique, or_insert-IsUnique, fold_into-IsUnique, undo-fold_into,
  undo-or_insert-write, view, view-insert, view-remove, view-restore,
}

-- What the store does between two reads.
pub data Op : Type 0 where
  open_savepoint keep discard : Op
  put : ℕ → ℕ → ℕ → Op
  del : ℕ → ℕ → Op

-- The specification: the content, and the copies taken at the open savepoints.
pub record Spec : Type 0 where
  pub content : View
  pub copies : List View

abbrev pub older : List View → List View
older [] = []
older (c ∷ cs) = cs

abbrev pub newest : View → List View → View
newest w [] = w
newest w (c ∷ cs) = c

abbrev pub spec_step : Op → Spec → Spec
spec_step Op.open_savepoint a = record a { copies = a.content ∷ a.copies }
spec_step Op.keep a = record a { copies = older a.copies }
spec_step Op.discard a = record { content = newest a.content a.copies; copies = older a.copies }
spec_step (Op.put id k v) a = record a { content = write a.content id k (some v) }
spec_step (Op.del id k) a = record a { content = write a.content id k none }

abbrev pub spec_run : List Op → Spec → Spec
spec_run [] a = a
spec_run (op ∷ ops) a = spec_run ops (spec_step op a)

abbrev pub Same : View → View → Type 0
Same v w = (i j : ℕ) → v i j ≡ w i j

-- Each frame undoes the content it stands over to the copy of its savepoint.
abbrev pub Covers : View → List Frame → List View → Type 0
Covers w [] [] = Unit
Covers w [] (c ∷ cs) = ⊥
Covers w (f ∷ fs) [] = ⊥
Covers w (f ∷ fs) (c ∷ cs) = IsUnique f × Same (undo f w) c × Covers c fs cs

undo-Same : (f : Frame) (v w : View) → Same v w → Same (undo f v) (undo f w)
undo-Same f v w h i j = ground (arith, h i j)

module _ (env : Platform) where
  unfoldable pub step : Op → State env → State env
  step Op.open_savepoint s = begin env s
  step Op.keep s = commit env s
  step Op.discard s = rollback env s
  step (Op.put id k v) s = jput env s id k v
  step (Op.del id k) s = jdel env s id k

  unfoldable pub run : List Op → State env → State env
  run [] s = s
  run (op ∷ ops) s = run ops (step op s)

  pub record Implements (s : State env) (a : Spec) : Type 0 where
    pub reads : Same (view env s.bank) a.content
    pub covers : Covers a.content s.frames a.copies

  Covers-write :
      (fs : List Frame) (cs : List View) (w now : View) (id k : ℕ) (v : Option ℕ)
      → Same now w
      → Covers w fs cs
      → Covers (write w id k v) (record_frames env id k (now id k) fs) cs
  Covers-write [] [] w now id k v same h = tt
  Covers-write [] (c ∷ cs) w now id k v same h = h
  Covers-write (f ∷ fs) [] w now id k v same h = h
  Covers-write (f ∷ fs) (c ∷ cs) w now id k v same (unique, undone, rest) = (
    or_insert-IsUnique (record { tree_id = id; key = k; before = now id k }) f unique,
    λ i j. rw (same id k) (undo-or_insert-write f w id k v i j ∙ undone i j),
    rest,
  )

  step-put :
      (s : State env) (a : Spec) (id k v : ℕ)
      → Implements s a
      → Implements (jput env s id k v) (spec_step (Op.put id k v) a)
  unfolding jput
  step-put s a id k v h = record {
    reads = λ i j. ground (arith, view-insert env s.bank id k v i j, h.reads i j);
    covers =
        Covers-write s.frames a.copies a.content (view env s.bank) id k (some v) h.reads h.covers;
  }

  step-del :
      (s : State env) (a : Spec) (id k : ℕ)
      → Implements s a
      → Implements (jdel env s id k) (spec_step (Op.del id k) a)
  unfolding jdel
  step-del s a id k h = record {
    reads = λ i j. ground (arith, view-remove env s.bank id k i j, h.reads i j);
    covers = Covers-write s.frames a.copies a.content (view env s.bank) id k none h.reads h.covers;
  }

  Covers-commit :
      (fs : List Frame) (cs : List View) (w : View)
      → Covers w fs cs
      → Covers w (commit_frames env fs) (older cs)
  unfolding commit_frames
  Covers-commit [] [] w h = h
  Covers-commit [] (c ∷ cs) w h = absurd h
  Covers-commit (f ∷ fs) [] w h = absurd h
  Covers-commit (f ∷ []) (c ∷ []) w h = tt
  Covers-commit (f ∷ []) (c ∷ d ∷ cs) w h = absurd h.2
  Covers-commit (f ∷ g ∷ fs) (c ∷ []) w h = absurd h.2
  Covers-commit (f ∷ g ∷ fs) (c ∷ d ∷ cs) w (unique, undone, (outer, redone, rest)) = (
    fold_into-IsUnique f g outer,
    λ i j. undo-fold_into f g w i j unique ∙ undo-Same g (undo f w) c undone i j ∙ redone i j,
    rest,
  )

  Covers-begin :
      (fs : List Frame) (cs : List View) (w : View) → Covers w fs cs → Covers w ([] ∷ fs) (w ∷ cs)
  unfolding frame_get
  Covers-begin fs cs w h = (tt, λ i j. refl, h)

  step-rollback :
      (s : State env) (a : Spec)
      → Implements s a
      → Implements (rollback env s) (spec_step Op.discard a)
  unfolding rollback
  step-rollback s a h = discarded s.bank s.frames a.content a.copies h.reads h.covers
    where
      discarded :
          (b : Bank env) (fs : List Frame) (w : View) (cs : List View)
          → Same (view env b) w
          → Covers w fs cs
          → Implements
              (rollback env (record { bank = b; frames = fs }))
              (spec_step Op.discard (record { content = w; copies = cs }))
      discarded b [] w [] same covers = record { reads = same; covers = tt }
      discarded b [] w (c ∷ cs) same covers = absurd covers
      discarded b (f ∷ fs) w [] same covers = absurd covers
      discarded b (f ∷ fs) w (c ∷ cs) same (unique, undone, rest) = record {
        reads = λ i j.
            view-restore env f b i j unique ∙ undo-Same f (view env b) w same i j ∙ undone i j;
        covers = rest;
      }

  -- Each operation of the journal does what the specification does.
  step-Implements :
      (op : Op) (s : State env) (a : Spec)
      → Implements s a
      → Implements (step op s) (spec_step op a)
  unfolding step begin commit
  step-Implements Op.open_savepoint s a h = record {
    reads = h.reads;
    covers = Covers-begin s.frames a.copies a.content h.covers;
  }
  step-Implements Op.keep s a h = record {
    reads = h.reads;
    covers = Covers-commit s.frames a.copies a.content h.covers;
  }
  step-Implements Op.discard s a h = step-rollback s a h
  step-Implements (Op.put id k v) s a h = step-put s a id k v h
  step-Implements (Op.del id k) s a h = step-del s a id k h

  -- From a journal that implements a stack of snapshots, the journal and the stack agree again after
  -- any sequence of savepoints, writes, commits and rollbacks: the store reads as the content of the
  -- specification, and each frame leads back to the copy of its savepoint.
  pub run-Implements :
      (ops : List Op) (s : State env) (a : Spec)
      → Implements s a
      → Implements (run ops s) (spec_run ops a)
  unfolding run
  run-Implements [] s a h = h
  run-Implements (op ∷ ops) s a h =
      run-Implements ops (step op s) (spec_step op a) (step-Implements op s a h)

-- The savepoints that a sequence opens are all closed by it, and it closes no other.
abbrev pub is_nested : ℕ → List Op → Bool
is_nested zero [] = true
is_nested (suc d) [] = false
is_nested d (Op.open_savepoint ∷ ops) = is_nested (suc d) ops
is_nested zero (Op.keep ∷ ops) = false
is_nested (suc d) (Op.keep ∷ ops) = is_nested d ops
is_nested zero (Op.discard ∷ ops) = false
is_nested (suc d) (Op.discard ∷ ops) = is_nested d ops
is_nested d (Op.put id k v ∷ ops) = is_nested d ops
is_nested d (Op.del id k ∷ ops) = is_nested d ops

-- A nested sequence leaves the copies below it alone.
copies_nested :
    (d : ℕ) (ops : List Op) (w : View) (own below : List View)
    → length own ≡ d
    → is_nested d ops ≡ true
    → (spec_run ops (record { content = w; copies = own ++ below })).copies ≡ below
copies_nested zero [] w [] below e h = refl
copies_nested zero [] w (c ∷ own) below e h = absurd (omega arith)
copies_nested (suc d) [] w own below e h = cc
copies_nested d (Op.open_savepoint ∷ ops) w own below e h =
    copies_nested (suc d) ops w (w ∷ own) below (ap suc e) h
copies_nested zero (Op.keep ∷ ops) w own below e h = cc
copies_nested (suc d) (Op.keep ∷ ops) w [] below e h = absurd (omega arith)
copies_nested (suc d) (Op.keep ∷ ops) w (c ∷ own) below e h =
    copies_nested d ops w own below (omega arith) h
copies_nested zero (Op.discard ∷ ops) w own below e h = cc
copies_nested (suc d) (Op.discard ∷ ops) w [] below e h = absurd (omega arith)
copies_nested (suc d) (Op.discard ∷ ops) w (c ∷ own) below e h =
    copies_nested d ops c own below (omega arith) h
copies_nested d (Op.put id k v ∷ ops) w own below e h =
    copies_nested d ops (write w id k (some v)) own below e h
copies_nested d (Op.del id k ∷ ops) w own below e h =
    copies_nested d ops (write w id k none) own below e h

module _ (env : Platform) where
  -- In a journal that implements a stack of snapshots, a rollback after any nested sequence of writes
  -- and savepoints since a savepoint makes every key of every tree read as it did before the savepoint.
  pub rollback_undoes :
      (ops : List Op) (s : State env) (a : Spec)
      → Implements env s a
      → is_nested 0 ops ≡ true
      → Same (view env (rollback env (run env ops (begin env s))).bank) (view env s.bank)
  unfolding step
  rollback_undoes ops s a h nested i j =
      let started = step-Implements env Op.open_savepoint s a h in
      let a' = spec_run ops (spec_step Op.open_savepoint a) in
      let ended =
        run-Implements env ops (step env Op.open_savepoint s) (spec_step Op.open_savepoint a)
          started in
      let kept : a'.copies ≡ a.content ∷ a.copies =
        copies_nested 0 ops a.content [] (a.content ∷ a.copies) refl nested in
      let undone = step-rollback env (run env ops (step env Op.open_savepoint s)) a' ended in
      undone.reads i j ∙ ap (λ (cs : List View). newest a'.content cs i j) kept ∙ sym (h.reads i j)
