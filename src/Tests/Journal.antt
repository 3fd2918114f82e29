-- ===== src/Tests/Journal.antt =====
-- A block with two transactions: the first is kept, the second undone; then the block is rejected.
use inazuma_core.Base.{◌≡◌, refl, none, some, List, [], ◌∷◌, lookup, insert, remove}
use inazuma_core.Platform.Sample.{sample}
use inazuma_core.Journal.{
  State, begin, commit, rollback, jput, jdel, frame_get, or_insert, fold_into, record_key, restore,
  commit_frames,
}
use inazuma_core.Journal.Frames.{view}
use inazuma_core.Journal.Snapshots.{Op, Spec, spec_run, step, run, Implements, run-Implements}

-- Key 5 of tree 0 holds 50 at the start.
abbrev start : State sample
start = record { bank = λ i. ((5, 50) ∷ [], (tt, tt)); frames = [] }

abbrev block : List Op
block =
    Op.open_savepoint
    ∷ Op.put 0 5 51
    ∷ Op.put 1 6 60
    ∷ Op.keep
    ∷ Op.open_savepoint
    ∷ Op.del 0 5
    ∷ Op.discard
    ∷ []

abbrev spec_start : Spec
spec_start = record { content = view sample start.bank; copies = [] }

runs : Unit {0}
unfolding step run begin commit rollback jput jdel frame_get or_insert fold_into record_key restore
    commit_frames lookup insert remove
runs = tt

drafted : view sample (run sample block (begin sample start)).bank 0 5 ≡ some 51
unfolding runs
drafted = refl

rejected :
    (view sample (rollback sample (run sample block (begin sample start))).bank 0 5 ≡ some 50)
    × (view sample (rollback sample (run sample block (begin sample start))).bank 1 6 ≡ none)
unfolding runs
rejected = (refl, refl)

abbrev start-Implements : Implements sample start spec_start
start-Implements = record { reads = λ i j. refl; covers = tt }

run-Implements_example : Implements sample (run sample block start) (spec_run block spec_start)
run-Implements_example = run-Implements sample block start spec_start start-Implements
