-- ===== src/Mempool/Batch/Selection.antt =====
-- `take_batch` of src/mempool.rs: its loop and the pool that it leaves.
use inazuma_core.Base.{
  ℕ, zero, suc, ◌+◌, ◌≤◌, ◌<◌, ◌≡◌, refl, true, false, List, [], ◌∷◌, Dict, length, map, arith, leb,
  sort_by, insert_by, length-sort_by, Bool, Bool-cases, some, ◌&&◌, ltb, Option-cases, inl, inr,
}
use inazuma_core.State.{unwrap_or}
use inazuma_core.Transactions.{Transaction}
use inazuma_core.Mempool.{PoolTx, Mempool}
use inazuma_core.Mempool.Counting.{bit, count}
use inazuma_core.Mempool.Valid.{Indexed, IsValid, from_sender, with_hash, remove_one}
use inazuma_core.Mempool.Batch.{
  Slot, Selecting, select_one, select_pass, select_rounds, rank_of, split_ranked, take_batch,
  enumerate, selection, batch_order,
}

select_pass_shrinks :
    (max : ℕ) (xs : List Slot) (v : Selecting)
    → let (still, w) = select_pass max xs v in
      length still + bit w.deferred ≤ length xs + bit v.deferred
unfolding select_pass select_one
select_pass_shrinks max [] v = omega arith
select_pass_shrinks max (x ∷ xs) v =
    ground (arith, select_pass_shrinks max xs (select_one max x v).1, select_pass_shrinks max xs v)

select_rounds_end :
    (n max : ℕ) (remaining : List Slot) (v : Selecting)
    → length remaining + bit v.deferred < n
    → (chosen : List Slot) × (select_rounds n max remaining v ≡ some chosen)
unfolding select_rounds
select_rounds_end zero max remaining v h = absurd (omega (arith, h))
select_rounds_end (suc n) max remaining v h =
    let start : Selecting = record v { deferred = false } in
    let (still, w) = select_pass max remaining start in
    elim (Bool-cases (v.deferred && ltb (length v.chosen) max)) [
      | inr e ↦ (v.chosen, ground (arith, e))
      | inl e ↦
          let fewer : length still + bit w.deferred < n =
            ground (arith, e, h, select_pass_shrinks max remaining start) in
          let (chosen, ends) = select_rounds_end n max still w fewer in
          (chosen, ground (arith, e, ends))
    ]

select_rounds_more :
    (n m max : ℕ) (remaining : List Slot) (v : Selecting) (chosen : List Slot)
    → n ≤ m
    → select_rounds n max remaining v ≡ some chosen
    → select_rounds m max remaining v ≡ some chosen
unfolding select_rounds
select_rounds_more zero m max remaining v chosen k h = absurd (ground (arith, h))
select_rounds_more (suc n) zero max remaining v chosen k h = absurd (omega (arith, k))
select_rounds_more (suc n) (suc m) max remaining v chosen k h =
    let start : Selecting = record v { deferred = false } in
    let (still, w) = select_pass max remaining start in
    ground (arith, h, select_rounds_more n m max still w chosen (omega (arith, k)))

split_ranked_lem :
    (chosen : List Slot) (i : ℕ) (more others : ℕ → ℕ) (es : List PoolTx) (hashes : Dict (Unit {0}))
    (per : Dict ℕ)
    → Indexed more others es hashes per
    → let s = split_ranked chosen i es hashes per in
      Indexed more others s.kept s.hashes s.per_sender
      × (length s.taken + length s.kept ≡ length es)
unfolding split_ranked
split_ranked_lem chosen i more others [] hashes per v = (v, refl)
split_ranked_lem chosen i more others (e ∷ es) hashes per v =
    let dropped =
      split_ranked_lem chosen (suc i) more others es _ _
        (remove_one (e ∷ es) es e (λ q. omega arith) v) in
    let later =
      split_ranked_lem chosen (suc i) (λ s. more s + bit (from_sender s e))
        (λ h. others h + bit (with_hash h e)) es hashes per
        (record {
          pends = λ s. omega (arith, v.pends s);
          holds = λ h. ground (arith, v.holds h);
          once = λ h. omega (arith, v.once h);
          hashes-ascending = v.hashes-ascending;
          per-ascending = v.per-ascending;
        }) in
    elim (Option-cases (rank_of 0 i chosen)) [
      | inr (r, y) ↦ rw (y, split_ranked) (dropped.0, omega (arith, dropped.1))
      | inl n ↦
          rw (n, split_ranked)
            (
              record {
                pends = λ s. omega (arith, later.0.pends s);
                holds = λ h. ground (arith, later.0.holds h);
                once = λ h. omega (arith, later.0.once h);
                hashes-ascending = later.0.hashes-ascending;
                per-ascending = later.0.per-ascending;
              },
              omega (arith, later.1),
            )
    ]

length-enumerate : (i : ℕ) (es : List PoolTx) → length (enumerate i es) ≡ length es
length-enumerate i [] = refl
length-enumerate i (e ∷ es) = omega (arith, length-enumerate (suc i) es)

pub length-map : {A B : Type 0} (f : A → B) (xs : List A) → length (map f xs) ≡ length xs
length-map f [] = refl
length-map f (x ∷ xs) = omega (arith, length-map f xs)

-- The selection loop ends, whatever the pool: it has a selection once two rounds more are allowed
-- than there are entries, and to allow it further rounds changes nothing.
pub selection_ends :
    (fuel max : ℕ) (p : Mempool)
    → suc (length p.entries) < fuel
    → (chosen : List Slot) × (selection (suc (suc (length p.entries))) max p ≡ some chosen)
      × (selection fuel max p ≡ some chosen)
selection_ends fuel max p h =
    let sorted = sort_by batch_order (enumerate 0 p.entries) in
    let start : Selecting = record { next_ok = []; chosen = []; deferred = true } in
    let (chosen, ends) = select_rounds_end (suc (suc (length p.entries))) max sorted start (
      omega (
        arith,
        length-sort_by batch_order (enumerate 0 p.entries),
        length-enumerate 0 p.entries,
      )) in
    (
      chosen,
      ends,
      select_rounds_more (suc (suc (length p.entries))) fuel max sorted start chosen
          (omega (arith, h)) ends,
    )

-- How many of a list pass a test.
abbrev pub tally : {A : Type 0} → (A → Bool) → List A → ℕ
tally test [] = 0
tally test (x ∷ xs) = bit (test x) + tally test xs

module _ {A : Type 0} (test : A → Bool) where
  tally-insert_by :
      (le : A → A → Bool) (x : A) (xs : List A)
      → tally test (insert_by le x xs) ≡ bit (test x) + tally test xs
  tally-insert_by le x [] = refl
  tally-insert_by le x (y ∷ ys) = ground (arith, tally-insert_by le x ys)

  tally-sort_by : (le : A → A → Bool) (xs : List A) → tally test (sort_by le xs) ≡ tally test xs
  tally-sort_by le [] = refl
  tally-sort_by le (x ∷ xs) =
      omega (arith, tally-insert_by le x (sort_by le xs), tally-sort_by le xs)

  tally-map :
      {B : Type 0} (f : B → A) (xs : List B) → tally test (map f xs) ≡ tally (λ x. test (f x)) xs
  tally-map f [] = refl
  tally-map f (x ∷ xs) = omega (arith, tally-map f xs)

tally-split_ranked :
    (test : Transaction → Bool) (chosen : List Slot) (i : ℕ) (es : List PoolTx)
    (hashes : Dict (Unit {0})) (per : Dict ℕ)
    → let s = split_ranked chosen i es hashes per in
      tally (λ t. test t.1) s.taken + count (λ e. test e.tx) s.kept ≡ count (λ e. test e.tx) es
unfolding split_ranked
tally-split_ranked test chosen i [] hashes per = refl
tally-split_ranked test chosen i (e ∷ es) hashes per = elim (Option-cases (rank_of 0 i chosen)) [
  | inr (r, y) ↦ rw (y, split_ranked) (omega (arith, tally-split_ranked test chosen (suc i) es _ _))
  | inl n ↦
      rw (n, split_ranked) (omega (arith, tally-split_ranked test chosen (suc i) es hashes per))
]

-- Taking a batch from a valid pool leaves a valid pool, and every queued transaction is either in
-- the batch or still queued, with none lost and none doubled: whatever is counted of the queue's
-- transactions before is what the batch and the remaining queue count together.
pub take_batch_lem :
    (max : ℕ) (p : Mempool)
    → IsValid p
    → let (batch, q) = take_batch max p in
      IsValid q
      × (length batch + length q.entries ≡ length p.entries)
      × ((test : Transaction → Bool)
          → tally test batch + count (λ e. test e.tx) q.entries ≡ count (λ e. test e.tx) p.entries)
unfolding take_batch
take_batch_lem max p v =
    let chosen = unwrap_or (selection (suc (suc (length p.entries))) max p) [] in
    let s = split_ranked chosen 0 p.entries p.hashes p.per_sender in
    let order = λ (a b : ℕ × Transaction). leb a.0 b.0 in
    let sorted = sort_by order s.taken in
    let split = split_ranked_lem chosen 0 (λ x. 0) (λ x. 0) p.entries p.hashes p.per_sender v in
    (
      ground (arith, v, split),
      ground (
        arith,
        split,
        length-sort_by order s.taken,
        length-map (λ (t : ℕ × Transaction). t.1) sorted,
      ),
      λ test. ground (
        arith,
        tally-split_ranked test chosen 0 p.entries p.hashes p.per_sender,
        tally-sort_by (λ (t : ℕ × Transaction). test t.1) order s.taken,
        tally-map test (λ (t : ℕ × Transaction). t.1) sorted,
      ),
    )
