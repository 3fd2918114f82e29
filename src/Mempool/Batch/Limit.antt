-- ===== src/Mempool/Batch/Limit.antt =====
-- The size of a batch that `take_batch` of src/mempool.rs drains.
use inazuma_core.Base.{
  ℕ, zero, suc, ◌+◌, ◌≤◌, ◌<◌, ◌≡◌, some, List, [], ◌∷◌, Dict, length, length-append, arith, leb,
  true, false, if◌then◌else◌, sort_by, length-sort_by, Option-cases, inl, inr,
}
use inazuma_core.State.{unwrap_or}
use inazuma_core.Transactions.{Transaction}
use inazuma_core.Mempool.{PoolTx, Mempool}
use inazuma_core.Mempool.Batch.{
  Slot, Selecting, select_one, select_pass, select_rounds, rank_of, split_ranked, take_batch,
  selection, batch_order, enumerate,
}
use inazuma_core.Mempool.Batch.Selection.{length-map}

-- How many slots of a selection have the index or a later one.
abbrev from_index : ℕ → List Slot → ℕ
from_index i [] = 0
from_index i (x ∷ xs) = (if leb i x.0 then 1 else 0) + from_index i xs

from_index-le : (i : ℕ) (xs : List Slot) → from_index i xs ≤ length xs
from_index-le i [] = omega arith
from_index-le i (x ∷ xs) = ground (arith, from_index-le i xs)

from_index-suc : (i : ℕ) (xs : List Slot) → from_index (suc i) xs ≤ from_index i xs
from_index-suc i [] = omega arith
from_index-suc i (x ∷ xs) = ground (arith, from_index-suc i xs)

-- An index that has a rank is in the selection.
ranked :
    (r i q : ℕ) (xs : List Slot) → rank_of r i xs ≡ some q → from_index (suc i) xs < from_index i xs
unfolding rank_of
ranked r i q [] h = absurd (ground (arith, h))
ranked r i q ((j, e) ∷ xs) h = ground (arith, h, ranked (suc r) i q xs, from_index-suc i xs)

taken_le :
    (chosen : List Slot) (i : ℕ) (es : List PoolTx) (hashes : Dict (Unit {0})) (per : Dict ℕ)
    → length (split_ranked chosen i es hashes per).taken ≤ from_index i chosen
unfolding split_ranked
taken_le chosen i [] hashes per = omega arith
taken_le chosen i (e ∷ es) hashes per = elim (Option-cases (rank_of 0 i chosen)) [
  | inr (r, y) ↦
      rw (y, split_ranked) (omega (arith, taken_le chosen (suc i) es _ _, ranked 0 i r chosen y))
  | inl n ↦
      rw (n, split_ranked)
        (omega (arith, taken_le chosen (suc i) es hashes per, from_index-suc i chosen))
]

select_pass-le :
    (max : ℕ) (xs : List Slot) (v : Selecting)
    → length v.chosen ≤ max
    → length (select_pass max xs v).1.chosen ≤ max
unfolding select_pass select_one
select_pass-le max [] v h = h
select_pass-le max ((i, e) ∷ xs) v h = ground (
  arith,
  h,
  length-append v.chosen ((i, e) ∷ []),
  select_pass-le max xs (select_one max (i, e) v).1,
)

select_rounds-le :
    (n max : ℕ) (remaining : List Slot) (v : Selecting)
    → length v.chosen ≤ max
    → length (unwrap_or (select_rounds n max remaining v) []) ≤ max
unfolding select_rounds
select_rounds-le zero max remaining v h = omega arith
select_rounds-le (suc n) max remaining v h =
    let start : Selecting = record v { deferred = false } in
    let (still, w) = select_pass max remaining start in
    ground (arith, h, select_rounds-le n max still w (select_pass-le max remaining start h))

-- A batch has no more transactions than were asked for.
pub take_batch-le : (max : ℕ) (p : Mempool) → length (take_batch max p).0 ≤ max
unfolding take_batch
take_batch-le max p =
    let chosen = unwrap_or (selection (suc (suc (length p.entries))) max p) [] in
    let s = split_ranked chosen 0 p.entries p.hashes p.per_sender in
    let sorted = sort_by (λ (a b : ℕ × Transaction). leb a.0 b.0) s.taken in
    ground (
      arith,
      taken_le chosen 0 p.entries p.hashes p.per_sender,
      from_index-le 0 chosen,
      select_rounds-le (suc (suc (length p.entries))) max
          (sort_by batch_order (enumerate 0 p.entries))
          (record { next_ok = []; chosen = []; deferred = true }) (omega arith),
      length-sort_by (λ (a b : ℕ × Transaction). leb a.0 b.0) s.taken,
      length-map (λ (t : ℕ × Transaction). t.1) sorted,
    )
