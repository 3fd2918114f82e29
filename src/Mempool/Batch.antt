-- ===== src/Mempool/Batch.antt =====
-- `take_batch` of src/mempool.rs. An index is kept beside its entry; the rounds of the `while` loop
-- are counted by fuel, and without enough of it there is no selection.
pub mod Selection
pub mod Limit
use inazuma_core.Base.{
  ℕ, zero, suc, ◌+◌, Bool, true, false, ◌&&◌, Option, none, some, List, [], ◌∷◌, ◌++◌, Dict, length,
  map, lookup, insert, remove, is_some, ltb, leb, ◌==◌, if◌then◌else◌, u64_add, sort_by,
}
use inazuma_core.State.{unwrap_or}
use inazuma_core.Transactions.{Transaction}
use inazuma_core.Mempool.{PoolTx, Mempool, decrement}

abbrev pub Slot : Type 0
Slot = ℕ × PoolTx

abbrev pub enumerate : ℕ → List PoolTx → List Slot
enumerate i [] = []
enumerate i (e ∷ es) = (i, e) ∷ enumerate (suc i) es

-- Highest fee, then lowest nonce, then oldest.
unfoldable pub batch_order : Slot → Slot → Bool
batch_order (a, x) (b, y) =
    if x.tx.fee == y.tx.fee
    then (if x.tx.nonce == y.tx.nonce then leb x.seq y.seq else ltb x.tx.nonce y.tx.nonce)
    else ltb y.tx.fee x.tx.fee

-- The variables of the loops.
pub record Selecting : Type 0 where
  pub next_ok : Dict ℕ
  pub chosen : List Slot
  pub deferred : Bool

-- Whether the loop's body takes the entry, and its variables after it.
unfoldable pub select_one : ℕ → Slot → Selecting → Bool × Selecting
select_one max (i, e) v =
    let next = insert e.sender (u64_add e.tx.nonce 1) v.next_ok in
    let taken = v.chosen ++ (i, e) ∷ [] in
    if leb max (length v.chosen) then (false, v) else elim (lookup e.sender v.next_ok) [
      | none ↦ (true, record v { next_ok = next; chosen = taken })
      | some n ↦
          if n == e.tx.nonce
          then (true, record { next_ok = next; chosen = taken; deferred = true })
          else (false, v)
    ]

-- The `for` loop: what is `still` there, and the variables.
unfoldable pub select_pass : ℕ → List Slot → Selecting → List Slot × Selecting
unfolding select_one
select_pass max [] v = ([], v)
select_pass max (x ∷ xs) v =
    let (took, v') = select_one max x v in
    let (still, w) = select_pass max xs v' in (if took then still else x ∷ still, w)

-- The `while` loop: nothing where it has not ended on the fuel.
unfoldable pub select_rounds : ℕ → ℕ → List Slot → Selecting → Option (List Slot)
unfolding select_pass
select_rounds zero max remaining v = none
select_rounds (suc n) max remaining v =
    let (still, w) = select_pass max remaining (record v { deferred = false }) in
    let rest = select_rounds n max still w in
    if v.deferred && ltb (length v.chosen) max then rest else some v.chosen

-- `rank.get(&i)`: the place of an index in the selection.
unfoldable pub rank_of : ℕ → ℕ → List Slot → Option ℕ
rank_of r i [] = none
rank_of r i ((j, e) ∷ xs) = if j == i then some r else rank_of (suc r) i xs

pub record Split : Type 0 where
  pub taken : List (ℕ × Transaction)
  pub kept : List PoolTx
  pub hashes : Dict (Unit {0})
  pub per_sender : Dict ℕ

-- The last loop, over the entries in storage order.
unfoldable pub split_ranked : List Slot → ℕ → List PoolTx → Dict (Unit {0}) → Dict ℕ → Split
unfolding rank_of decrement
split_ranked chosen i [] hashes per = record {
  taken = [];
  kept = [];
  hashes = hashes;
  per_sender = per;
}
split_ranked chosen i (e ∷ es) hashes per = elim (rank_of 0 i chosen) [
  | none ↦
      let rest = split_ranked chosen (suc i) es hashes per in record rest { kept = e ∷ rest.kept }
  | some r ↦
      let rest = split_ranked chosen (suc i) es (remove e.hash hashes) (decrement per e.sender) in
      record rest { taken = (r, e.tx) ∷ rest.taken }
]

abbrev pub selection : ℕ → ℕ → Mempool → Option (List Slot)
selection fuel max p =
    select_rounds fuel max (sort_by batch_order (enumerate 0 p.entries))
      (record { next_ok = []; chosen = []; deferred = true })

unfoldable pub take_batch : ℕ → Mempool → List Transaction × Mempool
unfolding select_rounds split_ranked batch_order
take_batch max p =
    let chosen = unwrap_or (selection (suc (suc (length p.entries))) max p) [] in
    let s = split_ranked chosen 0 p.entries p.hashes p.per_sender in
    if length p.entries == 0 then ([], p) else if max == 0 then ([], p) else (
      map (λ t. t.1) (sort_by (λ a b. leb a.0 b.0) s.taken),
      record p { entries = s.kept; hashes = s.hashes; per_sender = s.per_sender },
    )
