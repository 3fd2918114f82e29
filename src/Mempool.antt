-- ===== src/Mempool.antt =====
-- The transaction pool of src/mempool.rs with its two indexes. A `HashSet` and a `HashMap` are
-- dictionaries; `usize` counters are counted without a bound, the per-sender `u64` wraps. The order
-- in which a `HashMap` yields its values does not matter to `min_by` here, since no two queued
-- transactions share a `seq`. `take_batch` is the module Batch.
pub mod Counting
pub mod Valid
pub mod Evict
pub mod Batch
use inazuma_core.Base.{
  ℕ, zero, suc, ◌+◌, ◌-◌, Bool, true, false, not, ◌&&◌, ◌||◌, Option, none, some, List, [], ◌∷◌,
  ◌++◌, Dict, length, map, lookup, insert, remove, is_some, ltb, leb, ◌==◌, if◌then◌else◌, u64_add,
  min,
}
use inazuma_core.State.{unwrap_or}
use inazuma_core.Transactions.{Transaction}

abbrev pub max_pool_txs : ℕ
max_pool_txs = 20_000

pub record PoolTx : Type 0 where
  pub tx : Transaction
  pub hash : ℕ
  pub sender : ℕ
  pub seq : ℕ

pub record Mempool : Type 0 where
  pub entries : List PoolTx
  pub hashes : Dict (Unit {0})
  pub per_sender : Dict ℕ
  pub next_seq : ℕ

abbrev pub new : Mempool
new = record { entries = []; hashes = []; per_sender = []; next_seq = 0 }

unfoldable pub len : Mempool → ℕ
len p = length p.entries

unfoldable pub contains : Mempool → ℕ → Bool
contains p hash = is_some (lookup hash p.hashes)

unfoldable pub pending_for : Mempool → ℕ → ℕ
pending_for p sender = unwrap_or (lookup sender p.per_sender) 0

unfoldable pub insert_tx : Mempool → Transaction → ℕ → ℕ → Mempool
unfolding pending_for
insert_tx p tx hash sender = record {
  hashes = insert hash tt p.hashes;
  per_sender = insert sender (u64_add (pending_for p sender) 1) p.per_sender;
  next_seq = u64_add p.next_seq 1;
  entries = p.entries ++ record { tx = tx; hash = hash; sender = sender; seq = p.next_seq } ∷ [];
}

unfoldable pub is_full : Mempool → Bool
is_full p = leb max_pool_txs (length p.entries)

unfoldable pub decrement : Dict ℕ → ℕ → Dict ℕ
decrement m sender = elim (lookup sender m) [
  | none ↦ m
  | some n ↦ if n - 1 == 0 then remove sender (insert sender (n - 1) m) else insert sender (n - 1) m
]

-- The highest queued nonce of each sender, with its index: the loop over `entries.iter().enumerate()`.
-- `or_insert` puts the entry itself, which the comparison then puts again.
unfoldable pub tails : ℕ → List PoolTx → Dict (ℕ × ℕ) → Dict (ℕ × ℕ)
tails i [] tail = tail
tails i (e ∷ es) tail =
    let (at, nonce) = unwrap_or (lookup e.sender tail) (i, e.tx.nonce) in
    tails (suc i) es
      (insert e.sender (if leb nonce e.tx.nonce then (i, e.tx.nonce) else (at, nonce)) tail)

abbrev pub nth : ℕ → List PoolTx → Option PoolTx
nth i [] = none
nth zero (e ∷ es) = some e
nth (suc i) (e ∷ es) = nth i es

-- `fee` ascending, then the latest arrival first.
unfoldable pub cheaper : PoolTx → PoolTx → Bool
cheaper x y = ltb x.tx.fee y.tx.fee || x.tx.fee == y.tx.fee && leb y.seq x.seq

-- `min_by` over the indices of the tails: of equals the first is kept.
unfoldable pub cheapest : List PoolTx → Dict (ℕ × ℕ) → Option (ℕ × PoolTx)
cheapest es [] = none
cheapest es ((s, at) ∷ tail) =
    let later = cheapest es tail in
    elim (nth at.0 es) [
      | none ↦ later
      | some e ↦ elim later [
        | none ↦ some (at.0, e)
        | some l ↦ if cheaper e l.1 then some (at.0, e) else some l
      ]
    ]

abbrev pub last_or : PoolTx → List PoolTx → PoolTx
last_or e [] = e
last_or e (x ∷ xs) = last_or x xs

abbrev pub drop_last : PoolTx → List PoolTx → List PoolTx
drop_last e [] = []
drop_last e (x ∷ xs) = e ∷ drop_last x xs

-- `Vec::swap_remove`: the last element moves into the hole.
unfoldable pub swap_remove : ℕ → List PoolTx → List PoolTx
swap_remove i [] = []
swap_remove zero (e ∷ []) = []
swap_remove zero (e ∷ x ∷ xs) = last_or x xs ∷ drop_last x xs
swap_remove (suc i) (e ∷ es) = e ∷ swap_remove i es

unfoldable pub evict_cheapest_below : Mempool → ℕ → Option ℕ × Mempool
unfolding tails cheapest swap_remove decrement
evict_cheapest_below p incoming_fee = elim (cheapest p.entries (tails 0 p.entries [])) [
  | none ↦ (none, p)
  | some (victim, e) ↦ if leb incoming_fee e.tx.fee then (none, p) else (
    some e.tx.fee,
    record p {
      entries = swap_remove victim p.entries;
      hashes = remove e.hash p.hashes;
      per_sender = decrement p.per_sender e.sender;
    },
  )
]

-- The `filter` of `remove_hashes`, with the two indexes that it updates on its way.
unfoldable pub drop_confirmed :
    Dict (Unit {0})
    → List PoolTx
    → Dict (Unit {0})
    → Dict ℕ
    → List PoolTx × Dict (Unit {0}) × Dict ℕ
unfolding decrement
drop_confirmed confirmed [] hashes per_sender = ([], hashes, per_sender)
drop_confirmed confirmed (e ∷ es) hashes per_sender =
    if is_some (lookup e.hash confirmed)
    then drop_confirmed confirmed es (remove e.hash hashes) (decrement per_sender e.sender)
    else (let (kept, h, s) = drop_confirmed confirmed es hashes per_sender in (e ∷ kept, h, s))

-- `hashes.is_empty()`
abbrev pub no_hashes : Dict (Unit {0}) → Bool
no_hashes [] = true
no_hashes (h ∷ hs) = false

unfoldable pub remove_hashes : Mempool → Dict (Unit {0}) → Mempool
unfolding drop_confirmed
remove_hashes p confirmed =
    if no_hashes confirmed
    then p
    else (let (kept, h, s) = drop_confirmed confirmed p.entries p.hashes p.per_sender in
        record p { entries = kept; hashes = h; per_sender = s })

-- `next_seq` runs on.
unfoldable pub clear : Mempool → Mempool
clear p = record p { entries = []; hashes = []; per_sender = [] }

unfoldable pub fees : Mempool → List ℕ
fees p = map (λ e. e.tx.fee) p.entries

abbrev pub min_from : List PoolTx → Option ℕ
min_from [] = none
min_from (e ∷ es) = elim (min_from es) [ none ↦ some e.tx.fee | some f ↦ some (min e.tx.fee f) ]

unfoldable pub min_fee : Mempool → Option ℕ
min_fee p = min_from p.entries
