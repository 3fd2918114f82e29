-- ===== src/Tests/Mempool.antt =====
-- A pool with two transactions, the newcomer that pays more, and a block that confirms one.
use inazuma_core.Base.{
  ◌+◌, List, Bool, length, u64_add, remove, ℕ, ◌≡◌, refl, arith, false, none, some, [], ◌∷◌, lookup,
  insert, is_some, if◌then◌else◌,
}
use inazuma_core.Transactions.{Transaction, transfer}
use inazuma_core.Mempool.Batch.{
  Slot, selection, take_batch, select_rounds, select_pass, select_one, split_ranked, batch_order,
  rank_of,
}
use inazuma_core.Mempool.Batch.Selection.{tally, selection_ends, take_batch_lem}
use inazuma_core.Mempool.{
  pending_for, decrement, Mempool, new, contains, insert_tx, evict_cheapest_below, remove_hashes,
  tails, cheapest, cheaper,
}
use inazuma_core.Mempool.Counting.{count}
use inazuma_core.Mempool.Valid.{IsValid, insert_tx-IsValid}
use inazuma_core.Mempool.Evict.{remove_hashes_lem}

abbrev pays : ℕ → ℕ → Transaction
pays fee nonce = record {
  kind = transfer;
  from_pubkey = 7;
  to = 8;
  amount = 5;
  fee = fee;
  nonce = nonce;
  chain_id = 1;
  payload = none;
  shielded = none;
  signature = 1;
}

unfoldable one_tx : Mempool
one_tx = insert_tx new (pays 1_000 0) 11 7

unfoldable two_txs : Mempool
unfolding one_tx
two_txs = insert_tx one_tx (pays 2_000 0) 12 9

pub new-IsValid : IsValid new
unfolding lookup
new-IsValid = record {
  pends = λ s. refl;
  holds = λ h. refl;
  once = λ h. omega arith;
  hashes-ascending = tt;
  per-ascending = tt;
}

one_tx-IsValid : IsValid one_tx
unfolding one_tx contains lookup
one_tx-IsValid = insert_tx-IsValid new (pays 1_000 0) 11 7 new-IsValid refl (omega arith)

two_txs-IsValid : IsValid two_txs
unfolding two_txs one_tx contains lookup insert insert_tx
two_txs-IsValid = insert_tx-IsValid one_tx (pays 2_000 0) 12 9 one_tx-IsValid refl (omega arith)

evicts : (evict_cheapest_below two_txs 1_500).0 ≡ some 1_000
unfolding evict_cheapest_below two_txs one_tx insert_tx tails cheapest cheaper lookup insert
evicts = refl

remove_hashes_lem_example :
    IsValid (remove_hashes two_txs ((11, tt) ∷ []))
    × (contains (remove_hashes two_txs ((11, tt) ∷ [])) 12
        ≡ (if is_some (lookup 12 ((11, tt) ∷ [])) then false else contains two_txs 12))
remove_hashes_lem_example = remove_hashes_lem two_txs ((11, tt) ∷ []) 12 two_txs-IsValid

selection_ends_example :
    (chosen : List Slot) × (selection 4 1 two_txs ≡ some chosen)
    × (selection 9 1 two_txs ≡ some chosen)
unfolding two_txs one_tx insert_tx
selection_ends_example = selection_ends 9 1 two_txs (omega arith)

take_batch_lem_example :
    IsValid (take_batch 1 two_txs).1
    × (length (take_batch 1 two_txs).0 + length (take_batch 1 two_txs).1.entries
        ≡ length two_txs.entries)
    × ((test : Transaction → Bool)
        → tally test (take_batch 1 two_txs).0
            + count (λ e. test e.tx) (take_batch 1 two_txs).1.entries
          ≡ count (λ e. test e.tx) two_txs.entries)
take_batch_lem_example = take_batch_lem 1 two_txs two_txs-IsValid

unfoldable same_sender : Mempool
same_sender = insert_tx (insert_tx new (pays 1_000 0) 11 7) (pays 3_000 1) 13 7

-- The later nonce pays more: it is taken, alone, before the earlier one.
skips_earlier_nonce : (take_batch 2 same_sender).0 ≡ pays 3_000 1 ∷ []
unfolding same_sender insert_tx pending_for take_batch select_rounds select_pass select_one
    split_ranked batch_order rank_of decrement lookup insert remove u64_add
skips_earlier_nonce = refl
