-- ===== src/Mempool/Valid.antt =====
-- The invariant of the pool of src/mempool.rs, and `insert`.
use inazuma_core.Base.{
  ℕ, ◌+◌, ◌≤◌, ◌<◌, ◌≡◌, refl, Bool, false, List, [], ◌∷◌, Dict, arith, length, lookup, remove,
  is_some, IsAscending, lookup-insert, lookup-remove, insert-IsAscending, remove-IsAscending, ◌==◌,
  ltb, u64_mod, u64_add, u64_add-eq,
}
use inazuma_core.State.{unwrap_or}
use inazuma_core.Transactions.{Transaction}
use inazuma_core.Mempool.{PoolTx, Mempool, contains, pending_for, insert_tx, decrement, clear}
use inazuma_core.Mempool.Counting.{
  bit, count, count-append, count-le-length, lookup-decrement, decrement-IsAscending,
}

abbrev pub from_sender : ℕ → PoolTx → Bool
from_sender s e = e.sender == s

abbrev pub with_hash : ℕ → PoolTx → Bool
with_hash h e = e.hash == h

-- The two indexes of a queue, beside further entries that `more` and `others` count.
pub record Indexed (more others : ℕ → ℕ) (es : List PoolTx) (hashes : Dict (Unit {0}))
    (per : Dict ℕ) : Type 0 where
  pub pends : (s : ℕ) → unwrap_or (lookup s per) 0 ≡ more s + count (from_sender s) es
  pub holds : (h : ℕ) → is_some (lookup h hashes) ≡ ltb 0 (others h + count (with_hash h) es)
  pub once : (h : ℕ) → others h + count (with_hash h) es ≤ 1
  pub hashes-ascending : IsAscending hashes
  pub per-ascending : IsAscending per

-- The pool's invariant: each sender's counter is the number of its queued transactions, the hash set
-- holds exactly the queued hashes, and no hash is queued twice.
abbrev pub IsValid : Mempool → Type 0
IsValid p = Indexed (λ s. 0) (λ h. 0) p.entries p.hashes p.per_sender

-- One entry leaves the queue and both indexes.
pub remove_one :
    {more others : ℕ → ℕ} (es rest : List PoolTx) (e : PoolTx) {hashes : Dict (Unit {0})}
    {per : Dict ℕ}
    → ((p : PoolTx → Bool) → count p rest + bit (p e) ≡ count p es)
    → Indexed more others es hashes per
    → Indexed more others rest (remove e.hash hashes) (decrement per e.sender)
remove_one es rest e {hashes} {per} c v = record {
  pends = λ s.
      ground (arith, v.pends s, c (from_sender s), lookup-decrement per e.sender s v.per-ascending);
  holds = λ h. ground (
    arith,
    v.holds h,
    v.once h,
    c (with_hash h),
    lookup-remove e.hash h hashes v.hashes-ascending,
  );
  once = λ h. omega (arith, v.once h, c (with_hash h));
  hashes-ascending = remove-IsAscending e.hash hashes v.hashes-ascending;
  per-ascending = decrement-IsAscending per e.sender v.per-ascending;
}

-- A new transaction keeps the pool valid, if its hash is not queued and the queue fits a word.
pub insert_tx-IsValid :
    (p : Mempool) (tx : Transaction) (hash sender : ℕ)
    → IsValid p
    → contains p hash ≡ false
    → length p.entries + 1 < u64_mod
    → IsValid (insert_tx p tx hash sender)
unfolding insert_tx contains pending_for
insert_tx-IsValid p tx hash sender v fresh small =
    let e : PoolTx = record { tx = tx; hash = hash; sender = sender; seq = p.next_seq } in
    let n = unwrap_or (lookup sender p.per_sender) 0 in
    let exact : u64_add n 1 ≡ n + 1 =
      u64_add-eq n 1
        (omega (arith, v.pends sender, count-le-length (from_sender sender) p.entries, small)) in
    record {
      pends = λ s. ground (
        arith,
        v.pends s,
        exact,
        count-append (from_sender s) p.entries (e ∷ []),
        lookup-insert sender s (u64_add n 1) p.per_sender,
      );
      holds = λ h. ground (
        arith,
        v.holds h,
        count-append (with_hash h) p.entries (e ∷ []),
        lookup-insert hash h tt p.hashes,
      );
      once = λ h.
          ground (arith, v.once h, v.holds h, fresh, count-append (with_hash h) p.entries (e ∷ []));
      hashes-ascending = insert-IsAscending hash tt p.hashes v.hashes-ascending;
      per-ascending = insert-IsAscending sender (u64_add n 1) p.per_sender v.per-ascending;
    }

clear-IsValid : (p : Mempool) → IsValid (clear p)
unfolding clear lookup
clear-IsValid p = record {
  pends = λ s. refl;
  holds = λ h. refl;
  once = λ h. omega arith;
  hashes-ascending = tt;
  per-ascending = tt;
}
