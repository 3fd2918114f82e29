-- ===== src/Admission/Bounds.antt =====
-- What `admit` of src/chain.rs keeps true of the pool.
use inazuma_core.Base.{
  ℕ, ◌++◌, ◌∷◌, true, ◌≤◌, ◌<◌, ◌≡◌, ◌⊎◌, false, some, length, Result, ok, err, u64_add, [],
}
use inazuma_core.Platform.{Platform}
use inazuma_core.State.{Store, account}
use inazuma_core.Transactions.{Transaction}
use inazuma_core.Mempool.{Mempool, contains, pending_for, is_full, max_pool_txs}
use inazuma_core.Mempool.Valid.{IsValid}
use inazuma_core.Mempool.Evict.{Evicted}
use inazuma_core.Externals.{Externals}
use inazuma_core.Blocks.{Rules}
use inazuma_core.Admission.{AdmitError, required_balance, max_pending_per_sender}

-- A pool that is consistent and within its size.
abbrev pub Sound : Mempool → Type 0
Sound p = IsValid p × (length p.entries ≤ max_pool_txs)

-- The pool that is left has the new transaction behind the entries of the old one, or, where that was
-- full, behind those that an eviction leaves.
abbrev pub Queued : Mempool → Transaction → ℕ → ℕ → Mempool → Type 0
Queued p tx hash from p' =
    (q : Mempool) × (((is_full p ≡ false) × (q ≡ p))
      ⊎ ((is_full p ≡ true) × (fee : ℕ) × Evicted p tx.fee (some fee, q)))
    × (p'.entries
        ≡ q.entries ++ record { tx = tx; hash = hash; sender = from; seq = q.next_seq } ∷ [])
    × (contains p' hash ≡ true)

abbrev Enqueued : Mempool → Transaction → ℕ → ℕ → Result AdmitError ℕ × Mempool → Type 0
Enqueued p tx hash from r =
    ((e : AdmitError) × (r.0 ≡ err e) × (r.1 ≡ p))
    ⊎ ((r.0 ≡ ok hash) × Sound r.1 × Queued p tx hash from r.1)

module _ (env : Platform) (ext : Externals env) (rules : Rules) where
  -- What admission does: a refused transaction leaves the pool as it was.
  abbrev pub AdmitOutcome :
      Store env → Mempool → Transaction → ℕ → ℕ → ℕ → Result AdmitError ℕ × Mempool → Type 0
  AdmitOutcome s p tx hash from floor r =
      ((e : AdmitError) × (r.0 ≡ err e) × (r.1 ≡ p))
      ⊎ ((r.0 ≡ ok hash)
          × Sound r.1
          × Queued p tx hash from r.1
          × (floor ≤ tx.fee)
          × (tx.nonce ≡ u64_add (account env s from).nonce (pending_for p from))
          × (required_balance tx ≤ (account env s from).balance)
          × (pending_for p from < max_pending_per_sender)
          × (contains p hash ≡ false))
